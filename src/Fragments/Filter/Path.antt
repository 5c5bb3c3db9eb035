-- ===== src/Fragments/Filter/Path.antt =====
-- hub3/fragments/api.go: the path of type classes and labels that stands in the text of a filter.
use mathlib.Core.List.{append-nil}
use hub.Prelude.{
  ◌≡◌, refl, Bool, true, false, ◌&&◌, ◌==◌, not, some, List, [], ◌∷◌, ◌++◌, Text, has_prefix,
  contains, replace_from, replace_all, cut, split_fields, fields_func, push_field, is_blank, arith,
  ap,
}
use hub.Fragments.Filter.{qf_split}

-- No character of the path's syntax.
abbrev pub is_name : Text → Bool
is_name [] = true
is_name (c ∷ s) = not (c == b'[') && not (c == b']') && not (c == b':') && is_name s

abbrev pub brackets : Text
brackets = b'[' ∷ b']' ∷ []

abbrev pub brackets_a : Text
brackets_a = b'[' ∷ b'a' ∷ b']' ∷ []

-- An empty type class as it stands behind the replacement.
abbrev pub shown : Text → Text
shown [] = b'a' ∷ []
shown (c ∷ tc) = c ∷ tc

pub replace_all-absent : (s old new : Text) → contains s old ≡ false → replace_all s old new ≡ s
unfolding replace_all replace_from contains
replace_all-absent [] old new h = refl
replace_all-absent (c ∷ s) old new h =
    let rest = replace_all-absent s old new in ground (arith, rest)

replace-name :
    (s rest : Text)
    → is_name s ≡ true
    → replace_all (s ++ rest) brackets brackets_a ≡ s ++ replace_all rest brackets brackets_a
unfolding replace_all replace_from has_prefix
replace-name [] rest h = refl
replace-name (c ∷ s) rest h = ground (arith, replace-name s rest)

replace-bracketed :
    (tc label rest : Text)
    → is_name tc ≡ true
    → is_name label ≡ true
    → replace_all (b'[' ∷ tc ++ (b']' ∷ label ++ rest)) brackets brackets_a
      ≡ b'[' ∷ shown tc ++ (b']' ∷ label ++ replace_all rest brackets brackets_a)
unfolding replace_all replace_from has_prefix
replace-bracketed [] label rest ht hl = ground (arith, replace-name label rest)
replace-bracketed (c ∷ tc) label rest ht hl =
    let inner = replace-name (c ∷ tc) (b']' ∷ label ++ rest) in
    let outer = replace-name label rest in ground (arith, inner, outer)

split-name :
    (s rest : Text)
    → is_name s ≡ true
    → split_fields qf_split (s ++ rest)
      ≡ (s ++ (split_fields qf_split rest).0, (split_fields qf_split rest).1)
unfolding split_fields qf_split
split-name [] rest h = refl
split-name (c ∷ s) rest h = ground (arith, split-name s rest)

-- Type classes and labels, from the outermost level to the filter's own, and behind them what follows.
abbrev pub print_path : List (Text × Text) → Text → Text
print_path [] rest = rest
print_path ((tc, label) ∷ path) rest = b'[' ∷ tc ++ (b']' ∷ label ++ print_path path rest)

abbrev pub shown_path : List (Text × Text) → List (Text × Text)
shown_path [] = []
shown_path ((tc, label) ∷ path) = (shown tc, label) ∷ shown_path path

abbrev pub path_parts : List (Text × Text) → List Text
path_parts [] = []
path_parts ((tc, label) ∷ path) = tc ∷ label ∷ path_parts path

abbrev pub is_path : List (Text × Text) → Bool
is_path [] = true
is_path ((tc, label) ∷ path) = is_name tc && is_name label && not (is_blank label) && is_path path

pub replace-print_path :
    (path : List (Text × Text)) (rest : Text)
    → is_path path ≡ true
    → replace_all (print_path path rest) brackets brackets_a
      ≡ print_path (shown_path path) (replace_all rest brackets brackets_a)
replace-print_path [] rest h = refl
replace-print_path ((tc, label) ∷ path) rest h =
    ground (arith, replace-bracketed tc label (print_path path rest), replace-print_path path rest)

pub is_path-shown_path :
    (path : List (Text × Text)) → is_path path ≡ true → is_path (shown_path path) ≡ true
is_path-shown_path [] h = refl
is_path-shown_path (([], label) ∷ path) h = ground (arith, is_path-shown_path path)
is_path-shown_path ((c ∷ tc, label) ∷ path) h = ground (arith, is_path-shown_path path)

cut-name :
    (s rest path value : Text)
    → is_name s ≡ true
    → cut (b':') rest ≡ some (path, value)
    → cut (b':') (s ++ rest) ≡ some (s ++ path, value)
unfolding cut
cut-name [] rest path value h e = e
cut-name (c ∷ s) rest path value h e = ground (arith, cut-name s rest path value)

cut-bracketed :
    (tc label rest path value : Text)
    → is_name tc ≡ true
    → is_name label ≡ true
    → cut (b':') rest ≡ some (path, value)
    → cut (b':') (b'[' ∷ tc ++ (b']' ∷ label ++ rest))
      ≡ some (b'[' ∷ tc ++ (b']' ∷ label ++ path), value)
unfolding cut
cut-bracketed tc label rest path value ht hl e =
    let inner : cut (b':') (b']' ∷ label ++ rest) ≡ some (b']' ∷ label ++ path, value) =
      rw (cut-name label rest path value hl e) refl in
    rw (cut-name tc (b']' ∷ label ++ rest) (b']' ∷ label ++ path) value ht inner) refl

pub cut-print_path :
    (path : List (Text × Text)) (value : Text)
    → is_path path ≡ true
    → cut (b':') (print_path path (b':' ∷ value)) ≡ some (print_path path [], value)
cut-print_path [] value h = unfold cut in refl
cut-print_path ((tc, label) ∷ path) value h =
    cut-bracketed tc label (print_path path (b':' ∷ value)) (print_path path []) value
      (ground arith) (ground arith) (cut-print_path path value (ground arith))

split-bracketed :
    (tc label rest : Text) (words : List Text)
    → is_name tc ≡ true
    → is_name label ≡ true
    → split_fields qf_split rest ≡ ([], words)
    → split_fields qf_split (b'[' ∷ tc ++ (b']' ∷ label ++ rest))
      ≡ ([], push_field (tc, push_field (label, words)))
unfolding split_fields qf_split
split-bracketed tc label rest words ht hl e =
    rw
      (
        split-name tc (b']' ∷ label ++ rest) ht,
        split-name label rest hl,
        e,
        append-nil label,
        append-nil tc,
      )
      refl

split-print_path :
    (path : List (Text × Text))
    → is_path path ≡ true
    → split_fields qf_split (print_path (shown_path path) []) ≡ ([], path_parts (shown_path path))
split-print_path [] h = unfold split_fields in refl
split-print_path (([], c ∷ label) ∷ path) h =
    split-bracketed (b'a' ∷ []) (c ∷ label) (print_path (shown_path path) [])
      (path_parts (shown_path path)) refl (ground arith) (split-print_path path (ground arith))
split-print_path ((d ∷ tc, c ∷ label) ∷ path) h =
    split-bracketed (d ∷ tc) (c ∷ label) (print_path (shown_path path) [])
      (path_parts (shown_path path)) (ground arith) (ground arith)
      (split-print_path path (ground arith))
split-print_path (([], []) ∷ path) h = ground arith
split-print_path ((d ∷ tc, []) ∷ path) h = ground arith

pub fields-print_path :
    (path : List (Text × Text))
    → is_path path ≡ true
    → fields_func qf_split (print_path (shown_path path) []) ≡ path_parts (shown_path path)
unfolding fields_func
fields-print_path path h = ap push_field (split-print_path path h)
