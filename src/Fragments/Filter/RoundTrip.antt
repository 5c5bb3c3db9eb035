-- ===== src/Fragments/Filter/RoundTrip.antt =====
-- hub3/fragments/api.go: `NewQueryFilter` of the text of a filter, and `Equal`.
use mathlib.Core.List.{append_assoc}
use hub.Prelude.{
  ℕ, ◌≡◌, refl, Bool, true, false, ◌&&◌, not, Option, none, some, List, [], ◌∷◌, ◌++◌, Text, codes,
  text_discrete, ℕ_discrete, if◌then◌else◌, has_prefix, trim_prefix, contains, replace_all, arith,
  ap, ◌∙◌, sym, ◌==◌, ◌↔◌, ite,
}
use hub.Fragments.Filter.{
  text_type, ContextQueryFilter, QueryFilter, Made, made, refused, is_text, validate_type_class,
  set_parts, read_filter, new_query_filter, bracketed, level_text, as_string, equal, empty_filter,
}
use hub.Fragments.Filter.Path.{
  brackets, brackets_a, shown, print_path, shown_path, path_parts, is_path, replace_all-absent,
  is_path-shown_path, replace-print_path, cut-print_path, fields-print_path,
}

abbrev level_path : Option ContextQueryFilter → List (Text × Text) → List (Text × Text)
level_path none path = path
level_path (some level) path = (level.type_class, level.search_label) ∷ path

-- The type classes and labels of a filter.
abbrev pub path_of : QueryFilter → List (Text × Text)
path_of qf = level_path qf.level1 (level_path qf.level2 ((qf.type_class, qf.search_label) ∷ []))

-- No type class is `a`, which stands for none.
abbrev pub no_a : List (Text × Text) → Bool
no_a [] = true
no_a ((tc, label) ∷ path) = not (is_text tc (codes "a")) && no_a path

abbrev pub levels_nested : Option ContextQueryFilter → Option ContextQueryFilter → Bool
levels_nested (some _) none = false
levels_nested _ _ = true

-- A filter whose text tells it.
abbrev pub is_printable : QueryFilter → Bool
is_printable qf =
    is_path (path_of qf)
    && no_a (path_of qf)
    && levels_nested qf.level1 qf.level2
    && not (contains qf.value brackets)

-- The text with the sign of an excluding filter.
abbrev pub signed_string : QueryFilter → Text
signed_string qf = if qf.exclude then b'-' ∷ as_string qf else as_string qf

-- What `NewQueryFilter` does not read is as in a new filter.
abbrev pub bare : QueryFilter → QueryFilter
bare qf = record qf { id = false; exists = false; type = text_type; lte = []; gte = [] }

validate-shown : (tc : Text) → is_text tc (codes "a") ≡ false → validate_type_class (shown tc) ≡ tc
unfolding validate_type_class text_discrete ℕ_discrete
validate-shown [] h = refl
validate-shown (c ∷ tc) h = ground arith

bracketed-append :
    (tc label rest : Text) → bracketed tc label ++ rest ≡ b'[' ∷ tc ++ (b']' ∷ label ++ rest)
bracketed-append tc label rest = ap (λ s. b'[' ∷ s) (append_assoc tc (b']' ∷ label) rest)

level_text-append :
    (level : Option ContextQueryFilter) (path : List (Text × Text)) (rest : Text)
    → level_text level ++ print_path path rest ≡ print_path (level_path level path) rest
level_text-append none path rest = refl
level_text-append (some level) path rest =
    bracketed-append level.type_class level.search_label (print_path path rest)

as_string-print_path : (qf : QueryFilter) → as_string qf ≡ print_path (path_of qf) (b':' ∷ qf.value)
unfolding as_string
as_string-print_path qf =
    let rest = b':' ∷ qf.value in
    let own : List (Text × Text) = (qf.type_class, qf.search_label) ∷ [] in
    ap (λ s. level_text qf.level1 ++ (level_text qf.level2 ++ s))
      (bracketed-append qf.type_class qf.search_label rest)
    ∙ ap (λ s. level_text qf.level1 ++ s) (level_text-append qf.level2 own rest)
    ∙ level_text-append qf.level1 (level_path qf.level2 own) rest

-- The parts of a printed path, read back.
set_parts-levels :
    (level1 level2 : Option ContextQueryFilter) (tc label : Text) (qf : QueryFilter)
    → no_a (level_path level1 (level_path level2 ((tc, label) ∷ []))) ≡ true
    → levels_nested level1 level2 ≡ true
    → set_parts
        (path_parts (shown_path (level_path level1 (level_path level2 ((tc, label) ∷ [])))))
        (record qf { level1 = none; level2 = none })
      ≡ record qf { level1 = level1; level2 = level2; search_label = label; type_class = tc }
unfolding set_parts
set_parts-levels none none tc label qf h n = rw (validate-shown tc (ground arith)) refl
set_parts-levels none (some l2) tc label qf h n =
    rw (validate-shown tc (ground arith), validate-shown l2.type_class (ground arith)) refl
set_parts-levels (some l1) none tc label qf h n = ground arith
set_parts-levels (some l1) (some l2) tc label qf h n =
    rw
      (
        validate-shown tc (ground arith),
        validate-shown l2.type_class (ground arith),
        validate-shown l1.type_class (ground arith),
      )
      refl

set_parts-path :
    (qf : QueryFilter)
    → is_printable qf ≡ true
    → set_parts
        (path_parts (shown_path (path_of qf)))
        (record empty_filter { exclude = qf.exclude; value = qf.value })
      ≡ bare qf
set_parts-path qf h =
    set_parts-levels qf.level1 qf.level2 qf.type_class qf.search_label
      (record empty_filter { exclude = qf.exclude; value = qf.value }) (ground arith) (ground arith)

replace-value :
    (qf : QueryFilter)
    → is_printable qf ≡ true
    → replace_all (b':' ∷ qf.value) brackets brackets_a ≡ b':' ∷ qf.value
replace-value qf h =
    replace_all-absent (b':' ∷ qf.value) brackets brackets_a
      (unfold contains has_prefix in ground arith)

read_filter-as_string :
    (qf : QueryFilter)
    → is_printable qf ≡ true
    → read_filter qf.exclude (as_string qf) ≡ made (bare qf)
unfolding read_filter
read_filter-as_string qf h =
    let path = path_of qf in
    let shown_is_path : is_path (shown_path path) ≡ true = is_path-shown_path path (ground arith) in
    rw
      (
        as_string-print_path qf,
        replace-print_path path (b':' ∷ qf.value) (ground arith),
        replace-value qf h,
        cut-print_path (shown_path path) qf.value shown_is_path,
        fields-print_path path (ground arith),
        set_parts-path qf h,
      )
      refl

-- A text of a filter begins with a bracket.
prefix-print_path :
    (level1 level2 : Option ContextQueryFilter) (tc label rest : Text) (c : ℕ)
    → has_prefix
        (print_path (level_path level1 (level_path level2 ((tc, label) ∷ []))) rest)
        (c ∷ [])
      ≡ (b'[' == c && true)
unfolding has_prefix
prefix-print_path none none tc label rest c = refl
prefix-print_path none (some l2) tc label rest c = refl
prefix-print_path (some l1) level2 tc label rest c = refl

prefix-as_string :
    (qf : QueryFilter) (c : ℕ) → has_prefix (as_string qf) (c ∷ []) ≡ (b'[' == c && true)
prefix-as_string qf c =
    rw (as_string-print_path qf)
      (prefix-print_path qf.level1 qf.level2 qf.type_class qf.search_label (b':' ∷ qf.value) c)

module _ (unmarshal : Text → Option QueryFilter) where
  new_query_filter-plain :
      (qf : QueryFilter)
      → new_query_filter unmarshal (as_string qf) ≡ read_filter false (as_string qf)
  unfolding new_query_filter
  new_query_filter-plain qf = rw (prefix-as_string qf (b'{'), prefix-as_string qf (b'-')) refl

  new_query_filter-minus : (s : Text) → new_query_filter unmarshal (b'-' ∷ s) ≡ read_filter true s
  unfolding new_query_filter has_prefix trim_prefix
  new_query_filter-minus s = refl

  new_query_filter-signed :
      (b : Bool) (qf : QueryFilter)
      → new_query_filter unmarshal (if b then b'-' ∷ as_string qf else as_string qf)
        ≡ read_filter b (as_string qf)
  new_query_filter-signed true qf = new_query_filter-minus (as_string qf)
  new_query_filter-signed false qf = new_query_filter-plain qf

  -- `NewQueryFilter` reads a filter back from its text, with a minus before it where it excludes: the
  -- levels, label, type class, value and sign are the filter's, the rest is that of a new filter. The
  -- names are without brackets and colons, the labels not empty, no type class is `a`, the first level
  -- comes with the second, and the value does not contain `[]`.
  pub new_query_filter-as_string :
      (qf : QueryFilter)
      → is_printable qf ≡ true
      → new_query_filter unmarshal (signed_string qf) ≡ made (bare qf)
  new_query_filter-as_string qf h =
      new_query_filter-signed qf.exclude qf ∙ read_filter-as_string qf h

abbrev filter_of : Made → QueryFilter
filter_of (made qf) = qf
filter_of (refused e) = empty_filter

-- What `Equal` compares.
abbrev pub compared : QueryFilter → QueryFilter
compared qf = record (bare qf) { exclude = false }

pub as_string-compared : (qf : QueryFilter) → as_string (compared qf) ≡ as_string qf
unfolding as_string
as_string-compared qf = refl

pub is_text_iff : (s t : Text) → (is_text s t ≡ true) ↔ (s ≡ t)
is_text_iff s t = elim (text_discrete s t) as (λ d. (ite d true false ≡ true) ↔ (s ≡ t)) [
  | yes p ↦ (λ _. p, λ _. refl)
  | no n ↦ (λ e. absurd (cc), λ e. absurd (n e))
]

-- `Equal` of two filters that their texts tell compares the levels, labels, type classes and values, and
-- nothing else.
equal_iff :
    (qf oqf : QueryFilter)
    → is_printable qf ≡ true
    → is_printable oqf ≡ true
    → (equal qf oqf ≡ true) ↔ (compared qf ≡ compared oqf)
unfolding equal
equal_iff qf oqf h k = (
  λ e. ap filter_of (
      sym (read_filter-as_string (compared qf) h)
      ∙ ap (read_filter false) (
          as_string-compared qf
          ∙ (is_text_iff (as_string qf) (as_string oqf)).0 e
          ∙ sym (as_string-compared oqf))
      ∙ read_filter-as_string (compared oqf) k),
  λ e.
      (is_text_iff (as_string qf) (as_string oqf)).1
        (sym (as_string-compared qf) ∙ ap as_string e ∙ as_string-compared oqf),
)
