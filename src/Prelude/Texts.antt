-- ===== src/Prelude/Texts.antt =====
-- The functions of Go's `strings` and `unicode` that the program uses, over code points.
use Prim.Native.Nat.{ℕ, zero, suc, ◌-◌}
use Prim.Native.Char.{code}
use Prim.Native.String.{String}
use mathlib.Core.Bool.{Bool, true, false, ◌||◌, ◌&&◌}
use mathlib.Core.List.{List, [], ◌∷◌, ◌++◌, reverse}
use native.Mathlib.Decide.{ℕ_discrete}
use hub.Prelude.Tests.{leb, ◌==◌, if◌then◌else◌}
use mathlib.Core.Option
use mathlib.Core.Option.{Option, none, some}
use hub.Prelude.Lists.{has, length, drop, take}

-- `unicode.IsSpace`
unfoldable pub is_space : ℕ → Bool
is_space c =
    (leb 9 c && leb c 13)
    || c == 32
    || c == 0x85
    || c == 0xa0
    || c == 0x1680
    || (leb 0x2000 c && leb c 0x200a)
    || c == 0x2028
    || c == 0x2029
    || c == 0x202f
    || c == 0x205f
    || c == 0x3000

abbrev pub is_blank : List ℕ → Bool
is_blank [] = true
is_blank (_ ∷ _) = false

-- The loop of `strings.Fields`; `word` is the field that is being read, backwards.
unfoldable pub fields_from : List ℕ → List ℕ → List (List ℕ)
fields_from word [] = if is_blank word then [] else reverse word ∷ []
fields_from word (c ∷ s) =
    let here = fields_from [] s in
    let longer = fields_from (c ∷ word) s in
    if is_space c then (if is_blank word then here else reverse word ∷ here) else longer

-- `strings.Fields`
unfoldable pub fields : List ℕ → List (List ℕ)
fields s = fields_from [] s

-- `strings.HasPrefix`
unfoldable pub has_prefix : List ℕ → List ℕ → Bool
has_prefix s [] = true
has_prefix [] (c ∷ prefix) = false
has_prefix (d ∷ s) (c ∷ prefix) = d == c && has_prefix s prefix

-- `strings.HasSuffix`
unfoldable pub has_suffix : List ℕ → List ℕ → Bool
has_suffix s suffix = has_prefix (reverse s) (reverse suffix)

-- `strings.Join`
unfoldable pub join : List (List ℕ) → List ℕ → List ℕ
join [] sep = []
join (s ∷ []) sep = s
join (s ∷ t ∷ rest) sep = s ++ (sep ++ join (t ∷ rest) sep)

-- The code points of a literal.
abbrev pub codes : String → List ℕ
codes String.[] = []
codes (String.◌∷◌ c s) = code c ∷ codes s

-- `strings.TrimLeft`: what it takes off is any of the characters, not the text as a whole.
unfoldable pub trim_left : List ℕ → List ℕ → List ℕ
trim_left [] cutset = []
trim_left (c ∷ s) cutset =
    let rest = trim_left s cutset in if has ℕ_discrete c cutset then rest else c ∷ s

-- `strings.TrimRight`
unfoldable pub trim_right : List ℕ → List ℕ → List ℕ
trim_right [] cutset = []
trim_right (c ∷ s) cutset =
    let rest = trim_right s cutset in
    if is_blank rest && has ℕ_discrete c cutset then [] else c ∷ rest

-- `strings.Trim`
unfoldable pub trim : List ℕ → List ℕ → List ℕ
trim s cutset = trim_right (trim_left s cutset) cutset

-- `strings.TrimPrefix`
unfoldable pub trim_prefix : List ℕ → List ℕ → List ℕ
trim_prefix s prefix = if has_prefix s prefix then drop (length prefix) s else s

-- `strings.Contains`
unfoldable pub contains : List ℕ → List ℕ → Bool
contains [] sub = is_blank sub
contains (c ∷ s) sub = has_prefix (c ∷ s) sub || contains s sub

-- The loop of `strings.ReplaceAll`; the number is that of the code points of a match still to pass.
unfoldable pub replace_from : ℕ → List ℕ → List ℕ → List ℕ → List ℕ
replace_from skipped [] old new = []
replace_from (suc n) (c ∷ s) old new = replace_from n s old new
replace_from zero (c ∷ s) old new =
    let behind = replace_from (length old - 1) s old new in
    let later = replace_from zero s old new in
    if has_prefix (c ∷ s) old then new ++ behind else c ∷ later

-- `strings.ReplaceAll` for an `old` that is not empty.
unfoldable pub replace_all : List ℕ → List ℕ → List ℕ → List ℕ
replace_all s old new = replace_from zero s old new

-- `strings.SplitN(s, c, 2)` for a separator of one byte: what stands before it and behind it, or
-- nothing where it is missing.
unfoldable pub cut : ℕ → List ℕ → Option (List ℕ × List ℕ)
cut c [] = none
cut c (x ∷ s) =
    let rest = cut c s in if x == c then some ([], s) else Option.map (λ p. (x ∷ p.0, p.1)) rest

-- The field that is being read goes before the others, unless it is empty.
abbrev pub push_field : List ℕ × List (List ℕ) → List (List ℕ)
push_field ([], words) = words
push_field (c ∷ word, words) = (c ∷ word) ∷ words

-- The field that begins with the text and the ones behind it, for separators by a test.
unfoldable pub split_fields : (ℕ → Bool) → List ℕ → List ℕ × List (List ℕ)
split_fields p [] = ([], [])
split_fields p (c ∷ s) =
    let rest = split_fields p s in if p c then ([], push_field rest) else (c ∷ rest.0, rest.1)

-- `strings.FieldsFunc`
unfoldable pub fields_func : (ℕ → Bool) → List ℕ → List (List ℕ)
fields_func p s = push_field (split_fields p s)

abbrev pub to_first : ℕ → List (List ℕ) → List (List ℕ)
to_first c [] = (c ∷ []) ∷ []
to_first c (word ∷ words) = (c ∷ word) ∷ words

-- `strings.Split` for a separator of one byte.
unfoldable pub split : ℕ → List ℕ → List (List ℕ)
split c [] = [] ∷ []
split c (x ∷ s) = let rest = split c s in if x == c then [] ∷ rest else to_first x rest

-- `strings.TrimSuffix`
unfoldable pub trim_suffix : List ℕ → List ℕ → List ℕ
trim_suffix s suffix = if has_suffix s suffix then take (length s - length suffix) s else s
