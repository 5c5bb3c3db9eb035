-- ===== src/Search/Parser.antt =====
-- ikuzo/service/x/search/query_parser.go: the parser. text/scanner is a parameter: the input is the list
-- of the tokens that `Scan` returns until the end, each with the rune that `Peek` shows behind it.
-- `is_digit`, `is_letter` and `is_number` stand for the functions of `unicode`, `unicode_lower` for
-- `unicode.ToLower`, `parse_float` for what `strconv.ParseFloat` accepts and `atoi` for `strconv.Atoi`.
pub mod Run
pub mod Total
pub mod Simple
pub mod RoundTrip
mod Tests
use hub.Prelude.{
  ℕ, zero, suc, ◌==◌, Bool, true, false, ◌&&◌, ◌||◌, not, Option, none, some, List, [], ◌∷◌, Text,
  codes, ite, text_discrete, is_blank, is_space, has_prefix, has_suffix, length, if◌then◌else◌, ltb,
}
use hub.Analyzer.{transform_phrase}
use hub.Search.Query.{
  Attributes, QueryTerm, Clauses, Link, query_term, nil, cons, null, ref, attributes,
}

-- A token and the rune behind it, which is `none` at the end of the text.
pub record Scan : Type 0 where
  pub text : Text
  pub next : Option ℕ

pub data Operator : Type 0 where
  nil_operator and_operator or_operator not_operator : Operator

-- What the text of a token is to the parser, by the cases of `processOperators` and `runParser`.
pub data Kind : Type 0 where
  or_kind and_kind not_kind boost_kind fuzzy_kind wild_card_kind field_kind open_kind close_kind
        word_kind :
      Kind

abbrev pub is_text : Text → Text → Bool
is_text s t = ite (text_discrete s t) true false

unfoldable pub kind : Text → Kind
kind t =
    if is_text t (codes "OR") || is_text t (codes "|")
    then or_kind
    else if is_text t (codes "AND") || is_text t (codes "+")
    then and_kind
    else if is_text t (codes "NOT") || is_text t (codes "-")
    then not_kind
    else if is_text t (codes "^")
    then boost_kind
    else if is_text t (codes "~")
    then fuzzy_kind
    else if is_text t (codes "*")
    then wild_card_kind
    else if is_text t (codes ":")
    then field_kind
    else if is_text t (codes "(")
    then open_kind
    else if is_text t (codes ")")
    then close_kind
    else word_kind

pub data ParseError : Type 0 where
  boost_error fuzzy_error : ParseError

-- The query and the tokens that are left, an error, a use of a nil pointer, or no fuel.
pub data Parsed : Type 0 where
  ok : QueryTerm → List Scan → Parsed
  failed : ParseError → Parsed
  panic out_of_fuel : Parsed

abbrev pub no_attributes : Attributes
no_attributes = record {
  field = [];
  value = [];
  prohibited = false;
  phrase = false;
  suffix_wildcard = false;
  prefix_wildcard = false;
  boost = none;
  fuzzy = 0;
  slop = 0;
}

-- `&QueryTerm{}`
abbrev pub new_query_term : QueryTerm
new_query_term = query_term no_attributes nil nil nil null

abbrev pub with_attributes : (Attributes → Attributes) → QueryTerm → QueryTerm
with_attributes f (query_term a m n s l) = query_term (f a) m n s l

-- `append(clauses, qt)`
unfoldable pub append : Clauses → QueryTerm → Clauses
append nil qt = cons qt nil
append (cons q rest) qt = cons q (append rest qt)

-- `strings.TrimFunc` with what is taken off.
unfoldable pub trim_func_left : (ℕ → Bool) → Text → Text
trim_func_left cuts [] = []
trim_func_left cuts (c ∷ s) = let rest = trim_func_left cuts s in if cuts c then rest else c ∷ s

unfoldable pub trim_func_right : (ℕ → Bool) → Text → Text
trim_func_right cuts [] = []
trim_func_right cuts (c ∷ s) =
    let rest = trim_func_right cuts s in if is_blank rest && cuts c then [] else c ∷ rest

abbrev pub default_to : Bool → Operator → Operator
default_to default_and nil_operator = if default_and then and_operator else or_operator
default_to default_and op = op

abbrev pub take_text : List Scan → Text
take_text [] = []
take_text (sc ∷ _) = sc.text

abbrev pub take_rest : List Scan → List Scan
take_rest [] = []
take_rest (_ ∷ rest) = rest

abbrev pub satisfies : (ℕ → Bool) → Option ℕ → Bool
satisfies p none = false
satisfies p (some c) = p c

abbrev pub space_or_end : Option ℕ → Bool
space_or_end none = true
space_or_end (some c) = is_space c

-- What a change of the term comes to: the term and the tokens that are left, or how it fails.
pub data Change : Type 0 where
  changed : Option QueryTerm → List Scan → Change
  refused : ParseError → Change
  nil_pointer : Change

-- An assignment to a field of `qt`.
abbrev pub assign : (Attributes → Attributes) → Option QueryTerm → List Scan → Change
assign f none rest = nil_pointer
assign f (some qt) rest = changed (some (with_attributes f qt)) rest

-- The end of `setFuzziness`: the fuzziness of a phrase is its slop.
unfoldable pub fuzzy_to_slop : Attributes → Attributes
fuzzy_to_slop a = if ltb 0 a.fuzzy && a.phrase then record a { slop = a.fuzzy; fuzzy = 0 } else a

unfoldable pub set_fuzzy : ℕ → Attributes → Attributes
set_fuzzy n a = fuzzy_to_slop (record a { fuzzy = n })

-- `setWildcard`
unfoldable pub set_wildcard : (ℕ → Bool) → Option QueryTerm → Scan → Option QueryTerm
set_wildcard is_letter none sc =
    if satisfies is_letter sc.next
    then some (with_attributes (λ a. record a { suffix_wildcard = true }) new_query_term)
    else none
set_wildcard is_letter (some qt) sc =
    if is_blank (attributes qt).value
    then none
    else some (with_attributes (λ a. record a { prefix_wildcard = true }) qt)

-- `validate`, behind `qt.Value = text`.
unfoldable pub trim_phrase : (ℕ → Bool) → (ℕ → Bool) → Text → Text
trim_phrase is_letter is_number text =
    let cuts : ℕ → Bool = λ c. not (is_letter c) && not (is_number c) in
    trim_func_right cuts (trim_func_left cuts text)

unfoldable pub validate : (ℕ → Bool) → (ℕ → Bool) → Text → Attributes → Attributes
validate is_letter is_number text a =
    if has_prefix text (b'"' ∷ []) && has_suffix text (b'"' ∷ [])
    then record a { value = trim_phrase is_letter is_number text; phrase = true }
    else record a { value = text; phrase = false }

abbrev pub or_new : Option QueryTerm → QueryTerm
or_new none = new_query_term
or_new (some qt) = qt

abbrev pub with_nested : QueryTerm → QueryTerm → QueryTerm
with_nested nested (query_term a m n s _) = query_term a m n s (ref nested)

-- `qt.Field = qt.Value` and `qt.Value = ""`
abbrev pub value_to_field : Attributes → Attributes
value_to_field a = record a { field = a.value; value = [] }
