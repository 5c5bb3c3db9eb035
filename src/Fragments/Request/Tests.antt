-- ===== src/Fragments/Request/Tests.antt =====
-- Runs of `NewSearchRequest` of hub3/fragments/api.go, and the theorems at inputs that exercise the code.
use hub.Prelude.{
  ◌≡◌, refl, true, Option, none, some, List, [], ◌∷◌, Text, codes, text_discrete, ℕ_discrete, ℤ,
  pos, negsuc, if◌then◌else◌, has_prefix, cut, wrap_int32, is_blank,
}
use hub.Fragments.Filter.{is_text, equal}
use hub.Fragments.Request.{FacetField, default_search_request}
use hub.Fragments.Request.Keys.{find_key}
use hub.Fragments.Request.Params.{
  Libraries, Values, Step, going, index_panic, get_value, facet_type, add_filters, new_facet_field,
  add_facets, add_pages,
}
use hub.Fragments.Request.New.{hex_request, set_param, set_params, limit_rows, new_search_request}
use hub.Fragments.Request.New.Bounds.{Bounded, rows_fit, new_search_request-Bounded}

request_run : Unit {0}
unfolding text_discrete ℕ_discrete has_prefix cut wrap_int32 find_key get_value facet_type
    add_filters new_facet_field add_facets add_pages set_param set_params limit_rows
    new_search_request
request_run = tt

-- A reader of the numbers that the tests have.
abbrev read_number : Text → Option ℤ
read_number s =
    if is_text s (codes "20")
    then some (pos 20)
    else if is_text s (codes "5000")
    then some (pos 5000)
    else if is_text s (codes "-2147483649")
    then some (negsuc 2147483648)
    else none

abbrev or_zero : Option ℤ → ℤ
or_zero none = pos 0
or_zero (some n) = n

abbrev libraries : (Text → Option ℤ) → Libraries
libraries read = record {
  unmarshal = λ s. none;
  cmp_equal = equal;
  unmarshal_facet = λ s. none;
  facet_size = pos 50;
  atoi = read;
  atoi_value = λ s. or_zero (read s);
  equal_fold = is_text;
  encode_after = λ key level. some level;
  request_from_hex = λ s. some (default_search_request s);
}

abbrev sizes : Step → List ℤ
sizes (going sr) = sr.response_size ∷ []
sizes _ = []

-- The size of a page is capped.
cap_test :
    sizes (new_search_request (libraries read_number) ((codes "rows", codes "5000" ∷ []) ∷ []) [])
    ≡ pos 1000 ∷ []
unfolding request_run
cap_test = refl

-- A number below those of an `int32` passes the cap and wraps.
wrap_test :
    sizes (
      new_search_request (libraries read_number) ((codes "rows", codes "-2147483649" ∷ []) ∷ []) [])
    ≡ pos 2147483647 ∷ []
unfolding request_run
wrap_test = refl

-- The order of the parameters counts.
rows_first_test :
    sizes (
      new_search_request
        (libraries read_number)
        ((codes "rows", codes "20" ∷ []) ∷ (codes "byLabel", codes "x" ∷ []) ∷ [])
        [])
    ≡ pos 1 ∷ []
unfolding request_run
rows_first_test = refl

rows_last_test :
    sizes (
      new_search_request
        (libraries read_number)
        ((codes "byLabel", codes "x" ∷ []) ∷ (codes "rows", codes "20" ∷ []) ∷ [])
        [])
    ≡ pos 20 ∷ []
unfolding request_run
rows_last_test = refl

-- A `searchAfter` without a comma panics.
search_after_test :
    new_search_request (libraries read_number) ((codes "searchAfter", codes "20" ∷ []) ∷ []) []
    ≡ index_panic
unfolding request_run
search_after_test = refl

abbrev facets : Step → List (Option FacetField)
facets (going sr) = sr.facet_field
facets _ = []

-- A facet without a field is nil, without an error.
nil_facet_test :
    facets (new_search_request (libraries read_number) ((codes "facet.field", [] ∷ []) ∷ []) [])
    ≡ none ∷ []
unfolding request_run
nil_facet_test = refl

abbrev some_params : Values
some_params = (codes "rows", codes "5000" ∷ []) ∷ (codes "qf[]", codes "a:b" ∷ []) ∷ []

some_params-hex : is_blank (hex_request (libraries read_number) some_params) ≡ true
unfolding request_run
some_params-hex = refl

some_params-fit : rows_fit (libraries read_number) some_params ≡ true
unfolding request_run
some_params-fit = refl

new_search_request-Bounded_example :
    Bounded (new_search_request (libraries read_number) some_params [])
new_search_request-Bounded_example =
    new_search_request-Bounded (libraries read_number) some_params [] some_params-fit
      some_params-hex
