-- ===== src/Fragments/Tests.antt =====
-- Runs of hub3/fragments on small inputs, and the theorems at inputs that exercise the code.
use hub.Prelude.{
  ◌≡◌, refl, true, false, Option, none, some, [], ◌∷◌, Text, codes, text_discrete, ℕ_discrete,
  has_prefix, has_suffix, trim_prefix, contains, replace_from, replace_all, cut, split_fields,
  fields_func, split, has,
}
use hub.Fragments.Filter.{
  ContextQueryFilter, QueryFilter, empty_filter, date_range_type, tree_item_type, made, qf_split,
  validate_type_class, set_parts, read_filter, new_query_filter, as_string, equal,
}
use hub.Fragments.Filter.RoundTrip.{is_printable, signed_string, bare, new_query_filter-as_string}
use hub.Fragments.Filters.{
  mark_filter, has_filter, add_query_filter, new_tree_filter, new_date_range_filter,
}
use hub.Fragments.Filters.Laws.{IsApart, add_query_filter-IsApart, add_query_filter-again}
use hub.Fragments.Filters.Range.{date_range, no_tilde, new_date_range_filter-date_range}
use hub.Fragments.BreadCrumb.{new_user_query}
use hub.Fragments.BreadCrumb.Trail.{steps, IsTrailOf, new_user_query-IsTrailOf}

filters_run : Unit {0}
unfolding text_discrete ℕ_discrete has_prefix has_suffix trim_prefix contains replace_from
    replace_all cut split_fields fields_func split has qf_split validate_type_class set_parts
    read_filter new_query_filter as_string equal mark_filter has_filter add_query_filter
    new_tree_filter
filters_run = tt

abbrev no_json : Text → Option QueryFilter
no_json s = none

abbrev level : Text → Text → Option ContextQueryFilter
level label tc = some (record { search_label = label; type_class = tc })

-- `[edm_Place][]name:Delft`
abbrev delft : QueryFilter
delft = record empty_filter {
  level2 = level (codes "place") (codes "edm_Place");
  search_label = codes "name";
  value = codes "Delft";
  exclude = true;
}

delft-is_printable : is_printable delft ≡ true
unfolding filters_run
delft-is_printable = refl

new_query_filter-as_string_example :
    new_query_filter no_json (signed_string delft) ≡ made (bare delft)
new_query_filter-as_string_example = new_query_filter-as_string no_json delft delft-is_printable

abbrev delft_id : QueryFilter
delft_id = record delft { exclude = false; id = true }

-- A value with two brackets changes.
brackets_test :
    new_query_filter no_json (codes "a:b[]")
    ≡ made (record empty_filter { search_label = codes "a"; value = codes "b[a]" })
unfolding filters_run
brackets_test = refl

-- The minus of a tree filter stands behind the prefix, and excludes nothing.
tree_test :
    new_tree_filter no_json (codes "-depth:3")
    ≡ made (record empty_filter {
      search_label = codes "tree.-depth";
      value = codes "3";
      type = tree_item_type;
    })
unfolding filters_run
tree_test = refl

abbrev plain : QueryFilter
plain = record empty_filter { search_label = codes "a"; value = codes "b" }

-- The exclusion of a filter that is there is dropped.
again_test :
    add_query_filter equal no_json
      (codes "-a:b")
      false
      (add_query_filter equal no_json (codes "a:b") false []).1
    ≡ (none, plain ∷ [])
unfolding filters_run
again_test = refl

add_query_filter-IsApart_example :
    IsApart (add_query_filter equal no_json (codes "-a:b") true (plain ∷ [])).1
add_query_filter-IsApart_example =
    add_query_filter-IsApart equal (λ qf oqf. refl) no_json (codes "-a:b") true (plain ∷ [])
      (refl, tt)

add_query_filter-again_example :
    add_query_filter equal no_json
      (signed_string delft)
      true
      (add_query_filter equal no_json (signed_string delft_id) false (plain ∷ [])).1
    ≡ (none, (add_query_filter equal no_json (signed_string delft_id) false (plain ∷ [])).1)
add_query_filter-again_example =
    add_query_filter-again equal (λ qf oqf. refl) no_json delft_id delft false true (plain ∷ [])
      delft-is_printable delft-is_printable refl

abbrev years : QueryFilter
years = record empty_filter { search_label = codes "date"; value = date_range (codes "1900") [] }

years-is_printable : is_printable years ≡ true
unfolding filters_run
years-is_printable = refl

years-no_null : contains (signed_string years) (codes "null") ≡ false
unfolding filters_run
years-no_null = refl

no_tilde_in_year : no_tilde (codes "1900") ≡ true
unfolding filters_run
no_tilde_in_year = refl

no_tilde_in_nothing : no_tilde [] ≡ true
unfolding filters_run
no_tilde_in_nothing = refl

new_date_range_filter-date_range_example :
    new_date_range_filter no_json (signed_string years)
    ≡ made (record (bare years) { type = date_range_type; gte = codes "1900"; lte = [] })
new_date_range_filter-date_range_example =
    new_date_range_filter-date_range no_json years (codes "1900") [] refl years-is_printable
      no_tilde_in_year no_tilde_in_nothing years-no_null

new_user_query-IsTrailOf_example :
    IsTrailOf
      (steps (codes "delft") (plain ∷ delft ∷ []))
      (new_user_query (codes "delft") (plain ∷ delft ∷ []))
new_user_query-IsTrailOf_example = new_user_query-IsTrailOf (codes "delft") (plain ∷ delft ∷ [])
