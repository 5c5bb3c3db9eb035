-- ===== src/Fragments/FacetUri/Selected.antt =====
-- hub3/fragments/api.go: when the link of a facet is selected.
use hub.Prelude.{
  ◌≡◌, refl, Bool, true, false, ◌&&◌, ◌||◌, not, List, [], ◌∷◌, ◌++◌, Text, codes, text_discrete,
  if◌then◌else◌, has_prefix, get, put, get-put, IsMap, put-IsMap, has, arith, ap, ◌∙◌, keys, subst,
  is_blank,
}
use hub.Fragments.Filter.{QueryFilter, is_text}
use hub.Fragments.FacetUri.{
  FilterMap, is_there, or_empty, has_query_filter, add_filter, add_all, new_facet_uri_builder,
  sort_keys, tree_prefix, create_facet_filter_uri,
}
use hub.Fragments.FacetUri.Loop.{
  any_key, any_filter, no_tree_keys, any_filter-sort_keys, no_tree-sort_keys, filters_loop-selected,
}

-- No label of a tree.
abbrev pub no_tree : List QueryFilter → Bool
no_tree [] = true
no_tree (qf ∷ filters) = not (has_prefix qf.search_label tree_prefix) && no_tree filters

-- Some filter has the label and the value.
abbrev pub is_listed : Text → Text → List QueryFilter → Bool
is_listed field value [] = false
is_listed field value (qf ∷ filters) =
    (is_text qf.search_label field && is_text qf.value value) || is_listed field value filters

-- The value of a field, among the values that are given.
any_key-get :
    (value : Text) (values : List (Text × QueryFilter))
    → any_key value values ≡ is_there (get text_discrete value values)
unfolding get
any_key-get value [] = refl
any_key-get value ((k, qf) ∷ values) = ground (arith, any_key-get value values)

any_filter-absent :
    (field value : Text) (filters : FilterMap)
    → has text_discrete field (keys text_discrete filters) ≡ false
    → any_filter field value filters ≡ false
unfolding has
any_filter-absent field value [] h = refl
any_filter-absent field value ((f, values) ∷ filters) h =
    ground (arith, any_filter-absent field value filters)

-- In a map a field stands once, so that the loop finds what the lookup finds.
any_filter-has_query_filter :
    (field value : Text) (filters : FilterMap)
    → IsMap text_discrete filters
    → any_filter field value filters ≡ has_query_filter field value filters
unfolding has_query_filter get
any_filter-has_query_filter field value [] h = refl
any_filter-has_query_filter field value ((f, values) ∷ filters) h = elim (text_discrete f field) [
  | yes p ↦ ground (
    arith,
    any_key-get value values,
    any_filter-absent field value filters
        (subst (λ x. has text_discrete x (keys text_discrete filters) ≡ false) p h.0),
  )
  | no n ↦ ground (arith, any_filter-has_query_filter field value filters h.1)
]

is_there-put :
    (value : Text) (qf : QueryFilter) (values : List (Text × QueryFilter))
    → is_there (get text_discrete value (put text_discrete qf.value qf values))
      ≡ (is_text qf.value value || is_there (get text_discrete value values))
is_there-put value qf values = rw (get-put text_discrete value qf.value qf values) (ground arith)

has_query_filter-add_filter :
    (field value : Text) (qf : QueryFilter) (filters : FilterMap)
    → has_query_filter field value (add_filter qf filters) ≡ (
        (is_text qf.search_label field && is_text qf.value value)
        || has_query_filter field value filters)
unfolding has_query_filter add_filter
has_query_filter-add_filter field value qf filters =
    let old = or_empty (get text_discrete qf.search_label filters) in
    rw (get-put text_discrete field qf.search_label (put text_discrete qf.value qf old) filters)
      (elim (text_discrete qf.search_label field) [
        | yes p ↦ ground (arith, is_there-put value qf old, ap (λ x. get text_discrete x filters) p)
        | no n ↦ ground arith
      ])

add_filter-IsMap :
    (qf : QueryFilter) (filters : FilterMap)
    → IsMap text_discrete filters
    → IsMap text_discrete (add_filter qf filters)
unfolding add_filter
add_filter-IsMap qf filters h =
    put-IsMap text_discrete qf.search_label
      (put text_discrete qf.value qf (or_empty (get text_discrete qf.search_label filters))) filters
      h

put-no_tree_keys :
    (f : Text) (values : List (Text × QueryFilter)) (filters : FilterMap)
    → has_prefix f tree_prefix ≡ false
    → no_tree_keys filters ≡ true
    → no_tree_keys (put text_discrete f values filters) ≡ true
unfolding put
put-no_tree_keys f values [] h k = ground arith
put-no_tree_keys f values ((g, old) ∷ filters) h k =
    ground (arith, put-no_tree_keys f values filters)

add_all-lem :
    (field value : Text) (fs : List QueryFilter) (filters : FilterMap)
    → IsMap text_discrete filters
    → no_tree_keys filters ≡ true
    → no_tree fs ≡ true
    → IsMap text_discrete (add_all fs filters)
      × (no_tree_keys (add_all fs filters) ≡ true)
      × (has_query_filter field value (add_all fs filters)
          ≡ (has_query_filter field value filters || is_listed field value fs))
unfolding add_all
add_all-lem field value [] filters m k h = (m, k, ground arith)
add_all-lem field value (qf ∷ fs) filters m k h =
    let child =
      put text_discrete qf.value qf (or_empty (get text_discrete qf.search_label filters)) in
    let kept : no_tree_keys (add_filter qf filters) ≡ true =
      unfold add_filter in put-no_tree_keys qf.search_label child filters (ground arith) k in
    let rest =
      add_all-lem field value fs (add_filter qf filters) (add_filter-IsMap qf filters m) kept
        (ground arith) in
    (rest.0, rest.1, ground (arith, rest.2, has_query_filter-add_filter field value qf filters))

-- The link that `CreateFacetFilterURI` makes for a field and a value is marked as selected exactly if
-- some filter of the builder has that label and that value, and so exactly if `hasQueryFilter` holds,
-- where neither the field nor a filter's label is of a tree.
pub create_facet_filter_uri-selected :
    (query field value : Text) (fs : List QueryFilter)
    → has_prefix field tree_prefix ≡ false
    → no_tree fs ≡ true
    → ((create_facet_filter_uri field value (new_facet_uri_builder query fs)).1
        ≡ is_listed field value fs)
      × (has_query_filter field value (new_facet_uri_builder query fs).filters
          ≡ is_listed field value fs)
unfolding create_facet_filter_uri new_facet_uri_builder
create_facet_filter_uri-selected query field value fs plain h =
    let all = add_all-lem field value fs [] tt refl h in
    let filters = add_all fs [] in
    let start : List Text = if is_blank query then [] else (codes "q=" ++ query) ∷ [] in
    let found : has_query_filter field value filters ≡ is_listed field value fs =
      all.2 ∙ (unfold has_query_filter get in refl) in
    let looped =
      filters_loop-selected field value plain (sort_keys filters)
        (record { fields = start; selected = false }) (no_tree-sort_keys filters ∙ all.1) in
    (
      looped
          ∙ any_filter-sort_keys field value filters
          ∙ any_filter-has_query_filter field value filters all.0
          ∙ found,
      found,
    )
