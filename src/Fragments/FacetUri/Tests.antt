-- ===== src/Fragments/FacetUri/Tests.antt =====
-- Links of facets of hub3/fragments/api.go, and the theorem at an input that exercises the code.
use hub.Prelude.{
  ◌≡◌, refl, true, false, List, [], ◌∷◌, Text, codes, text_discrete, ℕ_discrete, has_prefix,
  has_suffix, trim_prefix, join, get, put,
}
use hub.Fragments.Filter.{QueryFilter, empty_filter}
use hub.Fragments.FacetUri.{
  has_query_filter, add_filter, add_all, new_facet_uri_builder, text_less, sort_insert, sort_keys,
  type_step, value_step, values_loop, filters_loop, create_facet_filter_uri,
}
use hub.Fragments.FacetUri.Selected.{no_tree, is_listed, create_facet_filter_uri-selected}

facet_run : Unit {0}
unfolding text_discrete ℕ_discrete has_prefix has_suffix trim_prefix join get put add_filter add_all
    new_facet_uri_builder text_less sort_insert sort_keys type_step value_step values_loop
    filters_loop create_facet_filter_uri
facet_run = tt

abbrev filter : Text → Text → QueryFilter
filter label value = record empty_filter { search_label = label; value = value }

abbrev filters : List QueryFilter
filters = filter (codes "b") (codes "2") ∷ filter (codes "a") (codes "1") ∷ []

add_test :
    create_facet_filter_uri (codes "c") (codes "3") (new_facet_uri_builder (codes "x") filters)
    ≡ (codes "q=x&qf[]=a:1&qf[]=b:2&qf[]=c:3", false)
unfolding facet_run
add_test = refl

remove_test :
    create_facet_filter_uri (codes "b") (codes "2") (new_facet_uri_builder (codes "x") filters)
    ≡ (codes "q=x&qf[]=a:1", true)
unfolding facet_run
remove_test = refl

-- The loop takes the prefix off its own variable: behind the first value of a tree label the field of
-- that name without the prefix counts as selected.
trimmed_test :
    create_facet_filter_uri (codes "depth") (codes "2") (
      new_facet_uri_builder []
        (filter (codes "tree.depth") (codes "1") ∷ filter (codes "tree.depth") (codes "2") ∷ []))
    ≡ (codes "qf.tree[]=depth:1", true)
unfolding facet_run
trimmed_test = refl

b-no_tree : has_prefix (codes "b") (codes "tree.") ≡ false
unfolding facet_run
b-no_tree = refl

filters-no_tree : no_tree filters ≡ true
unfolding facet_run
filters-no_tree = refl

create_facet_filter_uri-selected_example :
    ((create_facet_filter_uri (codes "b") (codes "2") (new_facet_uri_builder (codes "x") filters)).1
      ≡ is_listed (codes "b") (codes "2") filters)
    × (has_query_filter (codes "b") (codes "2") (new_facet_uri_builder (codes "x") filters).filters
        ≡ is_listed (codes "b") (codes "2") filters)
create_facet_filter_uri-selected_example =
    create_facet_filter_uri-selected (codes "x") (codes "b") (codes "2") filters b-no_tree
      filters-no_tree
