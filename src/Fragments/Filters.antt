-- ===== src/Fragments/Filters.antt =====
-- hub3/fragments/api.go: the query filters of a search request, `sr.QueryFilter`, and what adds to them.
-- `cmp_equal` stands for `cmp.Equal`.
pub mod Laws
pub mod Range
use hub.Prelude.{
  ℕ, Bool, true, false, ◌&&◌, ◌||◌, not, Option, none, some, List, [], ◌∷◌, ◌++◌, Text, codes,
  if◌then◌else◌, is_blank, has_prefix, has_suffix, contains, replace_all, split,
}
use hub.Fragments.Filter.{
  FilterType, text_type, id_type, exists_type, date_range_type, iso_date_type, tree_item_type,
  entry_tag_type, QueryFilter, empty_filter, FilterError, no_range, no_separator, Made, made,
  refused, is_text, new_query_filter,
}

-- The error that is returned, and the filters of the request.
abbrev pub Outcome : Type 0
Outcome = Option FilterError × List QueryFilter

-- The filter as `AddQueryFilter` marks it.
unfoldable pub mark_filter : Bool → QueryFilter → QueryFilter
mark_filter id qf =
    let marked : QueryFilter =
      if id then record qf { id = true; type = id_type } else record qf { type = text_type } in
    if is_text qf.search_label (codes "tag") || is_text qf.search_label (codes "tags")
    then record marked { type = entry_tag_type }
    else marked

-- `append(sr.QueryFilter, qf)` behind an error of the reading.
abbrev pub append_made : Made → List QueryFilter → Outcome
append_made (refused e) filters = (some e, filters)
append_made (made qf) filters = (none, filters ++ qf ∷ [])

-- A change of a filter that was read.
abbrev pub map_made : (QueryFilter → QueryFilter) → Made → Made
map_made f (refused e) = refused e
map_made f (made qf) = made (f qf)

unfoldable pub set_range : List Text → QueryFilter → Made
set_range (from ∷ to ∷ []) qf = made (record qf {
  type = date_range_type;
  gte = if is_blank from then qf.gte else from;
  lte = if is_blank to then qf.lte else to;
})
set_range _ qf = refused no_separator

abbrev pub range_of : Made → Made
range_of (refused e) = refused e
range_of (made qf) =
    if is_text qf.value (codes "~") || is_blank qf.value
    then refused no_range
    else set_range (split (b'~') qf.value) qf

module _ (cmp_equal : QueryFilter → QueryFilter → Bool) where
  -- The loop over the filters that are there.
  unfoldable pub has_filter : QueryFilter → List QueryFilter → Bool
  has_filter qf [] = false
  has_filter qf (v ∷ filters) = cmp_equal qf v || has_filter qf filters

  abbrev pub append_new : Bool → Made → List QueryFilter → Outcome
  append_new id (refused e) filters = (some e, filters)
  append_new id (made qf) filters =
      if has_filter (mark_filter id qf) filters
      then (none, filters)
      else (none, filters ++ mark_filter id qf ∷ [])

  module _ (unmarshal : Text → Option QueryFilter) where
    unfoldable pub add_query_filter : Text → Bool → List QueryFilter → Outcome
    add_query_filter filter id filters = append_new id (new_query_filter unmarshal filter) filters

module _ (unmarshal : Text → Option QueryFilter) where
  unfoldable pub new_tree_filter : Text → Made
  new_tree_filter filter =
      map_made (λ qf. record qf { type = tree_item_type })
        (new_query_filter unmarshal
          (if has_prefix filter (codes "tree.") then filter else codes "tree." ++ filter))

  unfoldable pub add_tree_filter : Text → List QueryFilter → Outcome
  add_tree_filter filter filters = append_made (new_tree_filter filter) filters

  unfoldable pub add_date_filter : Text → List QueryFilter → Outcome
  add_date_filter filter filters =
      append_made
        (map_made (λ qf. record qf { type = iso_date_type }) (new_query_filter unmarshal filter))
        filters

  unfoldable pub new_date_range_filter : Text → Made
  new_date_range_filter filter = range_of (
      new_query_filter unmarshal
        (if contains filter (codes "null") then replace_all filter (codes "null") [] else filter))

  unfoldable pub add_date_range_filter : Text → List QueryFilter → Outcome
  add_date_range_filter filter filters = append_made (new_date_range_filter filter) filters

unfoldable pub add_field_exist_filter : Text → List QueryFilter → Outcome
add_field_exist_filter filter filters = (
  none,
  filters ++ record empty_filter { exists = true; type = exists_type; search_label = filter } ∷ [],
)
