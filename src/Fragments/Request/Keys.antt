-- ===== src/Fragments/Request/Keys.antt =====
-- hub3/fragments/api.go: the keys of the switch of `NewSearchRequest`.
use hub.Prelude.{List, [], ◌∷◌, Text, codes, if◌then◌else◌}
use hub.Fragments.Filter.{is_text}

-- The cases of the switch.
pub data Key : Type 0 where
  query_key qf_key qf_id_key date_range_key tree_key date_key exist_key facet_key facet_bool_key
        format_key rows_key item_format_key sort_by_key sort_asc_key sort_order_key collapse_on_key
        collapse_sort_key collapse_size_key peek_key by_leaf_key by_depth_key by_child_count_key
        by_parent_key by_type_key by_label_key by_query_key with_fields_key has_digital_object_key
        paging_key page_mode_key has_restriction_key by_unit_id_key by_mime_type_key cursor_hint_key
        page_key page_size_key start_key search_after_key other_key :
      Key

abbrev pub keys : List (Text × Key)
keys =
    (codes "q", query_key)
    ∷ (codes "query", query_key)
    ∷ (codes "qf", qf_key)
    ∷ (codes "qf[]", qf_key)
    ∷ (codes "qf.id", qf_id_key)
    ∷ (codes "qf.id[]", qf_id_key)
    ∷ (codes "qf.dateRange", date_range_key)
    ∷ (codes "qf.dateRange[]", date_range_key)
    ∷ (codes "qf.tree", tree_key)
    ∷ (codes "qf.tree[]", tree_key)
    ∷ (codes "qf.date", date_key)
    ∷ (codes "qf.date[]", date_key)
    ∷ (codes "qf.exist", exist_key)
    ∷ (codes "qf.exist[]", exist_key)
    ∷ (codes "facet.field", facet_key)
    ∷ (codes "facetBoolType", facet_bool_key)
    ∷ (codes "format", format_key)
    ∷ (codes "rows", rows_key)
    ∷ (codes "itemFormat", item_format_key)
    ∷ (codes "sortBy", sort_by_key)
    ∷ (codes "sortAsc", sort_asc_key)
    ∷ (codes "sortOrder", sort_order_key)
    ∷ (codes "collapseOn", collapse_on_key)
    ∷ (codes "collapseSort", collapse_sort_key)
    ∷ (codes "collapseSize", collapse_size_key)
    ∷ (codes "peek", peek_key)
    ∷ (codes "byLeaf", by_leaf_key)
    ∷ (codes "byDepth", by_depth_key)
    ∷ (codes "byChildCount", by_child_count_key)
    ∷ (codes "byParent", by_parent_key)
    ∷ (codes "byType", by_type_key)
    ∷ (codes "byLabel", by_label_key)
    ∷ (codes "byQuery", by_query_key)
    ∷ (codes "withFields", with_fields_key)
    ∷ (codes "hasDigitalObject", has_digital_object_key)
    ∷ (codes "paging", paging_key)
    ∷ (codes "pageMode", page_mode_key)
    ∷ (codes "hasRestriction", has_restriction_key)
    ∷ (codes "byUnitID", by_unit_id_key)
    ∷ (codes "byMimeType", by_mime_type_key)
    ∷ (codes "cursorHint", cursor_hint_key)
    ∷ (codes "page", page_key)
    ∷ (codes "pageSize", page_size_key)
    ∷ (codes "start", start_key)
    ∷ (codes "searchAfter", search_after_key)
    ∷ []

unfoldable pub find_key : Text → List (Text × Key) → Key
find_key p [] = other_key
find_key p ((q, key) ∷ rest) = let later = find_key p rest in if is_text p q then key else later
