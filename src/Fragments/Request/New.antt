-- ===== src/Fragments/Request/New.antt =====
-- hub3/fragments/api.go: `NewSearchRequest`, its switch and its loop.
pub mod Bounds
pub mod Scroll
use hub.Prelude.{
  ℕ, Bool, true, false, ◌&&◌, ◌==◌, negsuc, ◌||◌, not, Option, none, some, List, [], ◌∷◌, ◌++◌,
  Text, codes, ℤ, pos, if◌then◌else◌, wrap_int32, is_blank, cut,
}
use hub.Fragments.Filter.{QueryFilter, is_text}
use hub.Fragments.Filters.{
  Outcome, add_query_filter, add_date_range_filter, add_tree_filter, add_date_filter,
  add_field_exist_filter,
}
use hub.Fragments.Pager.{is_zero}
use hub.Fragments.Request.{TreeQuery, SearchRequest, default_search_request}
use hub.Fragments.Request.Keys.{
  Key, keys, find_key, query_key, qf_key, qf_id_key, date_range_key, tree_key, date_key, exist_key,
  facet_key, facet_bool_key, format_key, rows_key, item_format_key, sort_by_key, sort_asc_key,
  sort_order_key, collapse_on_key, collapse_sort_key, collapse_size_key, peek_key, by_leaf_key,
  by_depth_key, by_child_count_key, by_parent_key, by_type_key, by_label_key, by_query_key,
  with_fields_key, has_digital_object_key, paging_key, page_mode_key, has_restriction_key,
  by_unit_id_key, by_mime_type_key, cursor_hint_key, page_key, page_size_key, start_key,
  search_after_key, other_key,
}
use hub.Fragments.Request.Params.{
  Libraries, Values, first_value, get_value, Step, going, stopped, index_panic, set_number,
  set_tree, add_filters, response_format, item_format, cap_size, add_facets, add_pages,
  search_after,
}

module _ (lib : Libraries) (params : Values) where
  abbrev pub is_true : Text → Bool
  is_true value = lib.equal_fold value (codes "true")

  abbrev pub filters_step : (Text → List QueryFilter → Outcome) → List Text → SearchRequest → Step
  filters_step add v sr = add_filters add v sr.query_filter sr

  -- The case of a key, for its values.
  unfoldable pub set_param : Key → List Text → SearchRequest → Step
  set_param query_key v sr = going (record sr { query = first_value v })
  set_param qf_key v sr =
      filters_step (λ qf. add_query_filter lib.cmp_equal lib.unmarshal qf false) v sr
  set_param qf_id_key v sr =
      filters_step (λ qf. add_query_filter lib.cmp_equal lib.unmarshal qf true) v sr
  set_param date_range_key v sr = filters_step (add_date_range_filter lib.unmarshal) v sr
  set_param tree_key v sr = filters_step (add_tree_filter lib.unmarshal) v sr
  set_param date_key v sr = filters_step (add_date_filter lib.unmarshal) v sr
  set_param exist_key v sr = filters_step add_field_exist_filter v sr
  set_param facet_key v sr = add_facets lib v sr
  set_param facet_bool_key v sr = going (
      if is_blank (first_value v)
      then sr
      else record sr { facet_and_bool_type = lib.equal_fold (first_value v) (codes "and") })
  set_param format_key v sr =
      going (record sr {
        response_format_type = response_format (first_value v) sr.response_format_type;
      })
  set_param rows_key v sr =
      set_number (lib.atoi (first_value v))
        (λ size. record sr { response_size = wrap_int32 (cap_size size) }) sr
  set_param item_format_key v sr = going (record sr { item_format = item_format (first_value v) })
  set_param sort_by_key v sr = going (record sr { sort_by = first_value v })
  set_param sort_asc_key v sr = going (record sr {
    sort_asc = if is_text (first_value v) (codes "true") then true else sr.sort_asc;
  })
  set_param sort_order_key v sr =
      going (record sr {
        sort_asc = if is_text (first_value v) (codes "asc") then true else sr.sort_asc;
      })
  set_param collapse_on_key v sr = going (record sr { collapse_on = first_value v })
  set_param collapse_sort_key v sr = going (record sr { collapse_sort = first_value v })
  set_param collapse_size_key v sr =
      set_number (lib.atoi (first_value v)) (λ size. record sr { collapse_size = wrap_int32 size })
        sr
  set_param peek_key v sr = going (record sr { peek = first_value v })
  set_param by_leaf_key v sr = going (
      set_tree
        (λ tree. record tree {
          leaf = first_value v;
          fill_tree = is_true (get_value (codes "fillTree") params);
        })
        sr)
  set_param by_depth_key v sr = going (set_tree (λ tree. record tree { depth = v }) sr)
  set_param by_child_count_key v sr =
      going (set_tree (λ tree. record tree { child_count = first_value v }) sr)
  set_param by_parent_key v sr =
      going (set_tree (λ tree. record tree { parent = first_value v }) sr)
  set_param by_type_key v sr = going (set_tree (λ tree. record tree { type = v }) sr)
  set_param by_label_key v sr = going (
      set_tree (λ tree. record tree { is_search = true; label = first_value v })
        (record sr { response_size = pos 1 }))
  set_param by_query_key v sr = going (
      set_tree (λ tree. record tree { is_search = true; query = first_value v })
        (record sr { response_size = pos 1 }))
  set_param with_fields_key v sr =
      going (set_tree (λ tree. record tree { with_fields = is_true (first_value v) }) sr)
  set_param has_digital_object_key v sr =
      going (set_tree (λ tree. record tree { has_digital_object = is_true (first_value v) }) sr)
  set_param paging_key v sr = going (
      if is_true (first_value v)
      then set_tree (λ tree. record tree { is_paging = true }) sr
      else sr)
  set_param page_mode_key v sr =
      going (set_tree (λ tree. record tree { page_mode = first_value v }) sr)
  set_param has_restriction_key v sr =
      going (set_tree (λ tree. record tree { has_restriction = is_true (first_value v) }) sr)
  set_param by_unit_id_key v sr = going (
      set_tree
        (λ tree. record tree {
          unit_id = first_value v;
          is_search = true;
          all_parents = is_true (get_value (codes "allParents") params);
        })
        sr)
  set_param by_mime_type_key v sr = going (set_tree (λ tree. record tree { mime_type = v }) sr)
  set_param cursor_hint_key v sr =
      let made = set_tree (λ tree. tree) sr in
      set_number (lib.atoi (first_value v))
        (λ hint. set_tree (λ tree. record tree { cursor_hint = wrap_int32 hint }) made) made
  set_param page_key v sr = add_pages lib v (set_tree (λ tree. record tree { page = [] }) sr)
  set_param page_size_key v sr =
      let made = set_tree (λ tree. tree) sr in
      set_number (lib.atoi (first_value v))
        (λ size. set_tree (λ tree. record tree { page_size = wrap_int32 size }) made) made
  set_param start_key v sr =
      set_number (lib.atoi (first_value v)) (λ start. record sr { start = wrap_int32 start }) sr
  set_param search_after_key v sr = search_after lib (cut (b',') (first_value v)) sr
  set_param other_key v sr = going sr

  abbrev pub and_then : Step → (SearchRequest → Step) → Step
  and_then (going sr) next = next sr
  and_then (stopped sr) next = stopped sr
  and_then index_panic next = index_panic

  -- The loop over the parameters.
  unfoldable pub set_params : Values → SearchRequest → Step
  set_params [] sr = going sr
  set_params ((p, v) ∷ rest) sr =
      and_then (set_param (find_key p keys) v sr) (λ made. set_params rest made)

  abbrev pub is_some : Option TreeQuery → Bool
  is_some none = false
  is_some (some _) = true

  abbrev pub is_one : ℤ → Bool
  is_one (pos n) = n == 1
  is_one (negsuc n) = false

  -- The hard maximum behind the loop.
  unfoldable pub limit_rows : SearchRequest → SearchRequest
  limit_rows sr =
      if is_some sr.tree
        && not (is_one sr.response_size)
        && not (is_zero sr.page)
        && is_blank (get_value (codes "rows") params)
      then record sr { response_size = pos 250 }
      else sr

  abbrev pub from_hex : Option SearchRequest → Step
  from_hex none = stopped none
  from_hex (some sr) = going (record sr { paging = true })

  abbrev pub hex_request : Text
  hex_request =
      if is_blank (get_value (codes "scrollID") params)
      then get_value (codes "qs") params
      else get_value (codes "scrollID") params

  -- `NewSearchRequest`, for the session's identifier.
  unfoldable pub new_search_request : Text → Step
  new_search_request session_id =
      if is_blank hex_request
      then and_then (set_params params (default_search_request session_id))
          (λ sr. going (limit_rows sr))
      else from_hex (lib.request_from_hex hex_request)
