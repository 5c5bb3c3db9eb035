-- ===== src/Fragments/Request/New/Bounds.antt =====
-- hub3/fragments/api.go: the size of the pages that `NewSearchRequest` asks for.
use hub.Prelude.{
  ℕ, ◌≡◌, refl, true, false, Option, none, some, List, [], ◌∷◌, ◌++◌, Text, codes, ℤ, pos, negsuc,
  ◌≤ℤ◌, leb_ℤ, Bool, ◌&&◌, wrap_int32, if-intro, is_blank, cut, arith,
}
use hub.Fragments.Filter.{QueryFilter}
use hub.Fragments.Filters.{
  Outcome, add_query_filter, add_date_range_filter, add_tree_filter, add_date_filter,
  add_field_exist_filter,
}
use hub.Fragments.Request.{FacetField, SearchRequest, default_search_request}
use hub.Fragments.Request.Keys.{
  Key, keys, find_key, query_key, qf_key, qf_id_key, date_range_key, tree_key, date_key, exist_key,
  facet_key, facet_bool_key, format_key, rows_key, item_format_key, sort_by_key, sort_asc_key,
  sort_order_key, collapse_on_key, collapse_sort_key, collapse_size_key, peek_key, by_leaf_key,
  by_depth_key, by_child_count_key, by_parent_key, by_type_key, by_label_key, by_query_key,
  with_fields_key, has_digital_object_key, paging_key, page_mode_key, has_restriction_key,
  by_unit_id_key, by_mime_type_key, cursor_hint_key, page_key, page_size_key, start_key,
  search_after_key, other_key,
}
use hub.Fragments.Request.Params.{
  Libraries, Values, first_value, Step, going, stopped, index_panic, set_number, number_step,
  set_tree, add_filters, FacetMade, facet, no_facet, facet_error, facet_step, new_facet_field,
  cap_size, add_facets, add_pages, search_after, set_after, with_filters,
}
use hub.Fragments.Request.New.{
  set_param, set_params, is_true, and_then, limit_rows, hex_request, new_search_request,
}

-- At most a thousand hits.
abbrev pub InSize : SearchRequest → Type 0
InSize sr = sr.response_size ≤ℤ pos 1000

-- What is returned asks for at most a thousand hits.
abbrev pub Bounded : Step → Type 0
Bounded (going sr) = InSize sr
Bounded (stopped none) = Unit
Bounded (stopped (some sr)) = InSize sr
Bounded index_panic = Unit

cap_size-InSize : (n : ℤ) → negsuc 2147483647 ≤ℤ n → wrap_int32 (cap_size n) ≤ℤ pos 1000
unfolding wrap_int32
cap_size-InSize n h = ground arith

set_number-Bounded :
    (o : Option ℤ) (f : ℤ → SearchRequest) (sr : SearchRequest)
    → InSize sr
    → ((n : ℤ) → o ≡ some n → InSize (f n))
    → Bounded (set_number o f sr)
set_number-Bounded none f sr h k = h
set_number-Bounded (some n) f sr h k = k n refl

number_step-Bounded :
    (o : Option ℤ) (next : ℤ → Step) (sr : SearchRequest)
    → InSize sr
    → ((n : ℤ) → Bounded (next n))
    → Bounded (number_step o next sr)
number_step-Bounded none next sr h k = h
number_step-Bounded (some n) next sr h k = k n

with_filters-Bounded :
    (o : Outcome) (next : List QueryFilter → Step) (sr : SearchRequest)
    → InSize sr
    → ((fs : List QueryFilter) → Bounded (next fs))
    → Bounded (with_filters o next sr)
with_filters-Bounded (none, fs) next sr h k = k fs
with_filters-Bounded (some e, fs) next sr h k = h

add_filters-Bounded :
    (add : Text → List QueryFilter → Outcome) (v : List Text) (fs : List QueryFilter)
    (sr : SearchRequest)
    → InSize sr
    → Bounded (add_filters add v fs sr)
unfolding add_filters
add_filters-Bounded add [] fs sr h = h
add_filters-Bounded add (x ∷ v) fs sr h =
    with_filters-Bounded (add x fs) (λ gs. add_filters add v gs sr) sr h
      (λ gs. add_filters-Bounded add v gs sr h)

module _ (lib : Libraries) where
  facet_step-Bounded :
      (made : FacetMade) (next : Option FacetField → Step)
      → ((o : Option FacetField) → Bounded (next o))
      → Bounded (facet_step lib made next)
  facet_step-Bounded (facet ff) next k = k (some ff)
  facet_step-Bounded no_facet next k = k none
  facet_step-Bounded facet_error next k = tt

  add_facets-Bounded :
      (v : List Text) (sr : SearchRequest) → InSize sr → Bounded (add_facets lib v sr)
  unfolding add_facets
  add_facets-Bounded [] sr h = h
  add_facets-Bounded (x ∷ v) sr h =
      facet_step-Bounded (new_facet_field lib x)
        (λ made. add_facets lib v (record sr { facet_field = sr.facet_field ++ made ∷ [] }))
        (λ made. add_facets-Bounded v (record sr { facet_field = sr.facet_field ++ made ∷ [] }) h)

  add_pages-Bounded :
      (v : List Text) (sr : SearchRequest) → InSize sr → Bounded (add_pages lib v sr)
  unfolding add_pages
  add_pages-Bounded [] sr h = h
  add_pages-Bounded (x ∷ v) sr h =
      number_step-Bounded (lib.atoi x)
        (λ hint.
          add_pages lib v
            (set_tree (λ tree. record tree { page = tree.page ++ wrap_int32 hint ∷ [] }) sr))
        sr h
        (λ hint.
          add_pages-Bounded v
            (set_tree (λ tree. record tree { page = tree.page ++ wrap_int32 hint ∷ [] }) sr) h)

  set_after-Bounded :
      (o : Option (List ℕ)) (sr : SearchRequest) → InSize sr → Bounded (set_after lib o sr)
  set_after-Bounded none sr h = h
  set_after-Bounded (some bytes) sr h = h

  search_after-Bounded :
      (parts : Option (Text × Text)) (sr : SearchRequest)
      → InSize sr
      → Bounded (search_after lib parts sr)
  search_after-Bounded none sr h = tt
  search_after-Bounded (some (key, level)) sr h =
      set_after-Bounded (lib.encode_after (lib.atoi_value key) level) sr h

  -- No value of `rows` is read as a number below those of an `int32`.
  abbrev fits : Option ℤ → Bool
  fits none = true
  fits (some n) = leb_ℤ (negsuc 2147483647) n

  abbrev key_fits : Key → List Text → Bool
  key_fits rows_key v = fits (lib.atoi (first_value v))
  key_fits _ v = true

  abbrev pub rows_fit : Values → Bool
  rows_fit [] = true
  rows_fit ((p, v) ∷ rest) = key_fits (find_key p keys) v && rows_fit rest

  fits-some : (o : Option ℤ) (n : ℤ) → fits o ≡ true → o ≡ some n → negsuc 2147483647 ≤ℤ n
  fits-some none n h e = absurd (cc)
  fits-some (some m) n h e = ground (arith, h, e)

  module _ (params : Values) where
    set_param-Bounded :
        (key : Key) (v : List Text) (sr : SearchRequest)
        → key_fits key v ≡ true
        → InSize sr
        → Bounded (set_param lib params key v sr)
    unfolding set_param
    set_param-Bounded query_key v sr f h = h
    set_param-Bounded qf_key v sr f h =
        add_filters-Bounded (λ qf. add_query_filter lib.cmp_equal lib.unmarshal qf false) v
          sr.query_filter sr h
    set_param-Bounded qf_id_key v sr f h =
        add_filters-Bounded (λ qf. add_query_filter lib.cmp_equal lib.unmarshal qf true) v
          sr.query_filter sr h
    set_param-Bounded date_range_key v sr f h =
        add_filters-Bounded (add_date_range_filter lib.unmarshal) v sr.query_filter sr h
    set_param-Bounded tree_key v sr f h =
        add_filters-Bounded (add_tree_filter lib.unmarshal) v sr.query_filter sr h
    set_param-Bounded date_key v sr f h =
        add_filters-Bounded (add_date_filter lib.unmarshal) v sr.query_filter sr h
    set_param-Bounded exist_key v sr f h =
        add_filters-Bounded add_field_exist_filter v sr.query_filter sr h
    set_param-Bounded facet_key v sr f h = add_facets-Bounded v sr h
    set_param-Bounded facet_bool_key v sr f h =
        if-intro InSize (is_blank (first_value v)) sr
          (record sr { facet_and_bool_type = lib.equal_fold (first_value v) (codes "and") })
          (λ _. h) (λ _. h)
    set_param-Bounded format_key v sr f h = h
    set_param-Bounded rows_key v sr f h =
        set_number-Bounded (lib.atoi (first_value v))
          (λ size. record sr { response_size = wrap_int32 (cap_size size) }) sr h
          (λ n e. cap_size-InSize n (fits-some (lib.atoi (first_value v)) n f e))
    set_param-Bounded item_format_key v sr f h = h
    set_param-Bounded sort_by_key v sr f h = h
    set_param-Bounded sort_asc_key v sr f h = h
    set_param-Bounded sort_order_key v sr f h = h
    set_param-Bounded collapse_on_key v sr f h = h
    set_param-Bounded collapse_sort_key v sr f h = h
    set_param-Bounded collapse_size_key v sr f h =
        set_number-Bounded (lib.atoi (first_value v))
          (λ n. record sr { collapse_size = wrap_int32 n }) sr h (λ n e. h)
    set_param-Bounded peek_key v sr f h = h
    set_param-Bounded by_leaf_key v sr f h = h
    set_param-Bounded by_depth_key v sr f h = h
    set_param-Bounded by_child_count_key v sr f h = h
    set_param-Bounded by_parent_key v sr f h = h
    set_param-Bounded by_type_key v sr f h = h
    set_param-Bounded by_label_key v sr f h = omega arith
    set_param-Bounded by_query_key v sr f h = omega arith
    set_param-Bounded with_fields_key v sr f h = h
    set_param-Bounded has_digital_object_key v sr f h = h
    set_param-Bounded paging_key v sr f h =
        if-intro InSize (is_true lib params (first_value v))
          (set_tree (λ tree. record tree { is_paging = true }) sr) sr (λ _. h) (λ _. h)
    set_param-Bounded page_mode_key v sr f h = h
    set_param-Bounded has_restriction_key v sr f h = h
    set_param-Bounded by_unit_id_key v sr f h = h
    set_param-Bounded by_mime_type_key v sr f h = h
    set_param-Bounded cursor_hint_key v sr f h =
        set_number-Bounded (lib.atoi (first_value v))
          (λ n.
            set_tree (λ tree. record tree { cursor_hint = wrap_int32 n })
              (set_tree (λ tree. tree) sr))
          (set_tree (λ tree. tree) sr) h (λ n e. h)
    set_param-Bounded page_key v sr f h =
        add_pages-Bounded v (set_tree (λ tree. record tree { page = [] }) sr) h
    set_param-Bounded page_size_key v sr f h =
        set_number-Bounded (lib.atoi (first_value v))
          (λ n.
            set_tree (λ tree. record tree { page_size = wrap_int32 n })
              (set_tree (λ tree. tree) sr))
          (set_tree (λ tree. tree) sr) h (λ n e. h)
    set_param-Bounded start_key v sr f h =
        set_number-Bounded (lib.atoi (first_value v)) (λ n. record sr { start = wrap_int32 n }) sr h
          (λ n e. h)
    set_param-Bounded search_after_key v sr f h =
        search_after-Bounded (cut (b',') (first_value v)) sr h
    set_param-Bounded other_key v sr f h = h

    and_then-Bounded :
        (step : Step) (next : SearchRequest → Step)
        → Bounded step
        → ((sr : SearchRequest) → InSize sr → Bounded (next sr))
        → Bounded (and_then lib params step next)
    and_then-Bounded (going sr) next h k = k sr h
    and_then-Bounded (stopped none) next h k = tt
    and_then-Bounded (stopped (some sr)) next h k = h
    and_then-Bounded index_panic next h k = tt

    set_params-Bounded :
        (rest : Values) (sr : SearchRequest)
        → rows_fit rest ≡ true
        → InSize sr
        → Bounded (set_params lib params rest sr)
    unfolding set_params
    set_params-Bounded [] sr f h = h
    set_params-Bounded ((p, v) ∷ rest) sr f h =
        and_then-Bounded (set_param lib params (find_key p keys) v sr)
          (λ made. set_params lib params rest made)
          (set_param-Bounded (find_key p keys) v sr (ground (arith, f)) h)
          (λ made k. set_params-Bounded rest made (ground (arith, f)) k)

    limit_rows-InSize : (sr : SearchRequest) → InSize sr → InSize (limit_rows lib params sr)
    unfolding limit_rows
    limit_rows-InSize sr h = ground (arith, h)

    -- `NewSearchRequest` without a scroll ID asks for at most a thousand hits, whatever the parameters are
    -- and in whatever order they are met, also in the request that it returns beside an error, if `Atoi`
    -- reads no value of the parameter `rows` as a number below those of an `int32`.
    pub new_search_request-Bounded :
        (session_id : Text)
        → rows_fit params ≡ true
        → is_blank (hex_request lib params) ≡ true
        → Bounded (new_search_request lib params session_id)
    unfolding new_search_request
    new_search_request-Bounded session_id f e = rw (e) (
        and_then-Bounded (set_params lib params params (default_search_request session_id))
          (λ sr. going (limit_rows lib params sr))
          (set_params-Bounded params (default_search_request session_id) f (omega arith))
          (λ sr h. limit_rows-InSize sr h))
