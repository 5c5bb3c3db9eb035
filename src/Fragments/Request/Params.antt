-- ===== src/Fragments/Request/Params.antt =====
-- hub3/fragments/api.go: `NewSearchRequest`. The parameters are a list of keys with their values, in the
-- order in which `range` meets them.

use hub.Prelude.{
  ℕ, Bool, true, Option, none, some, List, [], ◌∷◌, ◌++◌, Text, codes, ℤ, pos, if◌then◌else◌, leb_ℤ,
  wrap_int32, is_blank, has_prefix,
}
use hub.Fragments.Filter.{QueryFilter, is_text}
use hub.Fragments.Filters.{Outcome}
use hub.Fragments.Request.{
  ResponseFormatType, protobuf_response, ldjson_response, bulkaction_response, ItemFormatType,
  summary_items, fragment_graph_items, grouped_items, jsonld_items, flat_items, tree_items,
  FacetField, terms_facet, tree_facet, tags_facet, metatags_facet, TreeQuery, SearchRequest,
  new_tree_query,
}

-- What the code calls: the readers of JSON, protobuf, hex and numbers (`atoi_value` is the number that
-- `Atoi` returns, also beside an error), `cmp.Equal`, `strings.EqualFold`, the writer of gob, and the
-- size of a facet that is configured.
pub record Libraries : Type 0 where
  pub unmarshal : Text → Option QueryFilter
  pub cmp_equal : QueryFilter → QueryFilter → Bool
  pub unmarshal_facet : Text → Option FacetField
  pub facet_size : ℤ
  pub atoi : Text → Option ℤ
  pub atoi_value : Text → ℤ
  pub equal_fold : Text → Text → Bool
  pub encode_after : ℤ → Text → Option (List ℕ)
  pub request_from_hex : Text → Option SearchRequest

abbrev pub Values : Type 0
Values = List (Text × List Text)

abbrev pub first_value : List Text → Text
first_value [] = []
first_value (v ∷ _) = v

-- `params.Get`
unfoldable pub get_value : Text → Values → Text
get_value p [] = []
get_value p ((q, v) ∷ params) =
    let rest = get_value p params in if is_text q p then first_value v else rest

-- The request so far; or it is returned with an error, or nil is; or a panic.
pub data Step : Type 0 where
  going : SearchRequest → Step
  stopped : Option SearchRequest → Step
  index_panic : Step

-- What `NewFacetField` returns: a facet, nil without an error, or an error.
pub data FacetMade : Type 0 where
  facet : FacetField → FacetMade
  no_facet facet_error : FacetMade

unfoldable pub facet_type : FacetField → FacetField
facet_type ff =
    if has_prefix ff.field (codes "tree.")
    then record ff { type = tree_facet }
    else if has_prefix ff.field (codes "meta.tag")
    then record ff { type = metatags_facet }
    else if has_prefix ff.field (codes "tag")
    then record ff { type = tags_facet }
    else ff

-- `errors.Wrap` of no error is no error.
abbrev pub check_facet : FacetField → FacetMade
check_facet ff =
    if is_blank ff.field
    then no_facet
    else facet (facet_type (if is_blank ff.name then record ff { name = ff.field } else ff))

abbrev pub unmarshalled_facet : Option FacetField → FacetMade
unmarshalled_facet none = facet_error
unmarshalled_facet (some ff) = check_facet ff

abbrev pub set_number : Option ℤ → (ℤ → SearchRequest) → SearchRequest → Step
set_number none f sr = stopped (some sr)
set_number (some n) f sr = going (f n)

abbrev pub number_step : Option ℤ → (ℤ → Step) → SearchRequest → Step
number_step none next sr = stopped (some sr)
number_step (some n) next sr = next n

-- The tree of the request is the one that is made at the start.
abbrev pub or_tree : Option TreeQuery → TreeQuery
or_tree none = new_tree_query
or_tree (some tree) = tree

abbrev pub set_tree : (TreeQuery → TreeQuery) → SearchRequest → SearchRequest
set_tree f sr = record sr { tree = some (f (or_tree sr.tree)) }

abbrev pub with_filters : Outcome → (List QueryFilter → Step) → SearchRequest → Step
with_filters (none, filters) next sr = next filters
with_filters (some e, filters) next sr = stopped (some (record sr { query_filter = filters }))

-- The loop that adds the values of a filter parameter.
unfoldable pub add_filters :
    (Text → List QueryFilter → Outcome) → List Text → List QueryFilter → SearchRequest → Step
add_filters add [] filters sr = going (record sr { query_filter = filters })
add_filters add (v ∷ vs) filters sr =
    with_filters (add v filters) (λ fs. add_filters add vs fs sr) sr

unfoldable pub response_format : Text → ResponseFormatType → ResponseFormatType
response_format s old =
    if is_text s (codes "protobuf")
    then protobuf_response
    else if is_text s (codes "jsonld")
    then ldjson_response
    else if is_text s (codes "bulkaction")
    then bulkaction_response
    else old

unfoldable pub item_format : Text → ItemFormatType
item_format s =
    if is_text s (codes "fragmentGraph")
    then fragment_graph_items
    else if is_text s (codes "grouped")
    then grouped_items
    else if is_text s (codes "jsonld")
    then jsonld_items
    else if is_text s (codes "flat")
    then flat_items
    else if is_text s (codes "tree")
    then tree_items
    else summary_items

abbrev pub cap_size : ℤ → ℤ
cap_size size = if leb_ℤ size (pos 1000) then size else pos 1000

module _ (lib : Libraries) where
  unfoldable pub new_facet_field : Text → FacetMade
  new_facet_field field =
      if has_prefix field (b'{' ∷ [])
      then unmarshalled_facet (lib.unmarshal_facet field)
      else check_facet
          (record { field = field; name = field; size = lib.facet_size; type = terms_facet })

  abbrev pub facet_step : FacetMade → (Option FacetField → Step) → Step
  facet_step (facet ff) next = next (some ff)
  facet_step no_facet next = next none
  facet_step facet_error next = stopped none

  unfoldable pub add_facets : List Text → SearchRequest → Step
  add_facets [] sr = going sr
  add_facets (ff ∷ ffs) sr =
      facet_step (new_facet_field ff)
        (λ made. add_facets ffs (record sr { facet_field = sr.facet_field ++ made ∷ [] }))

  -- The loop over the page numbers.
  unfoldable pub add_pages : List Text → SearchRequest → Step
  add_pages [] sr = going (set_tree (λ tree. record tree { is_paging = true }) sr)
  add_pages (page ∷ pages) sr =
      number_step (lib.atoi page)
        (λ hint.
          add_pages pages
            (set_tree (λ tree. record tree { page = tree.page ++ wrap_int32 hint ∷ [] }) sr))
        sr

  abbrev pub set_after : Option (List ℕ) → SearchRequest → Step
  set_after none sr = stopped (some sr)
  set_after (some bytes) sr = going (record sr { search_after = bytes })

  -- `parts[1]` is out of range without a comma.
  abbrev pub search_after : Option (Text × Text) → SearchRequest → Step
  search_after none sr = index_panic
  search_after (some (key, level)) sr = set_after (lib.encode_after (lib.atoi_value key) level) sr
