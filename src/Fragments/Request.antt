-- ===== src/Fragments/Request.antt =====
-- hub3/fragments/api.proto, by its Go in api.pb.go: a search request. Fields that no function of the
-- model reads or sets are left out.
pub mod Params
pub mod Keys
pub mod New
mod Tests
use hub.Prelude.{ℕ, Bool, true, false, Option, none, some, List, [], ◌∷◌, Text, ℤ, pos}
use hub.Fragments.Filter.{QueryFilter}

pub data ResponseFormatType : Type 0 where
  json_response protobuf_response ldjson_response bulkaction_response : ResponseFormatType

pub data ItemFormatType : Type 0 where
  summary_items fragment_graph_items grouped_items jsonld_items flat_items tree_items :
      ItemFormatType

pub data FacetType : Type 0 where
  terms_facet tree_facet tags_facet metatags_facet : FacetType

pub record FacetField : Type 0 where
  pub field : Text
  pub name : Text
  pub size : ℤ
  pub type : FacetType

pub record TreeQuery : Type 0 where
  pub leaf : Text
  pub parent : Text
  pub type : List Text
  pub depth : List Text
  pub fill_tree : Bool
  pub child_count : Text
  pub label : Text
  pub unit_id : Text
  pub cursor_hint : ℤ
  pub mime_type : List Text
  pub has_restriction : Bool
  pub has_digital_object : Bool
  pub page : List ℤ
  pub page_size : ℤ
  pub all_parents : Bool
  pub is_paging : Bool
  pub is_search : Bool
  pub page_mode : Text
  pub query : Text
  pub with_fields : Bool

pub record SearchRequest : Type 0 where
  pub query : Text
  pub response_format_type : ResponseFormatType
  pub response_size : ℤ
  pub start : ℤ
  pub page : ℤ
  pub query_filter : List QueryFilter
  pub facet_field : List (Option FacetField)
  pub facet_and_bool_type : Bool
  pub sort_by : Text
  pub search_after : List ℕ
  pub item_format : ItemFormatType
  pub paging : Bool
  pub collapse_on : Text
  pub collapse_size : ℤ
  pub collapse_sort : Text
  pub peek : Text
  pub sort_asc : Bool
  pub tree : Option TreeQuery
  pub calculated_total : ℤ
  pub session_id : Text

-- `&TreeQuery{PageSize: 250}`
abbrev pub new_tree_query : TreeQuery
new_tree_query = record {
  leaf = [];
  parent = [];
  type = [];
  depth = [];
  fill_tree = false;
  child_count = [];
  label = [];
  unit_id = [];
  cursor_hint = pos 0;
  mime_type = [];
  has_restriction = false;
  has_digital_object = false;
  page = [];
  page_size = pos 250;
  all_parents = false;
  is_paging = false;
  is_search = false;
  page_mode = [];
  query = [];
  with_fields = false;
}

-- `DefaultSearchRequest`, for what `ksuid` makes.
abbrev pub default_search_request : Text → SearchRequest
default_search_request id = record {
  query = [];
  response_format_type = json_response;
  response_size = pos 16;
  start = pos 0;
  page = pos 0;
  query_filter = [];
  facet_field = [];
  facet_and_bool_type = false;
  sort_by = [];
  search_after = [];
  item_format = summary_items;
  paging = false;
  collapse_on = [];
  collapse_size = pos 0;
  collapse_sort = [];
  peek = [];
  sort_asc = false;
  tree = none;
  calculated_total = pos 0;
  session_id = id;
}
