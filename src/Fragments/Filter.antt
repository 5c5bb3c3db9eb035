-- ===== src/Fragments/Filter.antt =====
-- hub3/fragments/api.go: the filters of a search request. `unmarshal` stands for `json.Unmarshal` into
-- a query filter.

pub mod Path
pub mod RoundTrip
use hub.Prelude.{
  ℕ, Bool, true, false, ◌||◌, ◌==◌, Option, none, some, List, [], ◌∷◌, ◌++◌, Text, codes, ite,
  text_discrete, if◌then◌else◌, has_prefix, trim_prefix, contains, replace_all, cut, fields_func,
}

pub data FilterType : Type 0 where
  text_type id_type exclude_type exists_type range_type date_range_type iso_date_type tree_item_type
        entry_tag_type :
      FilterType

pub record ContextQueryFilter : Type 0 where
  pub search_label : Text
  pub type_class : Text

pub record QueryFilter : Type 0 where
  pub level1 : Option ContextQueryFilter
  pub level2 : Option ContextQueryFilter
  pub search_label : Text
  pub type_class : Text
  pub value : Text
  pub exclude : Bool
  pub id : Bool
  pub exists : Bool
  pub type : FilterType
  pub lte : Text
  pub gte : Text

-- `&QueryFilter{}`
abbrev pub empty_filter : QueryFilter
empty_filter = record {
  level1 = none;
  level2 = none;
  search_label = [];
  type_class = [];
  value = [];
  exclude = false;
  id = false;
  exists = false;
  type = text_type;
  lte = [];
  gte = [];
}

pub data FilterError : Type 0 where
  unmarshal_error no_query_field no_range no_separator : FilterError

-- A filter or an error.
pub data Made : Type 0 where
  made : QueryFilter → Made
  refused : FilterError → Made

unfoldable pub qf_split : ℕ → Bool
qf_split r = r == b']' || r == b'['

abbrev pub is_text : Text → Text → Bool
is_text s t = ite (text_discrete s t) true false

unfoldable pub validate_type_class : Text → Text
validate_type_class tc = if is_text tc (codes "a") then [] else tc

abbrev pub context : Text → Text → Option ContextQueryFilter
context label tc = some (record { search_label = label; type_class = tc })

-- The switch on the number of parts.
unfoldable pub set_parts : List Text → QueryFilter → QueryFilter
set_parts (p0 ∷ []) qf = record qf { search_label = p0 }
set_parts (p0 ∷ p1 ∷ []) qf = record qf { search_label = p1; type_class = validate_type_class p0 }
set_parts (p0 ∷ p1 ∷ p2 ∷ []) qf = record qf {
  search_label = p2;
  type_class = validate_type_class p1;
  level2 = context p0 [];
}
set_parts (p0 ∷ p1 ∷ p2 ∷ p3 ∷ []) qf = record qf {
  search_label = p3;
  type_class = validate_type_class p2;
  level2 = context p1 (validate_type_class p0);
}
set_parts (p0 ∷ p1 ∷ p2 ∷ p3 ∷ p4 ∷ []) qf = record qf {
  search_label = p4;
  type_class = validate_type_class p3;
  level2 = context p2 (validate_type_class p1);
  level1 = context p0 [];
}
set_parts (p0 ∷ p1 ∷ p2 ∷ p3 ∷ p4 ∷ p5 ∷ []) qf = record qf {
  search_label = p5;
  type_class = validate_type_class p4;
  level2 = context p3 (validate_type_class p2);
  level1 = context p1 (validate_type_class p0);
}
set_parts _ qf = qf

-- What `SplitN` returns, and the rest of the function.
abbrev pub read_parts : Bool → Option (Text × Text) → Made
read_parts excluded none = refused no_query_field
read_parts excluded (some (path, value)) = made (
    set_parts (fields_func qf_split path)
      (record empty_filter { exclude = excluded; value = value }))

unfoldable pub read_filter : Bool → Text → Made
read_filter excluded filter =
    read_parts excluded
      (cut (b':') (replace_all filter (b'[' ∷ b']' ∷ []) (b'[' ∷ b'a' ∷ b']' ∷ [])))

abbrev pub unmarshalled : Option QueryFilter → Made
unmarshalled none = refused unmarshal_error
unmarshalled (some qf) = made qf

module _ (unmarshal : Text → Option QueryFilter) where
  unfoldable pub new_query_filter : Text → Made
  new_query_filter filter =
      if has_prefix filter (b'{' ∷ [])
      then unmarshalled (unmarshal filter)
      else if has_prefix filter (b'-' ∷ [])
      then read_filter true (trim_prefix filter (b'-' ∷ []))
      else read_filter false filter

-- `fmt.Sprintf("[%s]%s", …)`
abbrev pub bracketed : Text → Text → Text
bracketed tc label = b'[' ∷ tc ++ b']' ∷ label

abbrev pub level_text : Option ContextQueryFilter → Text
level_text none = []
level_text (some level) = bracketed level.type_class level.search_label

unfoldable pub as_string : QueryFilter → Text
as_string qf =
    level_text qf.level1
    ++ (level_text qf.level2 ++ (bracketed qf.type_class qf.search_label ++ b':' ∷ qf.value))

unfoldable pub equal : QueryFilter → QueryFilter → Bool
equal qf oqf = is_text (as_string qf) (as_string oqf)
