-- ===== src/Facet.antt =====
-- ikuzo/search/facet.go: the shorthand of a facet. `atoi` stands for `strconv.Atoi`.
pub mod Laws
mod Tests
use hub.Prelude.{
  ℕ, Bool, true, false, Option, none, some, List, [], ◌∷◌, Text, codes, ℤ, pos, if◌then◌else◌,
  is_blank, has_prefix, has_suffix, trim_prefix, trim_suffix, contains, split,
}
use hub.Fragments.Filter.{is_text}

pub record FacetField : Type 0 where
  pub field : Text
  pub sort_asc : Bool
  pub path : Text
  pub nested_field : Text
  pub aggregation_type : Text
  pub size : ℤ
  pub order_by_key : Bool

pub data FacetError : Type 0 where
  empty_input not_a_number : FacetError

-- A facet or an error.
pub data Made : Type 0 where
  made : FacetField → Made
  refused : FacetError → Made

abbrev pub nested_path : Text
nested_path = codes "resources.entries"

-- `FacetField{path: nestedPath}`
abbrev pub new_facet : FacetField
new_facet = record {
  field = [];
  sort_asc = false;
  path = nested_path;
  nested_field = [];
  aggregation_type = [];
  size = pos 0;
  order_by_key = false;
}

-- The paths and the aggregation by the prefix of the field.
unfoldable pub set_paths : FacetField → FacetField
set_paths ff =
    if has_prefix ff.field (codes "meta.")
    then record ff { path = ff.field }
    else if has_prefix ff.field (codes "tree.")
    then record ff { path = ff.field }
    else if has_prefix ff.field (codes "id.")
    then record ff { nested_field = codes "@id"; field = trim_prefix ff.field (codes "id.") }
    else if has_prefix ff.field (codes "datehistogram.")
    then record ff {
      nested_field = codes "date";
      field = trim_prefix ff.field (codes "datehistogram.");
      aggregation_type = codes "datehistogram";
    }
    else if has_prefix ff.field (codes "dateminmax.")
    then record ff {
      nested_field = codes "date";
      field = trim_prefix ff.field (codes "dateminmax.");
      aggregation_type = codes "dateminmax";
    }
    else if has_prefix ff.field (codes "tag.")
    then record ff { nested_field = codes "tags"; field = trim_prefix ff.field (codes "tag.") }
    else if is_text ff.field (codes "tags")
    then record ff { nested_field = codes "tags" }
    else record ff { path = nested_path; nested_field = codes "@value" }

abbrev pub check_field : FacetField → Made
check_field ff = if is_blank ff.field then refused empty_input else made ff

module _ (atoi : Text → Option ℤ) where
  abbrev pub set_size : Option ℤ → FacetField → Made
  set_size none ff = refused not_a_number
  set_size (some n) ff = check_field (set_paths (record ff { size = n }))

  -- The parts of a field with a tilde: the size is read if there is one tilde and something behind it.
  unfoldable pub read_parts : List Text → FacetField → Made
  read_parts (field ∷ size ∷ []) ff =
      if is_blank size
      then check_field (set_paths (record ff { field = field }))
      else set_size (atoi size) (record ff { field = field })
  read_parts (field ∷ _) ff = check_field (set_paths (record ff { field = field }))
  read_parts [] ff = check_field (set_paths ff)

  unfoldable pub read_size : Text → FacetField → Made
  read_size field ff =
      if contains field (codes "~")
      then read_parts (split (b'~') field) ff
      else check_field (set_paths (record ff { field = field }))

  unfoldable pub read_key : Text → FacetField → Made
  read_key field ff =
      if has_suffix field (codes "@")
      then read_size (trim_suffix field (codes "@")) (record ff { order_by_key = true })
      else read_size field ff

  unfoldable pub new_facet_field : Text → Made
  new_facet_field field =
      if is_blank field
      then refused empty_input
      else if has_prefix field (codes "^")
      then read_key (trim_prefix field (codes "^")) (record new_facet { sort_asc = true })
      else read_key field new_facet
