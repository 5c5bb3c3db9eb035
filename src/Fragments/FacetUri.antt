-- ===== src/Fragments/FacetUri.antt =====
-- hub3/fragments/api.go: the links of facets. That the loop also sets the type of a tree filter is seen in
-- the type that it goes by.
pub mod Loop
pub mod Selected
mod Tests
use hub.Prelude.{
  ℕ, Bool, true, false, ◌&&◌, ◌||◌, not, Option, none, some, List, [], ◌∷◌, ◌++◌, Text, codes,
  text_discrete, if◌then◌else◌, is_blank, ltb, ◌==◌, has_prefix, has_suffix, trim_prefix, join, get,
  put, take, length, ◌-◌,
}
use hub.Fragments.Filter.{
  FilterType, text_type, id_type, exclude_type, exists_type, range_type, date_range_type,
  iso_date_type, tree_item_type, entry_tag_type, QueryFilter, is_text,
}

-- The filters by their labels and values.
abbrev pub FilterMap : Type 0
FilterMap = List (Text × List (Text × QueryFilter))

pub record FacetUriBuilder : Type 0 where
  pub query : Text
  pub filters : FilterMap

abbrev pub is_there {ℓ} : {A : Type ℓ} → Option A → Bool
is_there none = false
is_there (some _) = true

abbrev pub or_empty : Option (List (Text × QueryFilter)) → List (Text × QueryFilter)
or_empty none = []
or_empty (some child) = child

unfoldable pub has_query_filter : Text → Text → FilterMap → Bool
has_query_filter field value filters =
    is_there (get text_discrete value (or_empty (get text_discrete field filters)))

unfoldable pub add_filter : QueryFilter → FilterMap → FilterMap
add_filter f filters =
    put text_discrete f.search_label
      (put text_discrete f.value f (or_empty (get text_discrete f.search_label filters))) filters

unfoldable pub add_all : List QueryFilter → FilterMap → FilterMap
add_all [] filters = filters
add_all (f ∷ fs) filters = add_all fs (add_filter f filters)

unfoldable pub new_facet_uri_builder : Text → List QueryFilter → FacetUriBuilder
new_facet_uri_builder query filters = record { query = query; filters = add_all filters [] }

-- `a < b` for strings.
unfoldable pub text_less : Text → Text → Bool
text_less a [] = false
text_less [] (d ∷ b) = true
text_less (c ∷ a) (d ∷ b) = let rest = text_less a b in ltb c d || (c == d && rest)

module _ {ℓ} {A : Type ℓ} where
  -- The entries of a map in the order of their sorted keys.
  unfoldable pub sort_insert : Text × A → List (Text × A) → List (Text × A)
  sort_insert e [] = e ∷ []
  sort_insert e (d ∷ entries) =
      let rest = sort_insert e entries in if text_less d.0 e.0 then d ∷ rest else e ∷ d ∷ entries

  unfoldable pub sort_keys : List (Text × A) → List (Text × A)
  sort_keys [] = []
  sort_keys (e ∷ entries) = sort_insert e (sort_keys entries)

-- The parts of the link and the flag.
pub record Link : Type 0 where
  pub fields : List Text
  pub selected : Bool

abbrev pub tree_prefix : Text
tree_prefix = codes "tree."

-- `fmt.Sprintf("%s[]=%s:%s", …)`
abbrev pub field_text : Text → Text → Text → Text
field_text key f k = key ++ (codes "[]=" ++ (f ++ b':' ∷ k))

abbrev pub append_field : Text → Link → Link
append_field part link = record link { fields = link.fields ++ part ∷ [] }

abbrev pub link_type : Text → QueryFilter → FilterType
link_type f qf =
    if has_prefix f tree_prefix || has_prefix qf.search_label tree_prefix
    then tree_item_type
    else qf.type

module _ (field : Text) (value : Text) where
  -- The case of a tree filter, for the field without its prefix.
  abbrev pub tree_step : Text → Text → Link → Link
  tree_step f k link =
      if has_prefix field tree_prefix
        && is_text f (trim_prefix field tree_prefix)
        && is_text k value
      then record link { selected = true }
      else append_field (field_text (codes "qf.tree") f k) link

  -- The switch on the type: the field of the loop, which it may change, and the link.
  unfoldable pub type_step : FilterType → Text → Text → Link → Text × Link
  type_step exists_type f k link = (f, append_field (codes "qf.exist[]=" ++ f) link)
  type_step id_type f k link = (f, append_field (field_text (codes "qf.id") f k) link)
  type_step date_range_type f k link =
      (f, append_field (field_text (codes "qf.dateRange") f k) link)
  type_step iso_date_type f k link = (f, append_field (field_text (codes "qf.date") f k) link)
  type_step tree_item_type f k link =
      (trim_prefix f tree_prefix, tree_step (trim_prefix f tree_prefix) k link)
  type_step _ f k link = (f, append_field (field_text (codes "qf") f k) link)

  unfoldable pub value_step : Text → QueryFilter → Text → Link → Text × Link
  value_step k qf f link =
      if is_text f field && is_text k value
      then (f, record link { selected = true })
      else type_step (link_type f qf) f k link

  -- The loop over the values of a field.
  unfoldable pub values_loop : List (Text × QueryFilter) → Text → Link → Link
  values_loop [] f link = link
  values_loop ((k, qf) ∷ values) f link =
      let (f', link') = value_step k qf f link in values_loop values f' link'

  -- The loop over the fields.
  unfoldable pub filters_loop : FilterMap → Link → Link
  filters_loop [] link = link
  filters_loop ((f, values) ∷ filters) link =
      filters_loop filters (values_loop (sort_keys values) f link)

  -- `strings.TrimSuffix(field, ".id")` under its test.
  abbrev pub own_field : Text
  own_field =
      if has_suffix field (codes ".id")
      then field_text (codes "qf.id") (take (length field - 3) field) value
      else field_text (codes "qf") field value

  unfoldable pub create_facet_filter_uri : FacetUriBuilder → Text × Bool
  create_facet_filter_uri fub =
      let start : List Text = if is_blank fub.query then [] else (codes "q=" ++ fub.query) ∷ [] in
      let link =
        filters_loop (sort_keys fub.filters) (record { fields = start; selected = false }) in
      (
        join (if link.selected then link.fields else link.fields ++ own_field ∷ []) (codes "&"),
        link.selected,
      )
