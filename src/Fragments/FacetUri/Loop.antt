-- ===== src/Fragments/FacetUri/Loop.antt =====
-- hub3/fragments/api.go: the loops over the filters of a link.
use hub.Prelude.{
  ◌≡◌, refl, Bool, true, false, ◌&&◌, ◌||◌, not, List, [], ◌∷◌, Text, has_prefix, trim_prefix,
  arith,
}
use hub.Fragments.Filter.{
  FilterType, text_type, id_type, exclude_type, exists_type, range_type, date_range_type,
  iso_date_type, tree_item_type, entry_tag_type, QueryFilter, is_text,
}
use hub.Fragments.FacetUri.{
  FilterMap, sort_insert, sort_keys, Link, tree_prefix, link_type, type_step, value_step,
  values_loop, filters_loop,
}

abbrev pub any_key : Text → List (Text × QueryFilter) → Bool
any_key value [] = false
any_key value ((k, qf) ∷ values) = is_text k value || any_key value values

abbrev pub any_filter : Text → Text → FilterMap → Bool
any_filter field value [] = false
any_filter field value ((f, values) ∷ filters) =
    (is_text f field && any_key value values) || any_filter field value filters

abbrev pub no_tree_keys : FilterMap → Bool
no_tree_keys [] = true
no_tree_keys ((f, values) ∷ filters) = not (has_prefix f tree_prefix) && no_tree_keys filters

any_key-sort_insert :
    (value : Text) (e : Text × QueryFilter) (values : List (Text × QueryFilter))
    → any_key value (sort_insert e values) ≡ (is_text e.0 value || any_key value values)
unfolding sort_insert
any_key-sort_insert value e [] = refl
any_key-sort_insert value e (d ∷ values) = ground (arith, any_key-sort_insert value e values)

any_key-sort_keys :
    (value : Text) (values : List (Text × QueryFilter))
    → any_key value (sort_keys values) ≡ any_key value values
unfolding sort_keys
any_key-sort_keys value [] = refl
any_key-sort_keys value (e ∷ values) =
    ground (arith, any_key-sort_insert value e (sort_keys values), any_key-sort_keys value values)

any_filter-sort_insert :
    (field value : Text) (e : Text × List (Text × QueryFilter)) (filters : FilterMap)
    → any_filter field value (sort_insert e filters) ≡ any_filter field value (e ∷ filters)
unfolding sort_insert
any_filter-sort_insert field value e [] = refl
any_filter-sort_insert field value e (d ∷ filters) =
    ground (arith, any_filter-sort_insert field value e filters)

pub any_filter-sort_keys :
    (field value : Text) (filters : FilterMap)
    → any_filter field value (sort_keys filters) ≡ any_filter field value filters
unfolding sort_keys
any_filter-sort_keys field value [] = refl
any_filter-sort_keys field value (e ∷ filters) = ground (
  arith,
  any_filter-sort_insert field value e (sort_keys filters),
  any_filter-sort_keys field value filters,
)

no_tree-sort_insert :
    (e : Text × List (Text × QueryFilter)) (filters : FilterMap)
    → no_tree_keys (sort_insert e filters) ≡ no_tree_keys (e ∷ filters)
unfolding sort_insert
no_tree-sort_insert e [] = refl
no_tree-sort_insert e (d ∷ filters) = ground (arith, no_tree-sort_insert e filters)

pub no_tree-sort_keys :
    (filters : FilterMap) → no_tree_keys (sort_keys filters) ≡ no_tree_keys filters
unfolding sort_keys
no_tree-sort_keys [] = refl
no_tree-sort_keys (e ∷ filters) =
    ground (arith, no_tree-sort_insert e (sort_keys filters), no_tree-sort_keys filters)

trim_prefix-absent : (s prefix : Text) → has_prefix s prefix ≡ false → trim_prefix s prefix ≡ s
unfolding trim_prefix
trim_prefix-absent s prefix h = rw (h) refl

module _ (field value : Text) (plain : has_prefix field tree_prefix ≡ false) where
  -- The switch keeps the field and the flag.
  type_step-keeps :
      (t : FilterType) (f k : Text) (link : Link)
      → has_prefix f tree_prefix ≡ false
      → ((type_step field value t f k link).0 ≡ f)
        × ((type_step field value t f k link).1.selected ≡ link.selected)
  unfolding type_step
  type_step-keeps text_type f k link h = (refl, refl)
  type_step-keeps id_type f k link h = (refl, refl)
  type_step-keeps exclude_type f k link h = (refl, refl)
  type_step-keeps exists_type f k link h = (refl, refl)
  type_step-keeps range_type f k link h = (refl, refl)
  type_step-keeps date_range_type f k link h = (refl, refl)
  type_step-keeps iso_date_type f k link h = (refl, refl)
  type_step-keeps entry_tag_type f k link h = (refl, refl)
  type_step-keeps tree_item_type f k link h = (trim_prefix-absent f tree_prefix h, rw (plain) refl)

  value_step-selected :
      (k : Text) (qf : QueryFilter) (f : Text) (link : Link)
      → has_prefix f tree_prefix ≡ false
      → ((value_step field value k qf f link).0 ≡ f)
        × ((value_step field value k qf f link).1.selected
            ≡ (link.selected || (is_text f field && is_text k value)))
  unfolding value_step
  value_step-selected k qf f link h =
      let step = type_step-keeps (link_type f qf) f k link h in ground (arith, step.0, step.1)

  values_loop-selected :
      (values : List (Text × QueryFilter)) (f g : Text) (link : Link)
      → g ≡ f
      → has_prefix f tree_prefix ≡ false
      → (values_loop field value values g link).selected
        ≡ (link.selected || (is_text f field && any_key value values))
  unfolding values_loop
  values_loop-selected [] f g link e h = ground arith
  values_loop-selected ((k, qf) ∷ values) f g link e h = rw (e) (
      let step = value_step-selected k qf f link h in
      let rest =
        values_loop-selected values f (value_step field value k qf f link).0
          (value_step field value k qf f link).1 step.0 h in
      ground (arith, step.1, rest))

  pub filters_loop-selected :
      (filters : FilterMap) (link : Link)
      → no_tree_keys filters ≡ true
      → (filters_loop field value filters link).selected
        ≡ (link.selected || any_filter field value filters)
  unfolding filters_loop
  filters_loop-selected [] link h = ground arith
  filters_loop-selected ((f, values) ∷ filters) link h = ground (
    arith,
    values_loop-selected (sort_keys values) f f link refl (ground arith),
    any_key-sort_keys value values,
    filters_loop-selected filters (values_loop field value (sort_keys values) f link)
        (ground arith),
  )
