-- ===== src/Facet/Laws.antt =====
-- ikuzo/search/facet.go: the shorthand with its modifiers.
use hub.Prelude.{
  Bool, true, ◌&&◌, not, Option, none, some, [], ◌∷◌, ◌++◌, Text, ℤ, pos, if◌then◌else◌, is_blank,
  ◌==◌,
}
use hub.Facet.{FacetField, new_facet}

-- No modifier stands in the text.
abbrev pub is_plain : Text → Bool
is_plain [] = true
is_plain (c ∷ s) = not (c == b'^') && not (c == b'@') && not (c == b'~') && is_plain s

-- The modifiers of a facet.
abbrev pub shorthand : Bool → Text → Text → Bool → Text
shorthand asc field size key =
    (if asc then b'^' ∷ [] else [])
    ++ (field ++ ((if is_blank size then [] else b'~' ∷ size) ++ (if key then b'@' ∷ [] else [])))

abbrev or_zero : Option ℤ → ℤ
or_zero none = pos 0
or_zero (some n) = n

-- A facet with its modifiers, before its field is read.
abbrev pub modified : Bool → Bool → Text → ℤ → FacetField
modified asc key field size = record new_facet {
  sort_asc = asc;
  order_by_key = key;
  field = field;
  size = size;
}

module _ (atoi : Text → Option ℤ) where
  -- The number of a size; without one it is 0.
  abbrev pub size_number : Text → Option ℤ
  size_number size = if is_blank size then some (pos 0) else atoi size

  abbrev size_text : Text → Text
  size_text size = if is_blank size then [] else b'~' ∷ size
