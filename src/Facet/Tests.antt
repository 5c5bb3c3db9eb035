-- ===== src/Facet/Tests.antt =====
-- Shorthands of ikuzo/search/facet.go, and the theorem at an input that exercises the code.
use hub.Prelude.{
  ◌≡◌, refl, Option, none, some, Text, codes, text_discrete, ℕ_discrete, ℤ, pos, if◌then◌else◌,
  has_prefix, has_suffix, trim_prefix, trim_suffix, contains, split,
}
use hub.Fragments.Filter.{is_text}
use hub.Facet.{
  made, refused, empty_input, new_facet, set_paths, read_parts, read_size, read_key,
  new_facet_field,
}

facet_run : Unit {0}
unfolding text_discrete ℕ_discrete has_prefix has_suffix trim_prefix trim_suffix contains split
    set_paths read_parts read_size read_key new_facet_field
facet_run = tt

abbrev ten : Text → Option ℤ
ten s = if is_text s (codes "10") then some (pos 10) else none

-- A field that is nothing but modifiers is refused.
empty_test : new_facet_field ten (codes "^@") ≡ refused empty_input
unfolding facet_run
empty_test = refl

-- The size behind a second tilde is left out without an error.
two_sizes_test :
    new_facet_field ten (codes "a~10~10")
    ≡ made (record new_facet { field = codes "a"; nested_field = codes "@value" })
unfolding facet_run
two_sizes_test = refl

-- The sign for the key before the size stays in the field.
key_first_test :
    new_facet_field ten (codes "a@~10")
    ≡ made (record new_facet { field = codes "a@"; nested_field = codes "@value"; size = pos 10 })
unfolding facet_run
key_first_test = refl
