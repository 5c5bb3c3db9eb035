-- ===== src/Organization.antt =====
-- ikuzo/domain/organization.go and ikuzo/storage/memory/organization.go: identifiers of organizations
-- and their store; `Put` of ikuzo/service/organization/service.go. `is_lower` and `is_letter` stand for the functions of `unicode`.
pub mod Laws
mod Tests
use hub.Prelude.{
  ℕ, ◌+◌, Bool, true, false, ◌&&◌, not, Option, none, some, List, [], ◌∷◌, Text, codes,
  text_discrete, has, get, put, delete, is_blank, ltb, if◌then◌else◌, map,
}

pub data IdError : Type 0 where
  id_too_long id_not_lowercase id_invalid_character id_cannot_be_empty id_exists : IdError

abbrev pub max_length_id : ℕ
max_length_id = 10

abbrev pub protected : List Text
protected = codes "public" ∷ codes "all" ∷ []

-- The bytes of a code point in UTF-8, and `len` of a string.
unfoldable pub rune_length : ℕ → ℕ
rune_length r = if ltb r 128 then 1 else if ltb r 2048 then 2 else if ltb r 65536 then 3 else 4

unfoldable pub byte_length : Text → ℕ
byte_length [] = 0
byte_length (r ∷ s) = rune_length r + byte_length s

pub record Organization : Type 0 where
  pub id : Text
  pub description : Text

module _ (is_lower : ℕ → Bool) (is_letter : ℕ → Bool) where
  -- The loop over the characters.
  unfoldable pub valid_runes : Text → Option IdError
  valid_runes [] = none
  valid_runes (r ∷ s) =
      let rest = valid_runes s in
      if not (is_lower r) && is_letter r
      then some id_not_lowercase
      else if not (is_letter r)
      then some id_invalid_character
      else rest

  unfoldable pub valid : Text → Option IdError
  valid id =
      if is_blank id
      then some id_cannot_be_empty
      else if ltb max_length_id (byte_length id)
      then some id_too_long
      else if has text_discrete id protected
      then some id_exists
      else valid_runes id

  -- `NewOrganizationID`: the identifier, which is empty beside an error.
  unfoldable pub new_organization_id : Text → Text × Option IdError
  new_organization_id input = elim (valid input) [ some e ↦ ([], some e) | none ↦ (input, none) ]

pub record OrganizationStore : Type 0 where
  pub shutdown_called : Bool
  pub organizations : List (Text × Organization)

unfoldable pub new_organization_store : OrganizationStore
new_organization_store = record { shutdown_called = false; organizations = [] }

unfoldable pub delete_organization : OrganizationStore → Text → OrganizationStore
delete_organization ms id = record ms { organizations = delete text_discrete id ms.organizations }

-- `Get`; `none` is the error that the organization is not found.
unfoldable pub get_organization : OrganizationStore → Text → Option Organization
get_organization ms id = get text_discrete id ms.organizations

-- `Filter`, which does not look at its filters.
unfoldable pub filter : OrganizationStore → List Organization
filter ms = map (λ e. e.1) ms.organizations

unfoldable pub put_organization : OrganizationStore → Organization → OrganizationStore
put_organization ms org = record ms {
  organizations = put text_discrete org.id org ms.organizations;
}

unfoldable pub shutdown : OrganizationStore → OrganizationStore
shutdown ms = record ms { shutdown_called = true }

-- `Put` of ikuzo/service/organization/service.go.
unfoldable pub service_put :
    (ℕ → Bool) → (ℕ → Bool) → OrganizationStore → Organization → OrganizationStore × Option IdError
service_put is_lower is_letter ms org = elim (valid is_lower is_letter org.id) [
  | some e ↦ (ms, some e)
  | none ↦ (put_organization ms org, none)
]
