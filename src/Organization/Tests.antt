-- ===== src/Organization/Tests.antt =====
-- Runs of ikuzo/domain/organization.go, and the theorem at an input.
use hub.Prelude.{
  ℕ, ◌≡◌, refl, Bool, true, ◌&&◌, none, some, codes, text_discrete, ℕ_discrete, has, leb, [],
  if◌then◌else◌,
}
use hub.Organization.{
  valid, valid_runes, byte_length, rune_length, id_not_lowercase, id_exists, Organization,
  new_organization_store, service_put,
}
use hub.Organization.Laws.{IsValidStore, PutLeaves, service_put-IsValidStore}

valid_run : Unit {0}
unfolding valid valid_runes byte_length rune_length has text_discrete ℕ_discrete
valid_run = tt

abbrev ascii_lower : ℕ → Bool
ascii_lower r = leb 97 r && leb r 122

abbrev ascii_letter : ℕ → Bool
ascii_letter r = if ascii_lower r then true else leb 65 r && leb r 90

valid_test : valid ascii_lower ascii_letter (codes "brabant") ≡ none
unfolding valid_run
valid_test = refl

uppercase_test : valid ascii_lower ascii_letter (codes "Brabant") ≡ some id_not_lowercase
unfolding valid_run
uppercase_test = refl

protected_test : valid ascii_lower ascii_letter (codes "all") ≡ some id_exists
unfolding valid_run
protected_test = refl

abbrev org : Organization
org = record { id = codes "nl"; description = [] }

empty-IsValidStore : IsValidStore ascii_lower ascii_letter new_organization_store
unfolding new_organization_store
empty-IsValidStore = record { ids_once = tt; ids_valid = tt }

service_put-IsValidStore_example :
    IsValidStore ascii_lower ascii_letter
      (service_put ascii_lower ascii_letter new_organization_store org).0
    × ((service_put ascii_lower ascii_letter new_organization_store org).1
        ≡ valid ascii_lower ascii_letter org.id)
    × PutLeaves ascii_lower ascii_letter new_organization_store org
        (codes "nl")
        (service_put ascii_lower ascii_letter new_organization_store org).0
        (valid ascii_lower ascii_letter org.id)
service_put-IsValidStore_example =
    service_put-IsValidStore ascii_lower ascii_letter new_organization_store org (codes "nl")
      empty-IsValidStore
