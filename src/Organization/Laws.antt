-- ===== src/Organization/Laws.antt =====
-- ikuzo/domain/organization.go: which identifiers are valid; the store.
use hub.Prelude.{
  ℕ, ◌≡◌, refl, Bool, true, false, ◌&&◌, not, Option, none, some, [], ◌∷◌, ite, Text, text_discrete,
  has, get-put, IsMap, put-IsMap, is_blank, leb, if◌then◌else◌, arith, All, put-All, Option-cases,
  inl, inr,
}
use hub.Organization.{
  IdError, max_length_id, protected, byte_length, Organization, valid_runes, valid,
  new_organization_id, OrganizationStore, get_organization, put_organization, service_put,
}

abbrev pub is_none : Option IdError → Bool
is_none none = true
is_none (some _) = false

module _ (is_lower : ℕ → Bool) (is_letter : ℕ → Bool) where
  -- Every character is a letter in lower case.
  abbrev pub all_lower : Text → Bool
  all_lower [] = true
  all_lower (r ∷ s) = (is_letter r && is_lower r) && all_lower s

  valid_runes-all_lower : (s : Text) → is_none (valid_runes is_lower is_letter s) ≡ all_lower s
  unfolding valid_runes
  valid_runes-all_lower [] = refl
  valid_runes-all_lower (r ∷ s) = ground (arith, valid_runes-all_lower s)

  -- The identifiers that are accepted.
  abbrev pub acceptable : Text → Bool
  acceptable id =
      not (is_blank id)
      && (leb (byte_length id) max_length_id
          && (not (has text_discrete id protected) && all_lower id))

  valid-acceptable : (id : Text) → is_none (valid is_lower is_letter id) ≡ acceptable id
  unfolding valid
  valid-acceptable id = ground (arith, valid_runes-all_lower id)

  -- `NewOrganizationID` returns its input exactly if that is at most ten bytes of letters in lower
  -- case, not empty and not protected; otherwise it returns the empty identifier and an error.
  new_organization_id_lem :
      (input : Text)
      → ((new_organization_id is_lower is_letter input).0
          ≡ (if acceptable input then input else []))
        × (is_none (new_organization_id is_lower is_letter input).1 ≡ acceptable input)
  unfolding new_organization_id
  new_organization_id_lem input = ground (arith, valid-acceptable input)

  -- Every organization stands under its own identifier, once, and that is valid.
  pub record IsValidStore (ms : OrganizationStore) : Type 0 where
    pub ids_once : IsMap text_discrete ms.organizations
    pub ids_valid :
        All (λ e. (e.1.id ≡ e.0) × (valid is_lower is_letter e.0 ≡ none)) ms.organizations

  -- What `Put` leaves behind: the store as it was beside an error; otherwise the organization is found
  -- under its identifier, and every other one as before.
  abbrev pub PutLeaves :
      OrganizationStore → Organization → Text → OrganizationStore → Option IdError → Type 0
  PutLeaves ms org i ms' (some e) = ms' ≡ ms
  PutLeaves ms org i ms' none =
      get_organization ms' i ≡ ite (text_discrete org.id i) (some org) (get_organization ms i)

  -- `Put` of the service returns the error of the identifier, if it is invalid, and leaves the store as
  -- it was then; otherwise the organization is found afterwards under its identifier, and what is found
  -- under any other one is as before. All organizations of the store stay valid.
  pub service_put-IsValidStore :
      (ms : OrganizationStore) (org : Organization) (i : Text)
      → IsValidStore ms
      → IsValidStore (service_put is_lower is_letter ms org).0
        × ((service_put is_lower is_letter ms org).1 ≡ valid is_lower is_letter org.id)
        × PutLeaves ms org i
            (service_put is_lower is_letter ms org).0
            (valid is_lower is_letter org.id)
  unfolding service_put put_organization get_organization
  service_put-IsValidStore ms org i v = elim (Option-cases (valid is_lower is_letter org.id)) [
    | inl ok ↦
        rw (ok, service_put)
          (
            record {
              ids_once = put-IsMap text_discrete org.id org ms.organizations v.ids_once;
              ids_valid =
                  put-All text_discrete
                    (λ e. (e.1.id ≡ e.0) × (valid is_lower is_letter e.0 ≡ none)) org.id org
                    ms.organizations (refl, ok) v.ids_valid;
            },
            refl,
            ground (arith, get-put text_discrete i org.id org ms.organizations),
          )
    | inr bad ↦ rw (bad.1, service_put) (v, refl, refl)
  ]
