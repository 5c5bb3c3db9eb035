-- ===== src/Namespace/Service/Laws.antt =====
-- ikuzo/service/x/namespace/service.go: what the lookups find behind `Add`.
use hub.Prelude.{
  ℕ, ◌≡◌, refl, Bool, true, false, ◌||◌, Option, none, some, [], ◌∷◌, ite, Text, text_discrete,
  ℕ_discrete, get, put, has, get-put, is_blank, arith, if◌then◌else◌, Option-cases, inl, inr,
  ite-intro, subst, sym, not, ◌∙◌,
}
use hub.Namespace.Entry.{NameSpace, add_prefix, prefixes, base_uris}
use hub.Namespace.Entry.Laws.{has-prefixes, has-base_uris, has-prefixes-add_prefix}
use hub.Namespace.Store.{NameSpaceStore, set, get_with_prefix, get_with_base}
use hub.Namespace.Store.Laws.{loses_prefix, loses_base, get_with_prefix-set, get_with_base-set}
use hub.Namespace.Service.{
  AddResult, added, finish, store_new, temporary_name_space, plain_name_space, load_found,
  add_by_base, add_by_prefix, add,
}

-- The store that `Set` works on, with the namespace at its pointer.
abbrev holding : ℕ → NameSpace → NameSpaceStore → NameSpaceStore
holding p ns ms = record ms { heap = put ℕ_discrete p ns ms.heap }

holds :
    (p : ℕ) (ns : NameSpace) (ms : NameSpaceStore)
    → get ℕ_discrete p (holding p ns ms).heap ≡ some ns
holds p ns ms = ground (arith, get-put ℕ_discrete p p ns ms.heap)

set-ok :
    (fresh : Text) (p : ℕ) (ns : NameSpace) (ms : NameSpaceStore)
    → get ℕ_discrete p ms.heap ≡ some ns
    → (set fresh p ms).1 ≡ none
unfolding set
set-ok fresh p ns ms e = ground (arith, e)

-- A result that leads a prefix to the namespace that it returns.
abbrev pub Resolves : Text → NameSpaceStore × AddResult → Type 0
Resolves prefix r = (q : ℕ) × (r.1 ≡ added q) × (get_with_prefix prefix r.0 ≡ some q)

finish-Resolves :
    (fresh prefix : Text) (p : ℕ) (ns : NameSpace) (ms : NameSpaceStore)
    → has text_discrete prefix (prefixes ns).1 ≡ true
    → loses_prefix ns prefix ≡ false
    → Resolves prefix (finish p (set fresh p (holding p ns ms)))
finish-Resolves fresh prefix p ns ms h k =
    let ok = set-ok fresh p ns (holding p ns ms) (holds p ns ms) in
    (
      p,
      ground (arith, ok),
      ground
          (arith, ok, h, get_with_prefix-set fresh prefix p ns (holding p ns ms) (holds p ns ms) k),
    )

load_found-some :
    (o : Option ℕ) (ms : NameSpaceStore) (found : ℕ × NameSpace)
    → load_found o ms ≡ some found
    → (o ≡ some found.0) × (get ℕ_discrete found.0 ms.heap ≡ some found.1)
unfolding load_found
load_found-some none ms found e = absurd (cc)
load_found-some (some q) ms found e = elim (Option-cases (get ℕ_discrete q ms.heap)) [
  | inl n ↦ absurd (ground (arith, n, e))
  | inr here ↦ ground (arith, here.1, e)
]

has-temporary :
    (fresh base prefix : Text)
    → has text_discrete prefix (prefixes (temporary_name_space fresh base (prefix ∷ []))).1 ≡ true
unfolding temporary_name_space has
has-temporary fresh base prefix =
    ground (arith, has-prefixes (temporary_name_space fresh base (prefix ∷ [])) prefix)

has-plain :
    (prefix base : Text)
    → has text_discrete prefix (prefixes (plain_name_space prefix base)).1 ≡ true
unfolding plain_name_space has
has-plain prefix base = ground (arith, has-prefixes (plain_name_space prefix base) prefix)

has-added :
    (grow : ℕ → ℕ) (ns : NameSpace) (prefix : Text)
    → has text_discrete prefix (prefixes (add_prefix grow ns prefix)).1 ≡ true
has-added grow ns prefix = ground (arith, has-prefixes-add_prefix grow ns prefix prefix)

-- `Set` loses nothing of a new namespace.
kept-plain : (prefix base : Text) → loses_prefix (plain_name_space prefix base) prefix ≡ false
unfolding plain_name_space
kept-plain prefix base = refl

kept-temporary :
    (fresh base prefix : Text)
    → loses_prefix (temporary_name_space fresh base (prefix ∷ [])) prefix ≡ false
unfolding temporary_name_space
kept-temporary fresh base prefix = refl

-- `AddPrefix` gives the namespace that has the base, if there is one, the prefix in a place that `Set`
-- does not lose: the namespace was temporary, the slice of its alternatives has no room then, or another
-- prefix comes behind.
abbrev pub keeps_added : (ℕ → ℕ) → Text → Option (ℕ × NameSpace) → Bool
keeps_added grow prefix none = true
keeps_added grow prefix (some found) = not (loses_prefix (add_prefix grow found.1 prefix) prefix)

not-true : (b : Bool) → not b ≡ true → b ≡ false
not-true b h = ground (arith, h)

module _ (grow : ℕ → ℕ) (fresh : Text) (p : ℕ) (prefix base : Text) (ms : NameSpaceStore) where
  abbrev base_found : Option (ℕ × NameSpace)
  base_found = load_found (get_with_base base ms) ms

  add_by_base-Resolves :
      keeps_added grow prefix base_found ≡ true
      → Resolves prefix (add_by_base grow fresh p prefix base ms)
  unfolding add_by_base store_new
  add_by_base-Resolves k = elim (Option-cases (load_found (get_with_base base ms) ms)) [
    | inl n ↦
        rw (n, add_by_base)
          (finish-Resolves fresh prefix p (plain_name_space prefix base) ms (has-plain prefix base)
            (kept-plain prefix base))
    | inr found ↦
        let kept : loses_prefix (add_prefix grow found.0.1 prefix) prefix ≡ false =
          not-true (loses_prefix (add_prefix grow found.0.1 prefix) prefix)
            (subst (λ o. keeps_added grow prefix o ≡ true) found.1 k) in
        rw (found.1, add_by_base)
          (finish-Resolves fresh prefix found.0.0 (add_prefix grow found.0.1 prefix) ms
            (has-added grow found.0.1 prefix) kept)
  ]

  add_by_prefix-Resolves :
      keeps_added grow prefix base_found ≡ true
      → Resolves prefix (add_by_prefix grow fresh p prefix base ms)
  unfolding add_by_prefix store_new
  add_by_prefix-Resolves k = elim (Option-cases (load_found (get_with_prefix prefix ms) ms)) [
    | inl n ↦ rw (n, add_by_prefix) (add_by_base-Resolves k)
    | inr found ↦
        let there = load_found-some (get_with_prefix prefix ms) ms found.0 found.1 in
        let ns = temporary_name_space fresh base (prefix ∷ []) in
        rw (found.1, add_by_prefix)
          (ite-intro (Resolves prefix) (text_discrete base found.0.1.base) (ms, added found.0.0)
            (store_new fresh p ns ms) (found.0.0, refl, there.0)
            (finish-Resolves fresh prefix p ns ms (has-temporary fresh base prefix)
              (kept-temporary fresh base prefix)))
  ]

  -- `Add` of a base and a prefix gives no error, and the prefix leads to the namespace that it
  -- returns, if the base is unknown, or `Set` does not lose the prefix that `AddPrefix` gives the
  -- namespace of the base.
  pub add-Resolves :
      is_blank base ≡ false
      → is_blank prefix ≡ false
      → keeps_added grow prefix (load_found (get_with_base base ms) ms) ≡ true
      → Resolves prefix (add grow fresh p prefix base ms)
  unfolding add
  add-Resolves hb hp k = rw (hb, hp, if◌then◌else◌) (add_by_prefix-Resolves k)

-- A result that leads a base to the namespace that it returns.
abbrev pub ResolvesBase : Text → NameSpaceStore × AddResult → Type 0
ResolvesBase base r = (q : ℕ) × (r.1 ≡ added q) × (get_with_base base r.0 ≡ some q)

has-plain_base :
    (prefix base : Text) (b : Bool)
    → (has text_discrete base (base_uris (plain_name_space prefix base)).1 || b) ≡ true
unfolding plain_name_space has
has-plain_base prefix base b = ground (arith, has-base_uris (plain_name_space prefix base) base)

-- The pointer is what the lookup found.
abbrev is_at : ℕ → Option ℕ → Bool
is_at p none = false
is_at p (some q) = ite (ℕ_discrete p q) true false

finish-ResolvesBase :
    (fresh base : Text) (p : ℕ) (ns : NameSpace) (ms : NameSpaceStore)
    → (has text_discrete base (base_uris ns).1 || is_at p (get_with_base base ms)) ≡ true
    → loses_base ns base ≡ false
    → ResolvesBase base (finish p (set fresh p (holding p ns ms)))
unfolding get_with_base
finish-ResolvesBase fresh base p ns ms h k =
    let ok = set-ok fresh p ns (holding p ns ms) (holds p ns ms) in
    (
      p,
      ground (arith, ok),
      ground (arith, ok, h, get_with_base-set fresh base p ns (holding p ns ms) (holds p ns ms) k),
    )

-- `Set` does not lose the base of the namespace that has it, if there is one.
abbrev pub keeps_base : Text → Option (ℕ × NameSpace) → Bool
keeps_base base none = true
keeps_base base (some found) = not (loses_base found.1 base)

loses_base-add_prefix :
    (grow : ℕ → ℕ) (ns : NameSpace) (prefix base : Text)
    → loses_base (add_prefix grow ns prefix) base ≡ loses_base ns base
unfolding add_prefix
loses_base-add_prefix grow ns prefix base = ground arith

kept-plain_base : (prefix base : Text) → loses_base (plain_name_space prefix base) base ≡ false
unfolding plain_name_space
kept-plain_base prefix base = refl

module _ (grow : ℕ → ℕ) (fresh : Text) (p : ℕ) (prefix base : Text) (ms : NameSpaceStore) where
  add_by_base-ResolvesBase :
      keeps_base base (load_found (get_with_base base ms) ms) ≡ true
      → ResolvesBase base (add_by_base grow fresh p prefix base ms)
  unfolding add_by_base store_new
  add_by_base-ResolvesBase k = elim (Option-cases (load_found (get_with_base base ms) ms)) [
    | inl n ↦
        rw (n, add_by_base)
          (finish-ResolvesBase fresh base p (plain_name_space prefix base) ms
            (has-plain_base prefix base (is_at p (get_with_base base ms)))
            (kept-plain_base prefix base))
    | inr found ↦
        let there = load_found-some (get_with_base base ms) ms found.0 found.1 in
        let kept : loses_base found.0.1 base ≡ false =
          not-true (loses_base found.0.1 base) (subst (λ o. keeps_base base o ≡ true) found.1 k) in
        rw (found.1, add_by_base)
          (finish-ResolvesBase fresh base found.0.0 (add_prefix grow found.0.1 prefix) ms
            (ground (arith, there.0)) (loses_base-add_prefix grow found.0.1 prefix base ∙ kept))
  ]

  add_by_prefix-new :
      get_with_prefix prefix ms ≡ none
      → add_by_prefix grow fresh p prefix base ms ≡ add_by_base grow fresh p prefix base ms
  unfolding add_by_prefix load_found
  add_by_prefix-new h = ground (arith, h)

  -- `Add` of a prefix that the store does not know leads the base, also one that it knows, to the
  -- namespace that it returns, if `Set` does not lose the base of the namespace that has it.
  pub add-ResolvesBase :
      is_blank base ≡ false
      → is_blank prefix ≡ false
      → get_with_prefix prefix ms ≡ none
      → keeps_base base (load_found (get_with_base base ms) ms) ≡ true
      → ResolvesBase base (add grow fresh p prefix base ms)
  unfolding add
  add-ResolvesBase hb hp h k =
      rw (hb, hp, if◌then◌else◌)
        (subst (ResolvesBase base) (sym (add_by_prefix-new h)) (add_by_base-ResolvesBase k))
