-- ===== src/Prelude/Maps.antt =====
-- Go's `map[K]V` as an association list with at most one entry for a key.
use mathlib.Core.Path.{◌≡◌, refl, subst}
use mathlib.Core.Bool.{true, false}
use mathlib.Core.Logic.{ite, if_pos, if_neg}
use mathlib.Core.Option.{Option, none, some}
use mathlib.Core.List.{List, [], ◌∷◌, map}
use native.Mathlib.Omega.{arith}
use hub.Prelude.Lists.{has, Distinct, All}

module _ {ℓ} {K : Type 0} {V : Type ℓ} (dec : Discrete K) where
  -- `v, ok := m[k]`
  unfoldable pub get : K → List (K × V) → Option V
  get k [] = none
  get k ((j, v) ∷ m) = ite (dec j k) (some v) (get k m)

  -- `m[k] = v`
  unfoldable pub put : K → V → List (K × V) → List (K × V)
  put k v [] = (k, v) ∷ []
  put k v ((j, w) ∷ m) = ite (dec j k) ((j, v) ∷ m) ((j, w) ∷ put k v m)

  -- `delete(m, k)`
  unfoldable pub delete : K → List (K × V) → List (K × V)
  delete k [] = []
  delete k ((j, w) ∷ m) = ite (dec j k) m ((j, w) ∷ delete k m)

  abbrev pub keys : List (K × V) → List K
  keys = map (λ e. e.0)

  abbrev pub IsMap : List (K × V) → Type 0
  IsMap m = Distinct dec (keys m)

  pub get-put :
      (j k : K) (v : V) (m : List (K × V)) → get j (put k v m) ≡ ite (dec k j) (some v) (get j m)
  unfolding get put
  get-put j k v [] = refl
  get-put j k v ((i, w) ∷ m) = ground (arith, get-put j k v m)

  pub has-put :
      (j k : K) (v : V) (m : List (K × V))
      → has dec j (keys (put k v m)) ≡ ite (dec k j) true (has dec j (keys m))
  unfolding put has
  has-put j k v [] = refl
  has-put j k v ((i, w) ∷ m) = ground (arith, has-put j k v m)

  pub put-IsMap : (k : K) (v : V) (m : List (K × V)) → IsMap m → IsMap (put k v m)
  unfolding put has
  put-IsMap k v [] h = (refl, tt)
  put-IsMap k v ((i, w) ∷ m) h = ground (arith, has-put i k v m, put-IsMap k v m)

  pub get_of_absent : (k : K) (m : List (K × V)) → has dec k (keys m) ≡ false → get k m ≡ none
  unfolding get has
  get_of_absent k [] h = refl
  get_of_absent k ((i, w) ∷ m) h = ground (arith, get_of_absent k m)

  pub has_of_get : (k : K) (m : List (K × V)) (v : V) → get k m ≡ some v → has dec k (keys m) ≡ true
  unfolding get has
  has_of_get k [] v h = absurd (cc)
  has_of_get k ((i, w) ∷ m) v h = ground (arith, has_of_get k m v)

  pub has-delete_ne :
      (j k : K) (m : List (K × V))
      → has dec j (keys m) ≡ false
      → has dec j (keys (delete k m)) ≡ false
  unfolding delete has
  has-delete_ne j k [] h = refl
  has-delete_ne j k ((i, w) ∷ m) h = ground (arith, has-delete_ne j k m)

  pub delete-IsMap : (k : K) (m : List (K × V)) → IsMap m → IsMap (delete k m)
  unfolding delete
  delete-IsMap k [] h = tt
  delete-IsMap k ((i, w) ∷ m) h = ground (arith, has-delete_ne i k m, delete-IsMap k m)

  pub get-delete :
      (j k : K) (m : List (K × V)) → IsMap m → get j (delete k m) ≡ ite (dec k j) none (get j m)
  unfolding get delete
  get-delete j k [] h = ground arith
  get-delete j k ((i, w) ∷ m) h = ground (arith, get-delete j k m, get_of_absent j m)

pub put-All {κ μ} :
    {K : Type 0} {V : Type κ} (dec : Discrete K) (P : K × V → Type μ) (k : K) (v : V)
    (m : List (K × V))
    → P (k, v)
    → All P m
    → All P (put dec k v m)
unfolding put
put-All dec P k v [] pk h = (pk, tt)
put-All dec P k v ((j, w) ∷ m) pk h = elim (dec j k) [
  | yes p ↦ rw (if_pos _ p) (rw p pk, h.1)
  | no p ↦ rw (if_neg _ p) (h.0, put-All dec P k v m pk h.1)
]

pub get-All {κ μ} :
    {K : Type 0} {V : Type κ} (dec : Discrete K) (P : K × V → Type μ) (k : K) (v : V)
    (m : List (K × V))
    → All P m
    → get dec k m ≡ some v
    → P (k, v)
unfolding get
get-All dec P k v [] h e = absurd (cc)
get-All dec P k v ((j, w) ∷ m) h e = elim (dec j k) [
  | yes p ↦
      let same : w ≡ v = ground arith in subst (λ i. P (i, v)) p (subst (λ x. P (j, x)) same h.0)
  | no p ↦ get-All dec P k v m h.1 (rw (if_neg _ p) at e)
]
