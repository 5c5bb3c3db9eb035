-- ===== src/Prelude/Lists.antt =====
-- Lists counted by native numbers, and sets kept as lists without repetition. Go's maps are such
-- lists too: every theorem is about all lists, so about every order in which a `range` may run.
use Prim.Native.Nat.{ℕ, zero, suc, ◌+◌}
use mathlib.Core.Path.{◌≡◌, refl, subst}
use mathlib.Core.Bool.{Bool, true, false}
use mathlib.Core.Logic.{ite, if_pos, if_neg}
use mathlib.Core.List.{List, [], ◌∷◌, ◌++◌}
use native.Mathlib.Omega.{arith}

module _ {ℓ} {A : Type ℓ} where
  abbrev pub length : List A → ℕ
  length [] = 0
  length (x ∷ xs) = suc (length xs)

  pub length-append : (xs ys : List A) → length (xs ++ ys) ≡ length xs + length ys
  length-append [] ys = omega arith
  length-append (x ∷ xs) ys = omega (arith, length-append xs ys)

  -- `s[:n]`
  abbrev pub take : ℕ → List A → List A
  take zero xs = []
  take (suc n) [] = []
  take (suc n) (x ∷ xs) = x ∷ take n xs

  -- `s[n:]`
  abbrev pub drop : ℕ → List A → List A
  drop zero xs = xs
  drop (suc n) [] = []
  drop (suc n) (x ∷ xs) = drop n xs

  pub take-append-drop : (n : ℕ) (xs : List A) → take n xs ++ drop n xs ≡ xs
  take-append-drop zero xs = refl
  take-append-drop (suc n) [] = refl
  take-append-drop (suc n) (x ∷ xs) = rw (take-append-drop n xs) refl

module _ {K : Type 0} (dec : Discrete K) where
  -- `_, ok := m[k]` of a `map[K]bool`
  unfoldable pub has : K → List K → Bool
  has k [] = false
  has k (x ∷ xs) = ite (dec x k) true (has k xs)

  -- `m[k] = true`
  unfoldable pub insert : K → List K → List K
  insert k [] = k ∷ []
  insert k (x ∷ xs) = ite (dec x k) (x ∷ xs) (x ∷ insert k xs)

  abbrev pub Distinct : List K → Type 0
  Distinct [] = Unit
  Distinct (x ∷ xs) = (has x xs ≡ false) × Distinct xs

  pub has-insert : (j k : K) (xs : List K) → has j (insert k xs) ≡ ite (dec k j) true (has j xs)
  unfolding has insert
  has-insert j k [] = refl
  has-insert j k (x ∷ xs) = ground (arith, has-insert j k xs)

  pub insert-Distinct : (k : K) (xs : List K) → Distinct xs → Distinct (insert k xs)
  unfolding has insert
  insert-Distinct k [] d = (refl, tt)
  insert-Distinct k (x ∷ xs) d = ground (arith, has-insert x k xs, insert-Distinct k xs)

  pub length-insert_old : (k : K) (xs : List K) → has k xs ≡ true → length (insert k xs) ≡ length xs
  unfolding has insert
  length-insert_old k [] h = cc
  length-insert_old k (x ∷ xs) h = ground (arith, length-insert_old k xs)

  pub length-insert_new :
      (k : K) (xs : List K) → has k xs ≡ false → length (insert k xs) ≡ suc (length xs)
  unfolding has insert
  length-insert_new k [] h = refl
  length-insert_new k (x ∷ xs) h = ground (arith, length-insert_new k xs)

-- Every element has the property.
abbrev pub All {ℓ κ} : {A : Type ℓ} → (A → Type κ) → List A → Type κ
All P [] = Unit
All P (x ∷ xs) = P x × All P xs

pub All-append {ℓ κ} :
    {A : Type ℓ} (P : A → Type κ) (xs ys : List A) → All P xs → All P ys → All P (xs ++ ys)
All-append P [] ys hx hy = hy
All-append P (x ∷ xs) ys hx hy = (hx.0, All-append P xs ys hx.1 hy)

pub All-mono {ℓ κ μ} :
    {A : Type ℓ} (P : A → Type κ) (Q : A → Type μ) (xs : List A)
    → ((x : A) → P x → Q x)
    → All P xs
    → All Q xs
All-mono P Q [] f h = tt
All-mono P Q (x ∷ xs) f h = (f x h.0, All-mono P Q xs f h.1)

pub insert-All {κ} :
    {K : Type 0} (dec : Discrete K) (P : K → Type κ) (k : K) (xs : List K)
    → P k
    → All P xs
    → All P (insert dec k xs)
unfolding insert
insert-All dec P k [] pk h = (pk, tt)
insert-All dec P k (x ∷ xs) pk h = elim (dec x k) [
  | yes p ↦ rw (if_pos _ p) h
  | no p ↦ rw (if_neg _ p) (h.0, insert-All dec P k xs pk h.1)
]

pub has-All {κ} :
    {K : Type 0} (dec : Discrete K) (P : K → Type κ) (k : K) (xs : List K)
    → All P xs
    → has dec k xs ≡ true
    → P k
unfolding has
has-All dec P k [] h e = absurd (cc)
has-All dec P k (x ∷ xs) h e = elim (dec x k) [
  | yes p ↦ subst P p h.0
  | no p ↦ has-All dec P k xs h.1 (rw (if_neg _ p) at e)
]
