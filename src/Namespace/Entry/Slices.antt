-- ===== src/Namespace/Entry/Slices.antt =====
-- ikuzo/domain/namespace.go: the order of `Prefixes` and `BaseURIs`, and what sorting in the array of
-- the alternatives takes away.
use hub.Prelude.{
  ℕ, zero, suc, ◌≡◌, refl, Bool, true, false, ◌||◌, ◌&&◌, not, List, [], ◌∷◌, ◌++◌, ◌==◌,
  if◌then◌else◌, if-intro, Text, text_discrete, has, length, take, length-append, arith, All,
}
use hub.Namespace.Entry.{
  Slice, NameSpace, less, sort_insert, sort_slice, append_sort, prefixes, base_uris,
}
use hub.Namespace.Entry.Laws.{same, has-sort_slice, has-append_one}

less-asym : (s t : Text) → less s t ≡ true → less t s ≡ false
unfolding less
less-asym [] [] h = absurd (cc)
less-asym [] (d ∷ t) h = refl
less-asym (c ∷ s) [] h = absurd (cc)
less-asym (c ∷ s) (d ∷ t) h = ground (arith, less-asym s t)

-- No text comes before its predecessor.
pub sorted : List Text → Bool
sorted [] = true
sorted (s ∷ []) = true
sorted (s ∷ t ∷ ts) = not (less t s) && sorted (t ∷ ts)

sorted-sort_insert :
    (s : Text) (ts : List Text) → sorted ts ≡ true → sorted (sort_insert s ts) ≡ true
unfolding sort_insert sorted
sorted-sort_insert s [] h = refl
sorted-sort_insert s (t ∷ []) h = ground (arith, less-asym t s)
sorted-sort_insert s (t ∷ u ∷ ts) h =
    ground (arith, less-asym t s, less-asym u s, sorted-sort_insert s (u ∷ ts))

sorted-sort_slice : (ts : List Text) → sorted (sort_slice ts) ≡ true
unfolding sort_slice sorted
sorted-sort_slice [] = refl
sorted-sort_slice (t ∷ ts) = sorted-sort_insert t (sort_slice ts) (sorted-sort_slice ts)

-- `Prefixes` and `BaseURIs` come in order.
prefixes-sorted :
    (ns : NameSpace) → (sorted (prefixes ns).1 ≡ true) × (sorted (base_uris ns).1 ≡ true)
unfolding prefixes base_uris append_sort
prefixes-sorted ns = (
  sorted-sort_slice (ns.prefix_alt.items ++ ns.prefix ∷ []),
  sorted-sort_slice (ns.base_alt.items ++ ns.base ∷ []),
)

-- Some text comes behind the other.
abbrev pub any_behind : Text → List Text → Bool
any_behind t [] = false
any_behind t (u ∷ us) = less t u || any_behind t us

-- The text is lost where an array with room is sorted with its default one: it is an alternative, not
-- the default one, and none comes behind it.
abbrev pub loses : Slice → Text → Text → Bool
loses alt default t =
    not (alt.room == 0)
    && not (same default t)
    && has text_discrete t (append_sort alt default).1
    && not (any_behind t (append_sort alt default).1)

less-cotrans : (s t u : Text) → less u s ≡ true → less t s ≡ false → less u t ≡ true
unfolding less
less-cotrans [] t [] h k = absurd (cc)
less-cotrans [] t (e ∷ u) h k = absurd (cc)
less-cotrans (c ∷ s) [] u h k = absurd (cc)
less-cotrans (c ∷ s) (d ∷ t) [] h k = refl
less-cotrans (c ∷ s) (d ∷ t) (e ∷ u) h k = ground (arith, less-cotrans s t u)

-- Nothing in the list comes before the text.
abbrev NoneBefore : Text → List Text → Type 0
NoneBefore s ts = All (λ t. less t s ≡ false) ts

has-take :
    (t : Text) (n : ℕ) (ts : List Text)
    → has text_discrete t (take n ts) ≡ true
    → has text_discrete t ts ≡ true
unfolding has
has-take t zero ts h = absurd (cc)
has-take t (suc n) [] h = absurd (cc)
has-take t (suc n) (u ∷ ts) h = ground (arith, has-take t n ts)

NoneBefore-has :
    (s t : Text) (ts : List Text)
    → NoneBefore s ts
    → has text_discrete t ts ≡ true
    → less t s ≡ false
unfolding has
NoneBefore-has s t [] h k = absurd (cc)
NoneBefore-has s t (u ∷ ts) h k = ground (arith, h, NoneBefore-has s t ts)

NoneBefore-trans :
    (s t : Text) (ts : List Text) → less t s ≡ false → NoneBefore t ts → NoneBefore s ts
NoneBefore-trans s t [] h k = tt
NoneBefore-trans s t (u ∷ ts) h k =
    (ground (arith, less-cotrans s t u, h, k.0), NoneBefore-trans s t ts h k.1)

sort_insert-NoneBefore :
    (s t : Text) (ts : List Text)
    → less t s ≡ false
    → NoneBefore s ts
    → NoneBefore s (sort_insert t ts)
unfolding sort_insert
sort_insert-NoneBefore s t [] h k = (h, tt)
sort_insert-NoneBefore s t (u ∷ ts) h k = ground (arith, sort_insert-NoneBefore s t ts, h, k)

-- Nothing in the list comes before what stands in front of it.
abbrev Ordered : List Text → Type 0
Ordered [] = Unit
Ordered (t ∷ ts) = NoneBefore t ts × Ordered ts

sort_insert-Ordered : (t : Text) (ts : List Text) → Ordered ts → Ordered (sort_insert t ts)
unfolding sort_insert
sort_insert-Ordered t [] h = (tt, tt)
sort_insert-Ordered t (u ∷ ts) h =
    if-intro Ordered (less u t) (u ∷ sort_insert t ts) (t ∷ u ∷ ts)
      (λ lt. (sort_insert-NoneBefore u t ts (less-asym u t lt) h.0, sort_insert-Ordered t ts h.1))
      (λ ge. ((ge, NoneBefore-trans t u ts ge h.0), h))

sort_slice-Ordered : (ts : List Text) → Ordered (sort_slice ts)
unfolding sort_slice
sort_slice-Ordered [] = tt
sort_slice-Ordered (t ∷ ts) = sort_insert-Ordered t (sort_slice ts) (sort_slice-Ordered ts)

length-sort_insert : (t : Text) (ts : List Text) → length (sort_insert t ts) ≡ suc (length ts)
unfolding sort_insert
length-sort_insert t [] = refl
length-sort_insert t (u ∷ ts) = ground (arith, length-sort_insert t ts)

length-sort_slice : (ts : List Text) → length (sort_slice ts) ≡ length ts
unfolding sort_slice
length-sort_slice [] = refl
length-sort_slice (t ∷ ts) =
    omega (arith, length-sort_insert t (sort_slice ts), length-sort_slice ts)

-- All but the last of a sorted list hold a text with another one behind it.
has-take_all_but_last :
    (t : Text) (n : ℕ) (ts : List Text)
    → Ordered ts
    → length ts ≡ suc n
    → has text_discrete t ts ≡ true
    → any_behind t ts ≡ true
    → has text_discrete t (take n ts) ≡ true
unfolding has
has-take_all_but_last t n [] o l h b = absurd (cc)
has-take_all_but_last t zero (s ∷ []) o l h b = elim (text_discrete s t) [
  | yes p ↦ absurd (ground (arith, b, less-asym t t, p))
  | no np ↦ absurd (ground (arith, h, np))
]
has-take_all_but_last t (suc n) (s ∷ []) o l h b = absurd (omega (arith, l))
has-take_all_but_last t zero (s ∷ u ∷ ts) o l h b = absurd (omega (arith, l))
has-take_all_but_last t (suc n) (s ∷ u ∷ ts) o l h b = elim (text_discrete s t) [
  | yes p ↦ ground (arith, p)
  | no np ↦
      let later : has text_discrete t (u ∷ ts) ≡ true = ground (arith, h, np) in
      let rest =
        has-take_all_but_last t n (u ∷ ts) o.1 (omega (arith, l)) later
          (ground (arith, b, NoneBefore-has s t (u ∷ ts) o.0 later)) in
      ground (arith, np, rest)
]

has-append_sort :
    (t d : Text) (alt : Slice)
    → has text_discrete t (append_sort alt d).1 ≡ (has text_discrete t alt.items || same d t)
unfolding append_sort
has-append_sort t d alt =
    ground (arith, has-sort_slice t (alt.items ++ d ∷ []), has-append_one t d alt.items)

length-append_sort :
    (alt : Slice) (d : Text) → length (append_sort alt d).1 ≡ suc (length alt.items)
unfolding append_sort
length-append_sort alt d =
    omega (arith, length-sort_slice (alt.items ++ d ∷ []), length-append alt.items (d ∷ []))

append_sort-Ordered : (alt : Slice) (d : Text) → Ordered (append_sort alt d).1
unfolding append_sort
append_sort-Ordered alt d = sort_slice-Ordered (alt.items ++ d ∷ [])

items-append_sort :
    (alt : Slice) (d : Text)
    → (append_sort alt d).0.items
      ≡ (if alt.room == 0 then alt.items else take (length alt.items) (append_sort alt d).1)
unfolding append_sort
items-append_sort alt d = ground arith

-- What is not lost is there again when the array is sorted once more.
pub has-append_sort_again :
    (alt : Slice) (d t : Text)
    → loses alt d t ≡ false
    → has text_discrete t (append_sort (append_sort alt d).0 d).1
      ≡ has text_discrete t (append_sort alt d).1
has-append_sort_again alt d t h = ground (
  arith,
  h,
  has-append_sort t d (append_sort alt d).0,
  has-append_sort t d alt,
  items-append_sort alt d,
  has-take t (length alt.items) (append_sort alt d).1,
  has-take_all_but_last t (length alt.items) (append_sort alt d).1 (append_sort-Ordered alt d)
      (length-append_sort alt d),
)
