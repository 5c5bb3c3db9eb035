-- ===== src/Fragments/Pager/Window.antt =====
-- hub3/fragments/resource.go: the pages around those of a tree query.
use hub.Prelude.{
  ◌≡◌, refl, Bool, true, false, List, [], ◌∷◌, if◌then◌else◌, ℤ, pos, negsuc, ◌+ℤ◌, ◌-ℤ◌, ◌≤ℤ◌,
  leb_ℤ, wrap_int32, arith, All, if-intro, Bool-cases, inl, inr, ◌⊎◌, ◌≢◌, length, All-mono, ap,
  ◌∙◌,
}
use hub.Fragments.Request.{TreeQuery}
use hub.Fragments.Pager.{
  ltb_ℤ, sort_insert, sort_pages, max_min, page_window, previous_current_next_page,
}

abbrev higher : ℤ → ℤ → ℤ
higher max value = if ltb_ℤ max value then value else max

abbrev lower : ℤ → ℤ → ℤ
lower min value = if ltb_ℤ value min then value else min

higher_le : (max value : ℤ) → (max ≤ℤ higher max value) × (value ≤ℤ higher max value)
higher_le max value = ground arith

lower_le : (min value : ℤ) → (lower min value ≤ℤ min) × (lower min value ≤ℤ value)
lower_le min value = ground arith

max_min-grows :
    (pages : List ℤ) (max min : ℤ)
    → (max ≤ℤ (max_min pages max min).0) × ((max_min pages max min).1 ≤ℤ min)
unfolding max_min
max_min-grows [] max min = (omega arith, omega arith)
max_min-grows (value ∷ pages) max min =
    let rest = max_min-grows pages (higher max value) (lower min value) in
    (omega (arith, rest.0, (higher_le max value).0), omega (arith, rest.1, (lower_le min value).0))

-- The page lies from the least to the greatest.
abbrev Within : ℤ × ℤ → ℤ → Type 0
Within (max, min) p = (min ≤ℤ p) × (p ≤ℤ max)

max_min-Within : (pages : List ℤ) (max min : ℤ) → All (Within (max_min pages max min)) pages
unfolding max_min
max_min-Within [] max min = tt
max_min-Within (value ∷ pages) max min =
    let rest = max_min-grows pages (higher max value) (lower min value) in
    (
      (
        omega (arith, rest.1, (lower_le min value).1),
        omega (arith, rest.0, (higher_le max value).1),
      ),
      max_min-Within pages (higher max value) (lower min value),
    )

higher-along : (P : ℤ → Type 0) (max value : ℤ) → P max → P value → P (higher max value)
higher-along P max value h k = if-intro P (ltb_ℤ max value) value max (λ _. k) (λ _. h)

lower-along : (P : ℤ → Type 0) (min value : ℤ) → P min → P value → P (lower min value)
lower-along P min value h k = if-intro P (ltb_ℤ value min) value min (λ _. k) (λ _. h)

-- What all pages have, the greatest and the least have.
max_min-along :
    (P : ℤ → Type 0) (pages : List ℤ) (max min : ℤ)
    → All P pages
    → P max
    → P min
    → P (max_min pages max min).0 × P (max_min pages max min).1
unfolding max_min
max_min-along P [] max min h k l = (k, l)
max_min-along P (value ∷ pages) max min h k l =
    max_min-along P pages (higher max value) (lower min value) h.1 (higher-along P max value k h.0)
      (lower-along P min value l h.0)

sort_insert-All :
    (P : ℤ → Type 0) (p : ℤ) (pages : List ℤ) → P p → All P pages → All P (sort_insert p pages)
unfolding sort_insert
sort_insert-All P p [] h k = (h, tt)
sort_insert-All P p (q ∷ pages) h k =
    if-intro (All P) (leb_ℤ p q) (p ∷ q ∷ pages) (q ∷ sort_insert p pages) (λ _. (h, k))
      (λ _. (k.0, sort_insert-All P p pages h k.1))

All-sort_insert :
    (P : ℤ → Type 0) (p : ℤ) (pages : List ℤ) → All P (sort_insert p pages) → P p × All P pages
unfolding sort_insert
All-sort_insert P p [] h = h
All-sort_insert P p (q ∷ pages) h = elim (Bool-cases (leb_ℤ p q)) [
  | inl le ↦ rw (le) at h
  | inr gt ↦
      let t : All P (q ∷ sort_insert p pages) = rw (gt) at h in
      let rest = All-sort_insert P p pages t.1 in (rest.0, (t.0, rest.1))
]

sort_pages-All : (P : ℤ → Type 0) (pages : List ℤ) → All P pages → All P (sort_pages pages)
unfolding sort_pages
sort_pages-All P [] h = tt
sort_pages-All P (p ∷ pages) h =
    sort_insert-All P p (sort_pages pages) h.0 (sort_pages-All P pages h.1)

All-sort_pages : (P : ℤ → Type 0) (pages : List ℤ) → All P (sort_pages pages) → All P pages
unfolding sort_pages
All-sort_pages P [] h = tt
All-sort_pages P (p ∷ pages) h =
    let (now, rest) = All-sort_insert P p (sort_pages pages) h in (now, All-sort_pages P pages rest)

-- A page number whose neighbours are `int32` too.
abbrev pub InRange : ℤ → Type 0
InRange p = (negsuc 2147483646 ≤ℤ p) × (p ≤ℤ pos 2147483646)

wrap-pred : (p : ℤ) → InRange p → wrap_int32 (p -ℤ pos 1) ≡ p -ℤ pos 1
unfolding wrap_int32 ◌-ℤ◌
wrap-pred p h = ground arith

wrap-succ : (p : ℤ) → InRange p → wrap_int32 (p +ℤ pos 1) ≡ p +ℤ pos 1
unfolding wrap_int32 ◌+ℤ◌
wrap-succ p h = ground arith

pred-succ : (p : ℤ) → p -ℤ pos 1 +ℤ pos 1 ≡ p
unfolding ◌+ℤ◌ ◌-ℤ◌
pred-succ p = ground arith

succ-pred : (p : ℤ) → p +ℤ pos 1 -ℤ pos 1 ≡ p
unfolding ◌+ℤ◌ ◌-ℤ◌
succ-pred p = ground arith

abbrev pub IsIn : ℤ → List ℤ → Type 0
IsIn p [] = Path Bool true false
IsIn p (q ∷ pages) = (p ≡ q) ⊎ IsIn p pages

-- The window goes from the least page to the greatest; the one before it and the one behind it.
abbrev IsWindowOf : (ℤ → Type 0) → List ℤ → ℤ × ℤ × ℤ → Type 0
IsWindowOf P pages (prev, current, next) =
    All (λ p. (current ≤ℤ p) × (p ≤ℤ next -ℤ pos 1)) pages
    × P current
    × P (next -ℤ pos 1)
    × (prev +ℤ pos 1 ≡ current)

IsWindowOf-intro :
    (P : ℤ → Type 0) (pages : List ℤ) (max min prev next : ℤ)
    → next -ℤ pos 1 ≡ max
    → prev +ℤ pos 1 ≡ min
    → All (Within (max, min)) pages
    → P min
    → P max
    → IsWindowOf P pages (prev, min, next)
IsWindowOf-intro P pages max min prev next e f h k l = rw (e) (h, k, l, f)

page_window-IsWindowOf :
    (P : ℤ → Type 0) (p : ℤ) (pages : List ℤ)
    → All InRange (p ∷ pages)
    → All P (p ∷ pages)
    → IsWindowOf P (p ∷ pages) (page_window (p ∷ pages))
page_window-IsWindowOf P p pages h k =
    let r = max_min (p ∷ pages) p p in
    let range = max_min-along InRange (p ∷ pages) p p h h.0 h.0 in
    let found = max_min-along P (p ∷ pages) p p k k.0 k.0 in
    IsWindowOf-intro P (p ∷ pages) r.0 r.1 (wrap_int32 (r.1 -ℤ pos 1)) (wrap_int32 (r.0 +ℤ pos 1))
      (ap (λ x. x -ℤ pos 1) (wrap-succ r.0 range.0) ∙ succ-pred r.0)
      (ap (λ x. x +ℤ pos 1) (wrap-pred r.1 range.1) ∙ pred-succ r.1)
      (max_min-Within (p ∷ pages) p p) found.1 found.0

page_window-sorted :
    (P : ℤ → Type 0) (pages : List ℤ)
    → All InRange pages
    → All P pages
    → length pages ≢ 0
    → IsWindowOf P pages (page_window pages)
page_window-sorted P [] h k n = absurd (n refl)
page_window-sorted P (p ∷ pages) h k n = page_window-IsWindowOf P p pages h k

sort_insert-filled : (p : ℤ) (pages : List ℤ) → length (sort_insert p pages) ≢ 0
unfolding sort_insert
sort_insert-filled p [] = λ e. omega (arith, e)
sort_insert-filled p (q ∷ pages) = λ e. ground (arith, e)

All-IsIn : (pages : List ℤ) → All (λ q. IsIn q pages) pages
All-IsIn [] = tt
All-IsIn (p ∷ pages) = (
  inl refl,
  All-mono (λ q. IsIn q pages) (λ q. IsIn q (p ∷ pages)) pages (λ q h. inr h) (All-IsIn pages),
)

-- `PreviousCurrentNextPage` of a tree query with pages: the current page is the least of them, the page
-- before the next one is the greatest, all others lie between, and the previous page is the one before
-- the current. The page numbers have neighbours in `int32`.
pub previous_current_next_page_lem :
    (tq : TreeQuery) (p : ℤ) (pages : List ℤ)
    → tq.page ≡ p ∷ pages
    → All InRange (p ∷ pages)
    → (prev : ℤ) × (current : ℤ) × (next : ℤ) × (previous_current_next_page tq
        ≡ (prev, current, next))
      × All (λ q. (current ≤ℤ q) × (q ≤ℤ next -ℤ pos 1)) (p ∷ pages)
      × IsIn current (p ∷ pages)
      × IsIn (next -ℤ pos 1) (p ∷ pages)
      × (prev +ℤ pos 1 ≡ current)
unfolding previous_current_next_page
previous_current_next_page_lem tq p pages e h =
    let sorted = sort_pages (p ∷ pages) in
    let w = page_window sorted in
    let window =
      page_window-sorted (λ q. IsIn q (p ∷ pages)) sorted (sort_pages-All InRange (p ∷ pages) h)
        (sort_pages-All (λ q. IsIn q (p ∷ pages)) (p ∷ pages) (All-IsIn (p ∷ pages)))
        (unfold sort_pages in sort_insert-filled p (sort_pages pages)) in
    (
      w.0,
      w.1,
      w.2,
      ap (λ l. page_window (sort_pages l)) e,
      All-sort_pages (λ q. (w.1 ≤ℤ q) × (q ≤ℤ w.2 -ℤ pos 1)) (p ∷ pages) window.0,
      window.1,
      window.2,
      window.3,
    )
