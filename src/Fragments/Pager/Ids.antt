-- ===== src/Fragments/Pager/Ids.antt =====
-- hub3/fragments/api.go: the scroll IDs of a pager.
use hub.Prelude.{
  ℕ, suc, ◌+◌, ◌-◌, ◌<◌, ◌≡◌, refl, Bool, true, not, ◌&&◌, Option, none, some, List, [], Text,
  if◌then◌else◌, leb, ltb, pos, ◌+ℤ◌, ◌-ℤ◌, leb_ℤ, wrap_int32, arith, ap, Bool-cases, inl, inr,
  sub_ℕ,
}
use hub.Fragments.Request.{TreeQuery, SearchRequest}
use hub.Fragments.Pager.{
  ScrollType, set_page, scroll_next, scroll_prev, ltb_ℤ, is_zero, paged, set_start, deep_copy,
  search_request_to_hex, new_search_request_scroll_page, pagers, id_if, scroll_pagers,
}

-- A request for so many hits from a start on, and whether it comes from a scroll ID.
abbrev pub at_start : SearchRequest → ℕ → Bool → ℕ → SearchRequest
at_start base size p k = record base { start = pos k; response_size = pos size; paging = p }

-- The pages of the tree are not those that the pager turns.
abbrev pub turns_hits : Option TreeQuery → Bool
turns_hits none = true
turns_hits (some tq) = not (tq.is_paging && not tq.is_search)

set_page-turns_hits :
    (position : ScrollType) (tree copied : Option TreeQuery) (copy : SearchRequest)
    → turns_hits copied ≡ true
    → set_page position tree copied copy ≡ paged copy
unfolding set_page
set_page-turns_hits position tree none copy h = refl
set_page-turns_hits position tree (some tq) copy h = ground (arith, h)

wrap-sum : (k s : ℕ) → k + s < 2147483648 → wrap_int32 (pos k +ℤ pos s) ≡ pos (k + s)
unfolding wrap_int32 ◌+ℤ◌
wrap-sum k s h = ground arith

wrap-difference : (k s : ℕ) → k + s < 2147483648 → wrap_int32 (pos k -ℤ pos s) ≡ sub_ℕ k s
unfolding wrap_int32 ◌-ℤ◌
wrap-difference k s h = ground arith

ltb_ℤ-pos : (a b : ℕ) → ltb_ℤ (pos a) (pos b) ≡ ltb a b
ltb_ℤ-pos a b = ground arith

leb_ℤ-difference : (k s : ℕ) → leb_ℤ (pos 0) (sub_ℕ k s) ≡ leb s k
leb_ℤ-difference k s = ground arith

module _ (encode : SearchRequest → List ℕ) (unmarshal : List ℕ → Option SearchRequest)
    (to_hex : List ℕ → Text) (base : SearchRequest) (size : ℕ) (p : Bool)
    (decodes : (k : ℕ)
      → k < 2147483648
      → unmarshal (encode (at_start base size p k)) ≡ some (at_start base size p k))
    (turns : turns_hits base.tree ≡ true) where
  abbrev marshal : SearchRequest → Option (List ℕ)
  marshal sr = some (encode sr)

  abbrev request : ℕ → SearchRequest
  request k = at_start base size p k

  -- The scroll ID of a page.
  abbrev pub scroll_id : ℕ → Text
  scroll_id k = to_hex (encode (at_start base size p k))

  start-next :
      (k : ℕ) → k + size < 2147483648 → set_start scroll_next (request k) ≡ request (k + size)
  unfolding set_start
  start-next k h = ap (λ z. record (request k) { start = z }) (wrap-sum k size h)

  start-prev :
      (k : ℕ)
      → k + size < 2147483648
      → set_start scroll_prev (request k) ≡ record (request k) { start = sub_ℕ k size }
  unfolding set_start
  start-prev k h = ap (λ z. record (request k) { start = z }) (wrap-difference k size h)

  page-next :
      (k t : ℕ)
      → k + size < 2147483648
      → new_search_request_scroll_page marshal unmarshal to_hex scroll_next
          (request k)
          (pos (suc t))
        ≡ paged (request (k + size))
  unfolding new_search_request_scroll_page deep_copy
  page-next k t h =
      rw (decodes k (omega (arith, h)), start-next k h)
        (set_page-turns_hits scroll_next base.tree base.tree (request (k + size)) turns)

  page-prev :
      (k t : ℕ)
      → k + size < 2147483648
      → new_search_request_scroll_page marshal unmarshal to_hex scroll_prev
          (request k)
          (pos (suc t))
        ≡ paged (record (request k) { start = sub_ℕ k size })
  unfolding new_search_request_scroll_page deep_copy
  page-prev k t h =
      rw (decodes k (omega (arith, h)), start-prev k h)
        (set_page-turns_hits scroll_prev base.tree base.tree
          (record (request k) { start = sub_ℕ k size }) turns)

  next-id :
      (k t : ℕ)
      → id_if marshal unmarshal to_hex (ltb_ℤ (pos k) (pos t)) (request k)
        ≡ some (if ltb k t then scroll_id k else [])
  unfolding search_request_to_hex
  next-id k t = ground (arith, ltb_ℤ-pos k t)

  prev-id :
      (k : ℕ)
      → id_if marshal unmarshal to_hex
          (leb_ℤ (pos 0) (sub_ℕ k size))
          (record (request k) { start = sub_ℕ k size })
        ≡ some (if leb size k then scroll_id (k - size) else [])
  unfolding search_request_to_hex
  prev-id k = elim (Bool-cases (leb size k)) [
    | inl le ↦ rw (leb_ℤ-difference k size, le) refl
    | inr gt ↦ rw (leb_ℤ-difference k size, gt) refl
  ]

  -- `ScrollPagers` of a request whose tree is not paged, for some hits and a start whose next page is in `int32`:
  -- the next scroll ID is that of the next start, if it is below the total, and the previous one that of
  -- the previous start, if there is one; otherwise it is empty.
  pub scroll_pagers_lem :
      (k t : ℕ)
      → k + size < 2147483648
      → scroll_pagers marshal unmarshal to_hex (request k) (pos (suc t))
        ≡ pagers (record {
          previous_scroll_id = if leb size k then scroll_id (k - size) else [];
          next_scroll_id = if ltb (k + size) (suc t) then scroll_id (k + size) else [];
          cursor = pos k;
          rows = pos size;
          total = if is_zero base.calculated_total then pos (suc t) else base.calculated_total;
        })
  unfolding scroll_pagers
  scroll_pagers_lem k t h =
      rw (page-next k t h, page-prev k t h, next-id (k + size) (suc t), prev-id k) refl
