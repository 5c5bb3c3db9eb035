-- ===== src/Fragments/Pager.antt =====
-- hub3/fragments/api.go and resource.go: the pages of a search. `marshal` and `unmarshal` stand for those
-- of protobuf, `to_hex` for the verb `%x` of fmt.
pub mod Ids
pub mod Walk
pub mod Window
mod Tests
use hub.Prelude.{
  ℕ, zero, suc, ◌+◌, ◌-◌, Bool, true, false, ◌&&◌, not, Option, none, some, List, [], ◌∷◌, Text,
  if◌then◌else◌, leb, ltb, ◌==◌, ℤ, pos, negsuc, ◌+ℤ◌, ◌-ℤ◌, leb_ℤ, wrap_int32, is_blank,
}
use hub.Fragments.Request.{TreeQuery, SearchRequest}

pub record ScrollPager : Type 0 where
  pub previous_scroll_id : Text
  pub next_scroll_id : Text
  pub cursor : ℤ
  pub rows : ℤ
  pub total : ℤ

pub data ScrollType : Type 0 where
  scroll_next scroll_prev : ScrollType

-- `a < b`
abbrev pub ltb_ℤ : ℤ → ℤ → Bool
ltb_ℤ a b = not (leb_ℤ b a)

abbrev pub is_zero : ℤ → Bool
is_zero (pos zero) = true
is_zero _ = false

-- `sort.Slice` of the pages.
unfoldable pub sort_insert : ℤ → List ℤ → List ℤ
sort_insert p [] = p ∷ []
sort_insert p (q ∷ pages) =
    let rest = sort_insert p pages in if leb_ℤ p q then p ∷ q ∷ pages else q ∷ rest

unfoldable pub sort_pages : List ℤ → List ℤ
sort_pages [] = []
sort_pages (p ∷ pages) = sort_insert p (sort_pages pages)

-- The loop for `max` and `min`.
unfoldable pub max_min : List ℤ → ℤ → ℤ → ℤ × ℤ
max_min [] max min = (max, min)
max_min (value ∷ pages) max min =
    max_min pages (if ltb_ℤ max value then value else max) (if ltb_ℤ value min then value else min)

abbrev pub page_window : List ℤ → ℤ × ℤ × ℤ
page_window [] = (pos 0, pos 1, pos 2)
page_window (p ∷ pages) =
    let (max, min) = max_min (p ∷ pages) p p in
    (wrap_int32 (min -ℤ pos 1), min, wrap_int32 (max +ℤ pos 1))

unfoldable pub previous_current_next_page : TreeQuery → ℤ × ℤ × ℤ
previous_current_next_page tq = page_window (sort_pages tq.page)

-- A request, an error, or a use of a nil pointer.
pub data Paged : Type 0 where
  paged : SearchRequest → Paged
  failed : Paged
  nil_pointer : Paged

abbrev pub page_of : ScrollType → ℤ × ℤ × ℤ → ℤ
page_of scroll_next (prev, current, next) = next
page_of scroll_prev (prev, current, next) = prev

unfoldable pub set_start : ScrollType → SearchRequest → SearchRequest
set_start scroll_next sr = record sr { start = wrap_int32 (sr.start +ℤ sr.response_size) }
set_start scroll_prev sr = record sr { start = wrap_int32 (sr.start -ℤ sr.response_size) }

-- The page of the tree, read from the request and written to its copy.
unfoldable pub set_page : ScrollType → Option TreeQuery → Option TreeQuery → SearchRequest → Paged
set_page position tree none copy = paged copy
set_page position tree (some tq) copy =
    if tq.is_paging && not tq.is_search
    then elim tree [
      | none ↦ nil_pointer
      | some own ↦ paged (record copy {
        tree = some (record tq { page = page_of position (previous_current_next_page own) ∷ [] });
      })
    ]
    else paged copy

-- A pager, an error, or a use of a nil pointer.
pub data Pagers : Type 0 where
  pagers : ScrollPager → Pagers
  no_pagers : Pagers
  panic : Pagers

abbrev pub set_ids : Option Text → Option Text → ScrollPager → Pagers
set_ids (some next) (some prev) sp =
    pagers (record sp { next_scroll_id = next; previous_scroll_id = prev })
set_ids _ _ sp = no_pagers

module _ (marshal : SearchRequest → Option (List ℕ)) (unmarshal : List ℕ → Option SearchRequest)
    (to_hex : List ℕ → Text) where
  unfoldable pub deep_copy : SearchRequest → Option SearchRequest
  deep_copy sr = elim (marshal sr) [ none ↦ none | some output ↦ unmarshal output ]

  unfoldable pub search_request_to_hex : SearchRequest → Option Text
  search_request_to_hex sr = elim (marshal sr) [ none ↦ none | some output ↦ some (to_hex output) ]

  abbrev pub page_copy : ScrollType → SearchRequest → ℤ → Option SearchRequest → Paged
  page_copy position sr total none = failed
  page_copy position sr total (some copy) =
      if is_zero total
      then paged sr
      else set_page position sr.tree copy.tree (set_start position copy)

  unfoldable pub new_search_request_scroll_page : ScrollType → SearchRequest → ℤ → Paged
  new_search_request_scroll_page position sr total = page_copy position sr total (deep_copy sr)

  abbrev pub id_if : Bool → SearchRequest → Option Text
  id_if b sr = if b then search_request_to_hex sr else some []

  abbrev pub pagers_of : Paged → Paged → ℤ → ScrollPager → Pagers
  pagers_of (paged prev) (paged next) total sp =
      set_ids (id_if (ltb_ℤ next.start total) next) (id_if (leb_ℤ (pos 0) prev.start) prev) sp
  pagers_of nil_pointer _ total sp = panic
  pagers_of failed _ total sp = no_pagers
  pagers_of (paged prev) nil_pointer total sp = panic
  pagers_of (paged prev) failed total sp = no_pagers

  unfoldable pub scroll_pagers : SearchRequest → ℤ → Pagers
  scroll_pagers sr total =
      pagers_of (new_search_request_scroll_page scroll_prev sr total)
        (new_search_request_scroll_page scroll_next sr total) total
        (record {
          previous_scroll_id = [];
          next_scroll_id = [];
          cursor = sr.start;
          rows = sr.response_size;
          total = if is_zero sr.calculated_total then total else sr.calculated_total;
        })

-- `SearchRequestFromHex`; `from_hex` stands for `hex.DecodeString`.
unfoldable pub search_request_from_hex :
    (Text → Option (List ℕ)) → (List ℕ → Option SearchRequest) → Text → Option SearchRequest
search_request_from_hex from_hex unmarshal s = elim (from_hex s) [
  | none ↦ none
  | some decoded ↦ unmarshal decoded
]
