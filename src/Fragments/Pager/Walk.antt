-- ===== src/Fragments/Pager/Walk.antt =====
-- hub3/fragments/api.go: a client that follows the scroll IDs.
use hub.Prelude.{
  ℕ, zero, suc, ◌+◌, ◌<◌, ◌≡◌, Bool, true, false, ◌&&◌, Option, none, some, List, [], ◌∷◌, Text,
  if◌then◌else◌, leb, ltb, ℤ, pos, negsuc, is_blank,
}
use hub.Fragments.Request.{SearchRequest}
use hub.Fragments.Request.Params.{Libraries, Step, going}
use hub.Fragments.Request.New.{new_search_request}
use hub.Fragments.Request.New.Scroll.{scroll_params, reading}
use hub.Fragments.Pager.{Pagers, pagers, scroll_pagers}
use hub.Fragments.Pager.Ids.{at_start, turns_hits}

abbrev pub made_request : Step → Option SearchRequest
made_request (going sr) = some sr
made_request _ = none

-- The request that `NewSearchRequest` makes of the next scroll ID of a pager, if there is one.
abbrev pub next_request : Libraries → Text → Pagers → Option SearchRequest
next_request lib session_id (pagers sp) =
    if is_blank sp.next_scroll_id
    then none
    else made_request (new_search_request lib (scroll_params sp.next_scroll_id) session_id)
next_request lib session_id _ = none

-- The number of the pages that hold the hit with that number.
abbrev pub pages_with : ℕ → ℕ → List ℤ → ℕ
pages_with size i [] = 0
pages_with size i (pos k ∷ starts) =
    (if leb k i && ltb i (k + size) then 1 else 0) + pages_with size i starts
pages_with size i (negsuc k ∷ starts) = pages_with size i starts

module _ (lib : Libraries) (session_id : Text) (encode : SearchRequest → List ℕ)
    (unmarshal : List ℕ → Option SearchRequest) (to_hex : List ℕ → Text)
    (from_hex : Text → Option (List ℕ)) where
  abbrev pub next_page : ℤ → SearchRequest → Option SearchRequest
  next_page total sr =
      next_request (reading lib from_hex unmarshal) session_id
        (scroll_pagers (λ r. some (encode r)) unmarshal to_hex sr total)

  -- The starts of the pages that a client sees who follows the next scroll IDs so many times.
  abbrev pub visited : ℕ → ℤ → Option SearchRequest → List ℤ
  visited zero total sr = []
  visited (suc n) total none = []
  visited (suc n) total (some sr) = sr.start ∷ visited n total (next_page total sr)

  module _ (base : SearchRequest) (size : ℕ)
      (decodes : (p : Bool) (k : ℕ)
        → k < 2147483648
        → unmarshal (encode (at_start base size p k)) ≡ some (at_start base size p k))
      (hexes : (p : Bool) (k : ℕ)
        → k < 2147483648
        → from_hex (to_hex (encode (at_start base size p k)))
          ≡ some (encode (at_start base size p k)))
      (shown : (p : Bool) (k : ℕ)
        → k < 2147483648
        → is_blank (to_hex (encode (at_start base size p k))) ≡ false)
      (turns : turns_hits base.tree ≡ true) where
    abbrev page_at : Bool → ℕ → SearchRequest
    page_at p k = at_start base size p k
