-- ===== src/Fragments/Request/New/Scroll.antt =====
-- hub3/fragments/api.go: a scroll ID as a parameter of `NewSearchRequest`.
use hub.Prelude.{
  ℕ, ◌≡◌, refl, false, Option, List, [], ◌∷◌, Text, codes, text_discrete, ℕ_discrete, is_blank,
}
use hub.Fragments.Request.{SearchRequest}
use hub.Fragments.Pager.{search_request_from_hex}
use hub.Fragments.Request.Params.{Libraries, Values, get_value}
use hub.Fragments.Request.New.{hex_request, new_search_request}
use hub.Fragments.Request.New

-- The parameter that holds a scroll ID.
abbrev pub scroll_params : Text → Values
scroll_params scroll_id = (codes "scrollID", scroll_id ∷ []) ∷ []

module _ (lib : Libraries) (from_hex : Text → Option (List ℕ))
    (unmarshal : List ℕ → Option SearchRequest) where
  -- `SearchRequestFromHex` over the readers of hex and protobuf.
  abbrev pub reading : Libraries
  reading = record lib { request_from_hex = search_request_from_hex from_hex unmarshal }

  hex_request-scroll_params :
      (scroll_id : Text)
      → is_blank scroll_id ≡ false
      → hex_request reading (scroll_params scroll_id) ≡ scroll_id
  unfolding get_value text_discrete ℕ_discrete
  hex_request-scroll_params scroll_id h = rw (h) refl

  -- `NewSearchRequest` of a scroll ID reads its request, as one of paging.
  pub new_search_request-scroll_params :
      (scroll_id session_id : Text)
      → is_blank scroll_id ≡ false
      → new_search_request reading (scroll_params scroll_id) session_id
        ≡ New.from_hex reading
            (scroll_params scroll_id)
            (search_request_from_hex from_hex unmarshal scroll_id)
  unfolding new_search_request
  new_search_request-scroll_params scroll_id session_id h =
      rw (hex_request-scroll_params scroll_id h, h) refl
