-- ===== src/Search/Phrase.antt =====
-- ikuzo/service/x/search/phrase.go: which places continue a phrase. The slop comes from the digits
-- of a query, so it is never negative.
pub mod Laws
use hub.Prelude.{
  ℕ, zero, suc, ◌+◌, ◌-◌, ℤ, pos, negsuc, sub_ℕ, leb_ℤ, Bool, true, false, ◌&&◌, ◌||◌, List, [],
  ◌∷◌, ltb, ◌==◌, if◌then◌else◌,
}
use hub.Search.Vector.{Vector}

abbrev pub is_minus_one : ℤ → Bool
is_minus_one (negsuc zero) = true
is_minus_one _ = false

-- The lower bound `-slop - 1` is `negsuc slop`.
unfoldable pub is_phrase_match : ℕ → ℕ → ℕ → Bool
is_phrase_match pos1 pos2 slop =
    let p = sub_ℕ pos1 pos2 in
    if slop == 0 && is_minus_one p then true else leb_ℤ (negsuc slop) p && leb_ℤ p (pos slop)

-- The loop over `i`, with the rounds that are left. It starts at `pos - slop`; where that is
-- negative the source makes rounds that its guard `i > 0` skips, and the model starts at 0.
unfoldable pub positions_from : ℕ → ℕ → ℕ → List Vector
positions_from doc i zero = []
positions_from doc i (suc rounds) =
    let rest = positions_from doc (i + 1) rounds in
    if ltb 0 i then record { doc_id = doc; location = i } ∷ rest else rest

unfoldable pub valid_phrase_position : Vector → ℕ → List Vector
valid_phrase_position v zero = v ∷ record { doc_id = v.doc_id; location = v.location + 1 } ∷ []
valid_phrase_position v (suc n) =
    let slop = suc n in
    let start = v.location - slop in positions_from v.doc_id start (v.location + slop + 1 - start)
