-- ===== src/Search/Phrase/Laws.antt =====
-- ikuzo/service/x/search/phrase.go: the two functions described by distances.
use hub.Prelude.{
  ℕ, zero, suc, ◌+◌, ◌-◌, ◌≡◌, Bool, ◌&&◌, ◌||◌, ltb, leb, ◌==◌, if◌then◌else◌, has, arith,
}
use hub.Search.Vector.{Vector, vector_discrete}
use hub.Search.Phrase.{is_phrase_match, positions_from, valid_phrase_position}

-- `i` is one of the `rounds` numbers from `from` on, and not 0.
abbrev within : ℕ → ℕ → ℕ → Bool
within from rounds i = ltb 0 i && (leb from i && ltb i (from + rounds))

has-positions_from :
    (doc i rounds : ℕ) (w : Vector)
    → has vector_discrete w (positions_from doc i rounds)
      ≡ (doc == w.doc_id && within i rounds w.location)
unfolding has positions_from
has-positions_from doc i zero w = ground arith
has-positions_from doc i (suc rounds) w = ground (arith, has-positions_from doc (i + 1) rounds w)

-- A place is a valid phrase position for a vector exactly if it is in the same document and, for
-- slop 0, is the vector or the place behind it, and for any other slop lies above 0 and at most
-- the slop away on either side.
pub has-valid_phrase_position :
    (v w : Vector) (slop : ℕ)
    → has vector_discrete w (valid_phrase_position v slop) ≡ (
        v.doc_id == w.doc_id
        && (if slop == 0
            then (w.location == v.location || w.location == v.location + 1)
            else (ltb 0 w.location
                && (leb v.location (w.location + slop) && leb w.location (v.location + slop)))))
unfolding has valid_phrase_position
has-valid_phrase_position v w zero = ground arith
has-valid_phrase_position v w (suc slop) =
    let start = v.location - suc slop in
    ground (arith, has-positions_from v.doc_id start (v.location + suc slop + 1 - start) w)

-- `IsPhraseMatch` accepts exactly the second positions from the first minus the slop up to the
-- first plus the slop plus one.
is_phrase_match_lem :
    (pos1 pos2 slop : ℕ)
    → is_phrase_match pos1 pos2 slop ≡ (leb pos1 (pos2 + slop) && leb pos2 (pos1 + slop + 1))
unfolding is_phrase_match
is_phrase_match_lem pos1 pos2 slop = ground arith
