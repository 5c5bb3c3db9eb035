-- ===== src/Index/Search/Sound.antt =====
-- ikuzo/storage/x/memory/index_full_text.go: the hits of a search are places of the index.
use hub.Prelude.{
  ℕ, ◌≡◌, Bool, true, false, not, none, some, List, [], ◌∷◌, Text, arith, All, has-All, has,
  if-intro,
}
use hub.Search.Vector.{Vector, vector_discrete, Vectors, new_vectors, has_vector}
use hub.Search.Matches
use hub.Search.Matches.{Matches, append_term, merge_vectors, is_zero, new_matches}
use hub.Search.Query.{
  QueryTerm, query_term, Link, Clauses, nil, cons, Attributes, query_type, attributes, is_empty,
}
use hub.Index.TextIndex.{TextIndex}
use hub.Index.Match.{match}
use hub.Index.Search.{
  no_match, not_prohibited, Outcome, and_then, require, should_result, is_bool, search,
  search_must_not, search_must, search_should, run_search, finish,
}
use hub.Index.Match.Places.{AllTerms, AllHits, AllResult}
use hub.Index.Match.Sound.{match_type-All}
use hub.Index.Match.Verdict.{any}

module _ (P : Vector → Type 0) where
  abbrev AllOutcome : Outcome → Type 0
  AllOutcome o = AllHits P o.1

  module _ (distance : Text → Text → ℕ) (ti : TextIndex) (ht : AllTerms P ti.terms) where
    match-All :
        (q : QueryTerm) (hits : Matches) → AllHits P hits → AllResult P (match distance ti q hits)
    unfolding match
    match-All q hits h = match_type-All P distance (query_type q) ti (attributes q) hits ht h

    -- What a loop does behind its first clause.
    abbrev Keeps : (Matches → Outcome) → Type 0
    Keeps next = (h : Matches) → AllHits P h → AllOutcome (next h)

    and_then-All :
        (o : Outcome) (next : Matches → Outcome)
        → AllOutcome o
        → Keeps next
        → AllOutcome (and_then o next)
    and_then-All (none, hits) next h k = k hits h
    and_then-All (some e, hits) next h k = h

    require-All :
        (r : Bool × Matches) (next : Matches → Outcome)
        → AllResult P r
        → Keeps next
        → AllOutcome (require r next)
    require-All (true, hits) next h k = k hits h
    require-All (false, hits) next h k = h

    should_result-All :
        (b : Bool) (hits : Matches) → AllHits P hits → AllOutcome (should_result b hits)
    should_result-All true hits h = h
    should_result-All false hits h = h

    module _ (q : QueryTerm) (rest : Clauses) (ih : Keeps (search distance ti q)) where
      must_not-step :
          Keeps (search_must_not distance ti rest)
          → Keeps (search_must_not distance ti (cons q rest))
      unfolding search
      must_not-step next hits h =
          if-intro AllOutcome (is_bool (query_type q)) _ _
            (λ _. and_then-All (search distance ti q hits) _ (ih hits h) next)
            (λ _.
              if-intro AllOutcome (not (attributes q).prohibited) (some not_prohibited, hits) _
                (λ _. h) (λ _. require-All (match distance ti q hits) _ (match-All q hits h) next))

      must-step :
          Keeps (search_must distance ti rest) → Keeps (search_must distance ti (cons q rest))
      unfolding search
      must-step next hits h =
          if-intro AllOutcome (is_bool (query_type q)) _ _
            (λ _. and_then-All (search distance ti q hits) _ (ih hits h) next)
            (λ _. require-All (match distance ti q hits) _ (match-All q hits h) next)

      should-step :
          ((m : Bool) → Keeps (search_should distance ti rest m))
          → (m : Bool) → Keeps (search_should distance ti (cons q rest) m)
      unfolding search
      should-step next m hits h =
          if-intro AllOutcome (is_bool (query_type q)) _ _
            (λ _. and_then-All (search distance ti q hits) _ (ih hits h) (next m))
            (λ _. next _ (match distance ti q hits).1 (match-All q hits h))

    query_term-step :
        (a : Attributes) (m n s : Clauses) (nested : Link)
        → Keeps (search_must_not distance ti n)
        → Keeps (search_must distance ti m)
        → Keeps (search_should distance ti s false)
        → Keeps (search distance ti (query_term a m n s nested))
    unfolding search
    query_term-step a m n s nested kn km ks hits h =
        and_then-All (search_must_not distance ti n hits) _ (kn hits h) (λ h1 p1.
          and_then-All (search_must distance ti m h1) _ (km h1 p1)
            (λ h2 p2. if-intro AllOutcome (is_empty s) (none, h2) _ (λ _. p2) (λ _. ks h2 p2)))

    must_not-nil : Keeps (search_must_not distance ti nil)
    unfolding search
    must_not-nil hits h = h

    must-nil : Keeps (search_must distance ti nil)
    unfolding search
    must-nil hits h = h

    should-nil : (m : Bool) → Keeps (search_should distance ti nil m)
    unfolding search
    should-nil m hits h = should_result-All m hits h

    mutual
      search-All : (q : QueryTerm) → Keeps (search distance ti q)
      search-All (query_term a m n s nested) =
          query_term-step a m n s nested (search_must_not-All n) (search_must-All m)
            (λ hits h. search_should-All s false hits h)

      search_must_not-All : (qs : Clauses) → Keeps (search_must_not distance ti qs)
      search_must_not-All nil = must_not-nil
      search_must_not-All (cons q rest) =
          must_not-step q rest (search-All q) (search_must_not-All rest)

      search_must-All : (qs : Clauses) → Keeps (search_must distance ti qs)
      search_must-All nil = must-nil
      search_must-All (cons q rest) = must-step q rest (search-All q) (search_must-All rest)

      search_should-All : (qs : Clauses) (m : Bool) → Keeps (search_should distance ti qs m)
      search_should-All nil = should-nil
      search_should-All (cons q rest) = should-step q rest (search-All q) (search_should-All rest)

-- Some term of the index stands at this place.
abbrev pub indexed : TextIndex → Vector → Bool
indexed ti v = any (λ e. has_vector e.1 v) ti.terms

All-of_has :
    (P : Vector → Type 0) (vs : List Vector)
    → ((v : Vector) → has vector_discrete v vs ≡ true → P v)
    → All P vs
unfolding has
All-of_has P [] f = tt
All-of_has P (w ∷ vs) f = (f w (ground arith), All-of_has P vs (λ v h. f v (ground arith)))

AllTerms-of_any :
    (P : Vector → Type 0) (terms : List (Text × Vectors))
    → ((v : Vector) → any (λ e. has_vector e.1 v) terms ≡ true → P v)
    → AllTerms P terms
AllTerms-of_any P [] f = tt
AllTerms-of_any P ((k, tv) ∷ terms) f = (
  All-of_has P tv.locations (λ v h. f v (unfold has_vector in rw h)),
  AllTerms-of_any P terms (λ v h. f v (ground arith)),
)

finish-All : (P : Vector → Type 0) (o : Outcome) → AllOutcome P o → AllOutcome P (finish o)
unfolding Matches.reset new_vectors
finish-All P (none, hits) h = h
finish-All P (some no_match, hits) h = tt
finish-All P (some not_prohibited, hits) h = h

-- Whatever a search returns as a hit, also beside an error, is a place of the index.
pub run_search-indexed :
    (distance : Text → Text → ℕ) (ti : TextIndex) (q : QueryTerm) (v : Vector)
    → has_vector (run_search distance ti q).1.term_vectors v ≡ true
    → indexed ti v ≡ true
unfolding run_search new_matches new_vectors
run_search-indexed distance ti q v h =
    let P : Vector → Type 0 = λ w. indexed ti w ≡ true in
    has-All vector_discrete P v (run_search distance ti q).1.term_vectors.locations
      (finish-All P (search distance ti q new_matches)
        (search-All P distance ti (AllTerms-of_any P ti.terms (λ w e. e)) q new_matches tt))
      (unfold has_vector in h)
