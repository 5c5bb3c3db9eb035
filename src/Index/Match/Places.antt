-- ===== src/Index/Match/Places.antt =====
-- ikuzo/storage/x/memory/index_full_text.go: the loops of a match only find places of the index. The
-- lemmas are about any property `P` of places.
use hub.Prelude.{
  ℕ, Bool, true, false, Option, none, some, List, [], ◌∷◌, Text, text_discrete, get, put,
  if◌then◌else◌, All, insert-All, has-All, put-All, get-All, Bool-cases, inl, inr, Option-cases,
  if-intro,
}
use hub.Search.Vector
use hub.Search.Vector.{
  Vector, vector_discrete, Vectors, new_vectors, has_vector, add_vector, add_phrase_vector,
  merge_from,
}
use hub.Search.Phrase.{valid_phrase_position}
use hub.Search.Matches.{Matches, append_term, merge_vectors, is_zero}
use hub.Index.Match.{match_terms, Positions, follow, follow_all, match_words}

module _ (P : Vector → Type 0) where
  -- All locations of a collection.
  abbrev pub AllIn : Vectors → Type 0
  AllIn tv = All P tv.locations

  abbrev pub AllTerms : List (Text × Vectors) → Type 0
  AllTerms = All (λ e. AllIn e.1)

  abbrev pub AllHits : Matches → Type 0
  AllHits hits = AllIn hits.term_vectors

  abbrev pub AllResult : Bool × Matches → Type 0
  AllResult r = AllHits r.1

  pub add_vector-All : (tv : Vectors) (v : Vector) → P v → AllIn tv → AllIn (add_vector tv v)
  unfolding add_vector
  add_vector-All tv v p h = insert-All vector_discrete P v tv.locations p h

  pub add_phrase_vector-All :
      (tv : Vectors) (v : Vector) → P v → AllIn tv → AllIn (add_phrase_vector tv v)
  unfolding add_phrase_vector
  add_phrase_vector-All tv v p h = elim (Bool-cases (has_vector tv v)) [
    | inl old ↦ rw (old, add_phrase_vector) h
    | inr new ↦ rw (new, add_phrase_vector) (add_vector-All tv v p h)
  ]

  merge_from-All :
      (tv : Vectors) (vs : List Vector) → All P vs → AllIn tv → AllIn (merge_from tv vs)
  unfolding merge_from
  merge_from-All tv [] hv h = h
  merge_from-All tv (v ∷ vs) hv h =
      merge_from-All (if has_vector tv v then tv else add_vector tv v) vs hv.1 (
        if-intro AllIn (has_vector tv v) tv (add_vector tv v) (λ _. h)
          (λ _. add_vector-All tv v hv.0 h))

  pub append_term-All :
      (hits : Matches) (term : Text) (tv : Vectors)
      → AllIn tv
      → AllHits hits
      → AllHits (append_term hits term tv)
  unfolding append_term merge_vectors Vector.merge
  append_term-All hits term tv hv h =
      if-intro AllHits (is_zero (Vector.size tv)) hits _ (λ _. h)
        (λ _. merge_from-All hits.term_vectors tv.locations hv h)

  pub match_terms-All :
      (passes : Text → Bool) (terms : List (Text × Vectors)) (b : Bool) (hits : Matches)
      → AllTerms terms
      → AllHits hits
      → AllHits (match_terms passes terms b hits).1
  unfolding match_terms
  match_terms-All passes [] b hits ht h = h
  match_terms-All passes ((k, tv) ∷ terms) b hits ht h =
      match_terms-All passes terms (if passes k then true else b)
        (if passes k then append_term hits k tv else hits) ht.1
        (if-intro AllHits (passes k) (append_term hits k tv) hits
          (λ _. append_term-All hits k tv ht.0 h) (λ _. h))

  abbrev pub AllPlaces : Positions → Type 0
  AllPlaces = All (λ e. P e.0)

  follow-All :
      (term : Vectors) (word : Text) (vs : List Vector) (b : Bool) (found : Positions)
      → AllIn term
      → AllPlaces found
      → AllPlaces (follow term word vs b found).1
  unfolding follow
  follow-All term word [] b found ht h = h
  follow-All term word (v ∷ vs) b found ht h =
      follow-All term word vs (if has_vector term v then true else b)
        (if has_vector term v then put vector_discrete v word found else found) ht
        (if-intro AllPlaces (has_vector term v) (put vector_discrete v word found) found
          (λ hit.
            put-All vector_discrete (λ e. P e.0) v word found
              (has-All vector_discrete P v term.locations ht (unfold has_vector in hit)) h)
          (λ _. h))

  follow_all-All :
      (term : Vectors) (word previous : Text) (slop : ℕ) (vs : List Vector) (b : Bool)
      (found : Positions)
      → AllIn term
      → All P vs
      → AllPlaces found
      → AllPlaces (follow_all term word previous slop vs b found).1
  unfolding follow_all
  follow_all-All term word previous slop [] b found ht hv h = h
  follow_all-All term word previous slop (v ∷ vs) b found ht hv h =
      let near = follow term word (valid_phrase_position v slop) false found in
      let placed = follow-All term word (valid_phrase_position v slop) false found ht h in
      follow_all-All term word previous slop vs (if near.0 then true else b)
        (if near.0 then put vector_discrete v previous near.1 else near.1) ht hv.1
        (if-intro AllPlaces near.0 (put vector_discrete v previous near.1) near.1
          (λ _. put-All vector_discrete (λ e. P e.0) v previous near.1 hv.0 placed) (λ _. placed))

  -- What an early return leaves.
  abbrev pub AllFound : Option Positions → Type 0
  AllFound none = Unit
  AllFound (some found) = AllPlaces found

  pub match_words-All :
      (terms : List (Text × Vectors)) (slop : ℕ) (previous : Text) (vs : List Vector)
      (words : List Text) (found : Positions)
      → AllTerms terms
      → All P vs
      → AllPlaces found
      → AllFound (match_words terms slop previous vs words found)
  unfolding match_words
  match_words-All terms slop previous vs [] found ht hv h = h
  match_words-All terms slop previous vs (w ∷ ws) found ht hv h =
      elim (Option-cases (get text_discrete w terms)) [
        | inl missing ↦ rw (missing, AllFound) tt
        | inr (term, there) ↦
            let met = follow_all term w previous slop vs false found in
            let placed = get-All text_discrete (λ e. AllIn e.1) w term terms ht there in
            rw (there, AllFound)
              (if-intro AllFound met.0 (match_words terms slop w term.locations ws met.1) none
                (λ _.
                  match_words-All terms slop w term.locations ws met.1 ht placed
                    (follow_all-All term w previous slop vs false found placed hv h))
                (λ _. tt))
      ]
