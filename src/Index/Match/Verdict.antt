-- ===== src/Index/Match/Verdict.antt =====
-- ikuzo/storage/x/memory/index_full_text.go: which terms match, told without the hits, the
-- positions found or the order of the loops.
use hub.Prelude.{
  ℕ, ◌≡◌, refl, ◌∙◌, Bool, true, false, ◌||◌, ◌&&◌, not, Option, none, some, List, [], ◌∷◌, Text,
  text_discrete, get, put, leb, if◌then◌else◌, fields, has_prefix, has_suffix, arith, Bool-cases,
  inl, inr, Option-cases,
}
use hub.Search.Vector.{Vector, vector_discrete, Vectors, has_vector}
use hub.Search.Phrase.{valid_phrase_position}
use hub.Search.Matches.{Matches, append_term}
use hub.Search.Query.{
  QueryTerm, Attributes, QueryType, query_type, attributes, wild_card_query, phrase_query,
  fuzzy_query,
}
use hub.Index.TextIndex.{TextIndex}
use hub.Index.Match.{
  match_term, match_terms, match_wildcard, is_fuzzy_match, match_fuzzy, Positions, follow,
  follow_all, match_words, phrase_result, match_phrase_words, match_phrase, match_type, match,
}

-- Some element passes.
abbrev pub any {ℓ} : {A : Type ℓ} → (A → Bool) → List A → Bool
any p [] = false
any p (x ∷ xs) = p x || any p xs

abbrev pub holds : TextIndex → Text → Bool
holds ti w = elim (get text_discrete w ti.terms) [ some _ ↦ true | none ↦ false ]

-- A place of `vs` can be followed by a place of `term`.
abbrev pub adjacent : ℕ → List Vector → Vectors → Bool
adjacent slop vs term = any (λ v. any (has_vector term) (valid_phrase_position v slop)) vs

-- Every word is indexed, and each can follow the one before it somewhere. The place at which two
-- words meet is free: it need not be where the first of them followed its own predecessor.
abbrev pub chain : List (Text × Vectors) → ℕ → List Vector → List Text → Bool
chain terms slop vs [] = true
chain terms slop vs (w ∷ ws) = elim (get text_discrete w terms) [
  | none ↦ false
  | some term ↦ adjacent slop vs term && chain terms slop term.locations ws
]

abbrev pub phrase_matches : TextIndex → Attributes → List Text → Bool
phrase_matches ti qt [] = false
phrase_matches ti qt (_ ∷ []) = holds ti qt.value
phrase_matches ti qt (w ∷ w' ∷ ws) = elim (get text_discrete w ti.terms) [
  | none ↦ false
  | some term ↦ chain ti.terms qt.slop term.locations (w' ∷ ws)
]

abbrev pub type_matches : (Text → Text → ℕ) → QueryType → TextIndex → Attributes → Bool
type_matches distance wild_card_query ti qt =
    any (λ e. if qt.suffix_wildcard then has_suffix e.0 qt.value else has_prefix e.0 qt.value)
      ti.terms
type_matches distance phrase_query ti qt = phrase_matches ti qt (fields qt.value)
type_matches distance fuzzy_query ti qt = any (λ e. leb (distance e.0 qt.value) qt.fuzzy) ti.terms
type_matches distance _ ti qt = if qt.prohibited then not (holds ti qt.value) else holds ti qt.value

abbrev pub term_matches : (Text → Text → ℕ) → TextIndex → QueryTerm → Bool
term_matches distance ti q = type_matches distance (query_type q) ti (attributes q)

match_terms-verdict :
    (p : Text → Bool) (terms : List (Text × Vectors)) (b : Bool) (hits : Matches)
    → (match_terms p terms b hits).0 ≡ (b || any (λ e. p e.0) terms)
unfolding match_terms
match_terms-verdict p [] b hits = ground arith
match_terms-verdict p ((k, tv) ∷ terms) b hits =
    match_terms-verdict p terms (if p k then true else b)
      (if p k then append_term hits k tv else hits)
    ∙ ground arith

match_term-verdict :
    (ti : TextIndex) (qt : Attributes) (hits : Matches)
    → (match_term ti qt hits).0
      ≡ (if qt.prohibited then not (holds ti qt.value) else holds ti qt.value)
unfolding match_term
match_term-verdict ti qt hits = ground arith

-- Something was found.
abbrev filled : Positions → Bool
filled [] = false
filled (_ ∷ _) = true

filled-put :
    (v : Vector) (w : Text) (found : Positions) → filled (put vector_discrete v w found) ≡ true
unfolding put
filled-put v w [] = refl
filled-put v w (e ∷ found) = ground arith

follow-verdict :
    (term : Vectors) (word : Text) (vs : List Vector) (b : Bool) (found : Positions)
    → ((follow term word vs b found).0 ≡ (b || any (has_vector term) vs))
      × (filled (follow term word vs b found).1 ≡ (filled found || any (has_vector term) vs))
unfolding follow
follow-verdict term word [] b found = ground arith
follow-verdict term word (v ∷ vs) b found = elim (Bool-cases (has_vector term v)) [
  | inl h ↦ rw h (
      ground (
        arith,
        follow-verdict term word vs true (put vector_discrete v word found),
        filled-put v word found,
      ))
  | inr h ↦ rw h (ground (arith, follow-verdict term word vs b found))
]

follow_all-verdict :
    (term : Vectors) (word previous : Text) (slop : ℕ) (vs : List Vector) (b : Bool)
    (found : Positions)
    → ((follow_all term word previous slop vs b found).0 ≡ (b || adjacent slop vs term))
      × (filled (follow_all term word previous slop vs b found).1
          ≡ (filled found || adjacent slop vs term))
unfolding follow_all
follow_all-verdict term word previous slop [] b found = ground arith
follow_all-verdict term word previous slop (v ∷ vs) b found =
    let near = follow term word (valid_phrase_position v slop) false found in
    let there = follow-verdict term word (valid_phrase_position v slop) false found in
    elim (Bool-cases near.0) [
      | inl h ↦ ground (
        arith,
        there.0,
        follow_all-verdict term word previous slop vs true (put vector_discrete v previous near.1),
        filled-put v previous near.1,
      )
      | inr h ↦
          ground (arith, there.0, there.1, follow_all-verdict term word previous slop vs b near.1)
    ]

abbrev filled_result : Option Positions → Bool
filled_result none = false
filled_result (some found) = filled found

abbrev some_word : List Text → Bool
some_word [] = false
some_word (_ ∷ _) = true

match_words-verdict :
    (terms : List (Text × Vectors)) (slop : ℕ) (previous : Text) (vs : List Vector)
    (words : List Text) (found : Positions)
    → filled_result (match_words terms slop previous vs words found)
      ≡ (chain terms slop vs words && (filled found || some_word words))
unfolding match_words
match_words-verdict terms slop previous vs [] found = ground arith
match_words-verdict terms slop previous vs (w ∷ ws) found =
    elim (Option-cases (get text_discrete w terms)) [
      | inl missing ↦ ground arith
      | inr (term, there) ↦
          let near = follow_all term w previous slop vs false found in
          let met = follow_all-verdict term w previous slop vs false found in
          ground (arith, met.0, met.1, match_words-verdict terms slop w term.locations ws near.1)
    ]

phrase_result-verdict :
    (words : List Text) (o : Option Positions) (hits : Matches)
    → (phrase_result words o hits).0 ≡ filled_result o
unfolding phrase_result
phrase_result-verdict words none hits = refl
phrase_result-verdict words (some []) hits = refl
phrase_result-verdict words (some (e ∷ found)) hits = ground arith

match_phrase_words-verdict :
    (ti : TextIndex) (qt : Attributes) (words : List Text) (hits : Matches)
    → (match_phrase_words ti qt words hits).0 ≡ phrase_matches ti qt words
unfolding match_phrase_words
match_phrase_words-verdict ti qt [] hits = phrase_result-verdict [] (some []) hits
match_phrase_words-verdict ti qt (w ∷ []) hits = ground arith
match_phrase_words-verdict ti qt (w ∷ w' ∷ ws) hits =
    elim (Option-cases (get text_discrete w ti.terms)) [
      | inl missing ↦ ground arith
      | inr (term, there) ↦ ground (
        arith,
        phrase_result-verdict (w ∷ w' ∷ ws)
            (match_words ti.terms qt.slop w term.locations (w' ∷ ws) []) hits,
        match_words-verdict ti.terms qt.slop w term.locations (w' ∷ ws) [],
      )
    ]

match_type-verdict :
    (distance : Text → Text → ℕ) (t : QueryType) (ti : TextIndex) (qt : Attributes) (hits : Matches)
    → (match_type distance t ti qt hits).0 ≡ type_matches distance t ti qt
unfolding match_type match_wildcard match_fuzzy match_phrase is_fuzzy_match
match_type-verdict distance wild_card_query ti qt hits = match_terms-verdict _ ti.terms false hits
match_type-verdict distance phrase_query ti qt hits =
    match_phrase_words-verdict ti qt (fields qt.value) hits
match_type-verdict distance fuzzy_query ti qt hits = match_terms-verdict _ ti.terms false hits
match_type-verdict distance _ ti qt hits = match_term-verdict ti qt hits

-- Whether `match` finds a term is told by `term_matches`, from the index and the term alone and not from
-- the hits so far. For a phrase that is: every word is indexed, and some place of each word but the first
-- is a valid phrase position of some place of the word before it, which for slop 0 is the same place or
-- the one behind it, and for any other slop one at most the slop before or behind it in the document.
pub match-verdict :
    (distance : Text → Text → ℕ) (ti : TextIndex) (q : QueryTerm) (hits : Matches)
    → (match distance ti q hits).0 ≡ term_matches distance ti q
unfolding match
match-verdict distance ti q hits = match_type-verdict distance (query_type q) ti (attributes q) hits
