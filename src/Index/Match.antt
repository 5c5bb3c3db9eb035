-- ===== src/Index/Match.antt =====
-- ikuzo/storage/x/memory/index_full_text.go: matching one term of a query. A `range` over the terms
-- runs in the order of the list, so what is proved for every list holds for every order.
-- `distance` stands for the Levenshtein distance of github.com/antzucaro/matchr.
pub mod Verdict
pub mod Places
pub mod Sound
use hub.Prelude.{
  ℕ, zero, suc, ◌+◌, ◌==◌, Bool, true, false, ◌||◌, Option, none, some, List, [], ◌∷◌, length, Text,
  text_discrete, ℕ_discrete, get, put, has, leb, ltb, keys, if◌then◌else◌, fields, has_prefix,
  has_suffix, join, ◌++◌, not, ◌&&◌,
}
use hub.Search.Vector
use hub.Search.Vector.{
  Vector, vector_discrete, Vectors, new_vectors, has_vector, add_phrase_vector, add_vector,
}
use hub.Search.Phrase.{valid_phrase_position}
use hub.Search.Matches.{Matches, append_term}
use hub.Search.Query.{
  QueryTerm, Attributes, QueryType, query_type, attributes, wild_card_query, phrase_query,
  fuzzy_query, term_query, bool_query,
}
use hub.Index.TextIndex.{TextIndex, vectors_or_new}

unfoldable pub match_term : TextIndex → Attributes → Matches → Bool × Matches
match_term ti qt hits = elim (get text_discrete qt.value ti.terms) [
  | some term ↦ if qt.prohibited then (false, hits) else (true, append_term hits qt.value term)
  | none ↦ if qt.prohibited then (true, append_term hits qt.value new_vectors) else (false, hits)
]

-- The loop that `matchFuzzy` and `matchWildcard` share: every term that passes is a hit.
unfoldable pub match_terms : (Text → Bool) → List (Text × Vectors) → Bool → Matches → Bool × Matches
match_terms passes [] has_match hits = (has_match, hits)
match_terms passes ((k, tv) ∷ terms) has_match hits =
    match_terms passes terms (if passes k then true else has_match)
      (if passes k then append_term hits k tv else hits)

unfoldable pub match_wildcard : TextIndex → Attributes → Matches → Bool × Matches
match_wildcard ti qt hits =
    match_terms (λ k. if qt.suffix_wildcard then has_suffix k qt.value else has_prefix k qt.value)
      ti.terms false hits

-- `search.IsFuzzyMatch` with the Levenshtein distance, which returns no error.
unfoldable pub is_fuzzy_match : (Text → Text → ℕ) → Text → Text → ℕ → Bool
is_fuzzy_match distance s1 s2 fuzziness = leb (distance s1 s2) fuzziness

unfoldable pub match_fuzzy : (Text → Text → ℕ) → TextIndex → Attributes → Matches → Bool × Matches
match_fuzzy distance ti qt hits =
    match_terms (λ k. is_fuzzy_match distance k qt.value qt.fuzzy) ti.terms false hits

-- `phrasePositions`: the word that stands at each place of a phrase.
abbrev pub Positions : Type 0
Positions = List (Vector × Text)

-- The loop over the places that may follow; the flag is `posMatch`.
unfoldable pub follow : Vectors → Text → List Vector → Bool → Positions → Bool × Positions
follow term word [] pos_match found = (pos_match, found)
follow term word (next ∷ rest) pos_match found =
    follow term word rest (if has_vector term next then true else pos_match)
      (if has_vector term next then put vector_discrete next word found else found)

-- The loop over the places of the previous word; the flag is `wordMatch`.
unfoldable pub follow_all :
    Vectors → Text → Text → ℕ → List Vector → Bool → Positions → Bool × Positions
follow_all term word previous slop [] word_match found = (word_match, found)
follow_all term word previous slop (v ∷ vs) word_match found =
    let (pos_match, found') = follow term word (valid_phrase_position v slop) false found in
    follow_all term word previous slop vs (if pos_match then true else word_match)
      (if pos_match then put vector_discrete v previous found' else found')

-- The loop over the words behind the first; `none` is an early `return false`.
unfoldable pub match_words :
    List (Text × Vectors) → ℕ → Text → List Vector → List Text → Positions → Option Positions
match_words terms slop previous next_vectors [] found = some found
match_words terms slop previous next_vectors (word ∷ words) found =
    elim (get text_discrete word terms) [
      | none ↦ none
      | some term ↦
          let (word_match, found') = follow_all term word previous slop next_vectors false found in
          let rest = match_words terms slop word term.locations words found' in
          if word_match then rest else none
    ]

-- The first loop of `sortAndCountPhrases`: the places of each document.
abbrev pub append_at : Option (List Vector) → Vector → List Vector
append_at (some vs) v = vs ++ v ∷ []
append_at none v = v ∷ []

unfoldable pub group : Positions → List (ℕ × List Vector) → List (ℕ × List Vector)
group [] vectors = vectors
group ((v, _) ∷ rest) vectors =
    group rest (put ℕ_discrete v.doc_id (append_at (get ℕ_discrete v.doc_id vectors) v) vectors)

-- `sort.Slice` by location.
unfoldable pub sort_insert : Vector → List Vector → List Vector
sort_insert v [] = v ∷ []
sort_insert v (w ∷ ws) =
    let rest = sort_insert v ws in if ltb w.location v.location then w ∷ rest else v ∷ w ∷ ws

unfoldable pub sort_slice : List Vector → List Vector
sort_slice [] = []
sort_slice (v ∷ vs) = sort_insert v (sort_slice vs)

unfoldable pub add_phrase_vectors : Vectors → List Vector → Vectors
add_phrase_vectors tv [] = tv
add_phrase_vectors tv (v ∷ vs) = add_phrase_vectors (add_phrase_vector tv v) vs

abbrev pub PhraseHits : Type 0
PhraseHits = List (Text × Vectors)

-- A full phrase is counted: its last place is a hit and the others are phrase vectors.
unfoldable pub count_phrase : List Text → List Vector → Vector → PhraseHits → PhraseHits
count_phrase phrase prev_vectors vector phrase_hits =
    let current = join phrase (b' ' ∷ []) in
    let tv = vectors_or_new (get text_discrete current phrase_hits) in
    put text_discrete current (add_vector (add_phrase_vectors tv prev_vectors) vector) phrase_hits

abbrev pub word_at : Positions → Vector → Text
word_at phrases v = elim (get vector_discrete v phrases) [ some w ↦ w | none ↦ [] ]

-- The loop over the sorted places of a document. The inner test `idx < len(docVectors)` always
-- passes, so a phrase that is not full is left for the next round.
unfoldable pub count_doc :
    Positions → ℕ → List Vector → List Text → List Vector → PhraseHits → PhraseHits
count_doc phrases phrase_size [] phrase prev_vectors phrase_hits = phrase_hits
count_doc phrases phrase_size (v ∷ vs) phrase prev_vectors phrase_hits =
    let phrase' = phrase ++ word_at phrases v ∷ [] in
    let more = count_doc phrases phrase_size vs phrase' (prev_vectors ++ v ∷ []) phrase_hits in
    let full =
      count_doc phrases phrase_size vs [] [] (count_phrase phrase' prev_vectors v phrase_hits) in
    if length phrase' == phrase_size then full else more

unfoldable pub count_docs : Positions → ℕ → List (ℕ × List Vector) → PhraseHits → PhraseHits
count_docs phrases phrase_size [] phrase_hits = phrase_hits
count_docs phrases phrase_size ((_, vs) ∷ rest) phrase_hits =
    count_docs phrases phrase_size rest
      (count_doc phrases phrase_size (sort_slice vs) [] [] phrase_hits)

unfoldable pub sort_and_count_phrases : List Text → Positions → PhraseHits
sort_and_count_phrases words phrases = count_docs phrases (length words) (group phrases []) []

-- The loop that appends every phrase to the hits.
unfoldable pub append_terms : Matches → PhraseHits → Matches
append_terms hits [] = hits
append_terms hits ((term, vectors) ∷ rest) = append_terms (append_term hits term vectors) rest

-- The end of `matchPhrase`, from the places that were found.
unfoldable pub phrase_result : List Text → Option Positions → Matches → Bool × Matches
phrase_result words none hits = (false, hits)
phrase_result words (some found) hits =
    if length found == 0
    then (false, hits)
    else (true, append_terms hits (sort_and_count_phrases words found))

unfoldable pub match_phrase_words : TextIndex → Attributes → List Text → Matches → Bool × Matches
match_phrase_words ti qt [] hits = phrase_result [] (some []) hits
match_phrase_words ti qt (_ ∷ []) hits = elim (get text_discrete qt.value ti.terms) [
  | none ↦ (false, hits)
  | some term ↦ (true, append_term hits qt.value term)
]
match_phrase_words ti qt (word ∷ next ∷ words) hits = elim (get text_discrete word ti.terms) [
  | none ↦ (false, hits)
  | some term ↦
      phrase_result (word ∷ next ∷ words)
        (match_words ti.terms qt.slop word term.locations (next ∷ words) []) hits
]

unfoldable pub match_phrase : TextIndex → Attributes → Matches → Bool × Matches
match_phrase ti qt hits = match_phrase_words ti qt (fields qt.value) hits

-- The switch of `match`.
unfoldable pub match_type :
    (Text → Text → ℕ) → QueryType → TextIndex → Attributes → Matches → Bool × Matches
match_type distance wild_card_query ti qt hits = match_wildcard ti qt hits
match_type distance phrase_query ti qt hits = match_phrase ti qt hits
match_type distance fuzzy_query ti qt hits = match_fuzzy distance ti qt hits
match_type distance _ ti qt hits = match_term ti qt hits

unfoldable pub match : (Text → Text → ℕ) → TextIndex → QueryTerm → Matches → Bool × Matches
match distance ti q hits = match_type distance (query_type q) ti (attributes q) hits
