-- ===== src/Index/Match/Sound.antt =====
-- ikuzo/storage/x/memory/index_full_text.go: a match adds nothing to the hits but places of the
-- index. The lemmas are about any property `P` of places.
use hub.Prelude.{
  join, ℕ, ◌≡◌, refl, false, Option, none, some, List, [], ◌∷◌, ◌++◌, length, Text, text_discrete,
  ℕ_discrete, get, ltb, fields, ◌==◌, All, All-append, put-All, get-All, inl, inr, Option-cases,
  if-intro,
}
use hub.Search.Vector.{Vector, Vectors, new_vectors, add_phrase_vector}
use hub.Search.Matches.{Matches, append_term}
use hub.Search.Query.{Attributes, QueryType, wild_card_query, phrase_query, fuzzy_query}
use hub.Index.TextIndex.{TextIndex, vectors_or_new}
use hub.Index.Match.{
  match_term, match_wildcard, match_fuzzy, Positions, phrase_result, match_phrase_words,
  match_phrase, match_type, group, sort_insert, sort_slice, append_at, add_phrase_vectors,
  count_phrase, word_at, count_doc, count_docs, sort_and_count_phrases, append_terms, PhraseHits,
}
use hub.Index.Match.Places.{
  AllIn, AllTerms, AllHits, AllResult, AllPlaces, AllFound, add_vector-All, add_phrase_vector-All,
  append_term-All, match_terms-All, match_words-All,
}

module _ (P : Vector → Type 0) where
  append_at-All :
      (o : Option (List Vector)) (v : Vector)
      → ((vs : List Vector) → o ≡ some vs → All P vs)
      → P v
      → All P (append_at o v)
  append_at-All none v h p = (p, tt)
  append_at-All (some vs) v h p = All-append P vs (v ∷ []) (h vs refl) (p, tt)

  group-All :
      (found : Positions) (vectors : List (ℕ × List Vector))
      → AllPlaces P found
      → All (λ e. All P e.1) vectors
      → All (λ e. All P e.1) (group found vectors)
  unfolding group
  group-All [] vectors hf h = h
  group-All ((v, w) ∷ found) vectors hf h = group-All found _ hf.1 (
      put-All ℕ_discrete (λ e. All P e.1) v.doc_id (append_at (get ℕ_discrete v.doc_id vectors) v)
        vectors
        (append_at-All (get ℕ_discrete v.doc_id vectors) v
          (λ vs e. get-All ℕ_discrete (λ e'. All P e'.1) v.doc_id vs vectors h e) hf.0)
        h)

  sort_insert-All : (v : Vector) (vs : List Vector) → P v → All P vs → All P (sort_insert v vs)
  unfolding sort_insert
  sort_insert-All v [] p h = (p, tt)
  sort_insert-All v (w ∷ ws) p h =
      if-intro (All P) (ltb w.location v.location) (w ∷ sort_insert v ws) (v ∷ w ∷ ws)
        (λ _. (h.0, sort_insert-All v ws p h.1)) (λ _. (p, h))

  sort_slice-All : (vs : List Vector) → All P vs → All P (sort_slice vs)
  unfolding sort_slice
  sort_slice-All [] h = tt
  sort_slice-All (v ∷ vs) h = sort_insert-All v (sort_slice vs) h.0 (sort_slice-All vs h.1)

  add_phrase_vectors-All :
      (tv : Vectors) (vs : List Vector) → All P vs → AllIn P tv → AllIn P (add_phrase_vectors tv vs)
  unfolding add_phrase_vectors
  add_phrase_vectors-All tv [] hv h = h
  add_phrase_vectors-All tv (v ∷ vs) hv h =
      add_phrase_vectors-All (add_phrase_vector tv v) vs hv.1 (add_phrase_vector-All P tv v hv.0 h)

  vectors_or_new-All :
      (o : Option Vectors)
      → ((tv : Vectors) → o ≡ some tv → AllIn P tv)
      → AllIn P (vectors_or_new o)
  unfolding new_vectors
  vectors_or_new-All none h = tt
  vectors_or_new-All (some tv) h = h tv refl

  count_phrase-All :
      (phrase : List Text) (prev : List Vector) (v : Vector) (hits : PhraseHits)
      → All P prev
      → P v
      → AllTerms P hits
      → AllTerms P (count_phrase phrase prev v hits)
  unfolding count_phrase
  count_phrase-All phrase prev v hits hp p h =
      let current = join phrase (b' ' ∷ []) in
      put-All text_discrete (λ e. AllIn P e.1) current _ hits
        (add_vector-All P _ v p (
          add_phrase_vectors-All _ prev hp (
            vectors_or_new-All (get text_discrete current hits)
              (λ tv e. get-All text_discrete (λ e'. AllIn P e'.1) current tv hits h e))))
        h

  count_doc-All :
      (phrases : Positions) (n : ℕ) (vs : List Vector) (phrase : List Text) (prev : List Vector)
      (hits : PhraseHits)
      → All P vs
      → All P prev
      → AllTerms P hits
      → AllTerms P (count_doc phrases n vs phrase prev hits)
  unfolding count_doc
  count_doc-All phrases n [] phrase prev hits hv hp h = h
  count_doc-All phrases n (v ∷ vs) phrase prev hits hv hp h =
      if-intro (AllTerms P) (length (phrase ++ word_at phrases v ∷ []) == n)
        (count_doc phrases n vs [] [] (count_phrase (phrase ++ word_at phrases v ∷ []) prev v hits))
        (count_doc phrases n vs (phrase ++ word_at phrases v ∷ []) (prev ++ v ∷ []) hits)
        (λ _.
          count_doc-All phrases n vs [] [] _ hv.1 tt
            (count_phrase-All (phrase ++ word_at phrases v ∷ []) prev v hits hp hv.0 h))
        (λ _.
          count_doc-All phrases n vs _ (prev ++ v ∷ []) hits hv.1
            (All-append P prev (v ∷ []) hp (hv.0, tt)) h)

  count_docs-All :
      (phrases : Positions) (n : ℕ) (docs : List (ℕ × List Vector)) (hits : PhraseHits)
      → All (λ e. All P e.1) docs
      → AllTerms P hits
      → AllTerms P (count_docs phrases n docs hits)
  unfolding count_docs
  count_docs-All phrases n [] hits hd h = h
  count_docs-All phrases n ((d, vs) ∷ docs) hits hd h =
      count_docs-All phrases n docs _ hd.1
        (count_doc-All phrases n (sort_slice vs) [] [] hits (sort_slice-All vs hd.0) tt h)

  append_terms-All :
      (hits : Matches) (found : PhraseHits)
      → AllTerms P found
      → AllHits P hits
      → AllHits P (append_terms hits found)
  unfolding append_terms
  append_terms-All hits [] hf h = h
  append_terms-All hits ((term, tv) ∷ rest) hf h =
      append_terms-All (append_term hits term tv) rest hf.1 (append_term-All P hits term tv hf.0 h)

  phrase_result-All :
      (words : List Text) (o : Option Positions) (hits : Matches)
      → AllFound P o
      → AllHits P hits
      → AllHits P (phrase_result words o hits).1
  unfolding phrase_result sort_and_count_phrases
  phrase_result-All words none hits ho h = h
  phrase_result-All words (some found) hits ho h =
      if-intro (AllResult P) (length found == 0) (false, hits) _ (λ _. h)
        (λ _.
          append_terms-All hits _
            (count_docs-All found (length words) (group found []) [] (group-All found [] ho tt) tt)
            h)

  match_term-All :
      (ti : TextIndex) (qt : Attributes) (hits : Matches)
      → AllTerms P ti.terms
      → AllHits P hits
      → AllHits P (match_term ti qt hits).1
  unfolding match_term new_vectors
  match_term-All ti qt hits ht h = elim (Option-cases (get text_discrete qt.value ti.terms)) [
    | inl missing ↦
        rw (missing, match_term)
          (if-intro (AllResult P) qt.prohibited _ (false, hits)
            (λ _. append_term-All P hits qt.value new_vectors tt h) (λ _. h))
    | inr (term, there) ↦
        rw (there, match_term)
          (if-intro (AllResult P) qt.prohibited (false, hits) _ (λ _. h)
            (λ _.
              append_term-All P hits qt.value term
                (get-All text_discrete (λ e. AllIn P e.1) qt.value term ti.terms ht there) h))
  ]

  match_phrase_words-All :
      (ti : TextIndex) (qt : Attributes) (words : List Text) (hits : Matches)
      → AllTerms P ti.terms
      → AllHits P hits
      → AllHits P (match_phrase_words ti qt words hits).1
  unfolding match_phrase_words
  match_phrase_words-All ti qt [] hits ht h = phrase_result-All [] (some []) hits tt h
  match_phrase_words-All ti qt (w ∷ []) hits ht h =
      elim (Option-cases (get text_discrete qt.value ti.terms)) [
        | inl missing ↦ rw (missing, match_phrase_words) h
        | inr (term, there) ↦
            rw (there, match_phrase_words)
              (append_term-All P hits qt.value term
                (get-All text_discrete (λ e. AllIn P e.1) qt.value term ti.terms ht there) h)
      ]
  match_phrase_words-All ti qt (w ∷ w' ∷ ws) hits ht h =
      elim (Option-cases (get text_discrete w ti.terms)) [
        | inl missing ↦ rw (missing, match_phrase_words) h
        | inr (term, there) ↦
            rw (there, match_phrase_words)
              (phrase_result-All (w ∷ w' ∷ ws) _ hits
                (match_words-All P ti.terms qt.slop w term.locations (w' ∷ ws) [] ht
                  (get-All text_discrete (λ e. AllIn P e.1) w term ti.terms ht there) tt)
                h)
      ]

  pub match_type-All :
      (distance : Text → Text → ℕ) (t : QueryType) (ti : TextIndex) (qt : Attributes)
      (hits : Matches)
      → AllTerms P ti.terms
      → AllHits P hits
      → AllHits P (match_type distance t ti qt hits).1
  unfolding match_type match_wildcard match_fuzzy match_phrase
  match_type-All distance wild_card_query ti qt hits ht h =
      match_terms-All P _ ti.terms false hits ht h
  match_type-All distance phrase_query ti qt hits ht h =
      match_phrase_words-All ti qt (fields qt.value) hits ht h
  match_type-All distance fuzzy_query ti qt hits ht h = match_terms-All P _ ti.terms false hits ht h
  match_type-All distance _ ti qt hits ht h = match_term-All ti qt hits ht h
