-- ===== src/Index/Search/Words.antt =====
-- ikuzo/service/x/search/query_parser.go and ikuzo/storage/x/memory/index_full_text.go: from the text of
-- a query to its outcome, for words with signs.
use hub.Prelude.{
  ℕ, ◌≡◌, refl, Bool, true, false, ◌&&◌, ◌||◌, not, none, some, List, [], ◌∷◌, Text, All,
  if◌then◌else◌, arith, ap, ◌∙◌,
}
use hub.Analyzer.{transform_phrase}
use hub.Search.Matches.{new_matches}
use hub.Search.Query.{QueryTerm, query_type, is_bool_query, is_empty}
use hub.Search.Parser.{ok}
use hub.Search.Parser.Run.{QueryParser, parse}
use hub.Search.Parser.Simple.{IsWord, SimpleQuery, print, word_term, word_clauses, as_query}
use hub.Search.Parser.RoundTrip.{parse-print}
use hub.Index.TextIndex.{TextIndex}
use hub.Index.Match.Verdict.{holds, term_matches}
use hub.Index.Search.{no_match, not_prohibited, run_search, search, finish, Outcome}
use hub.Index.Search.Verdict.{
  flagged, flagged_all, flagged_not, accepts, accepts_all, accepts_groups, some_term,
  search-verdict,
}

abbrev pub every : (Text → Bool) → List Text → Bool
every p [] = true
every p (w ∷ ws) = p w && every p ws

abbrev pub some_of : (Text → Bool) → List Text → Bool
some_of p [] = false
some_of p (w ∷ ws) = p w || some_of p ws

abbrev pub no_words : List Text → Bool
no_words [] = true
no_words (_ ∷ _) = false

module _ (distance : Text → Text → ℕ) (ti : TextIndex) (transform : Text → Text) where
  -- The analysed word is a term of the index.
  abbrev pub is_indexed : Text → Bool
  is_indexed w = holds ti (transform w)

  -- What signed words ask of the index.
  abbrev pub words_accepted : SimpleQuery → Bool
  words_accepted q =
      every (λ w. not (is_indexed w)) q.unwanted
      && (if q.all_of
          then every is_indexed q.wanted
          else no_words q.wanted || some_of is_indexed q.wanted)

  term_matches-word_term :
      (v : Text) (p : Bool)
      → term_matches distance ti (word_term v p) ≡ (if p then not (holds ti v) else holds ti v)
  unfolding query_type is_bool_query
  term_matches-word_term v p = refl

  accepts_all-wanted :
      (ws : List Text)
      → accepts_all distance ti (word_clauses transform false ws) ≡ every is_indexed ws
  unfolding accepts query_type is_bool_query
  accepts_all-wanted [] = refl
  accepts_all-wanted (w ∷ ws) = ap (λ b. is_indexed w && b) (accepts_all-wanted ws)

  accepts_all-unwanted :
      (ws : List Text)
      → accepts_all distance ti (word_clauses transform true ws)
        ≡ every (λ w. not (is_indexed w)) ws
  unfolding accepts query_type is_bool_query
  accepts_all-unwanted [] = refl
  accepts_all-unwanted (w ∷ ws) = ap (λ b. not (is_indexed w) && b) (accepts_all-unwanted ws)

  accepts_groups-words :
      (ws : List Text) → accepts_groups distance ti (word_clauses transform false ws) ≡ true
  unfolding accepts query_type is_bool_query
  accepts_groups-words [] = refl
  accepts_groups-words (w ∷ ws) = accepts_groups-words ws

  some_term-words :
      (ws : List Text)
      → some_term distance ti (word_clauses transform false ws) ≡ some_of is_indexed ws
  unfolding some_term query_type is_bool_query
  some_term-words [] = refl
  some_term-words (w ∷ ws) = ap (λ b. is_indexed w || b) (some_term-words ws)

  is_empty-words : (ws : List Text) → is_empty (word_clauses transform false ws) ≡ no_words ws
  is_empty-words [] = refl
  is_empty-words (w ∷ ws) = refl

  accepts-as_query :
      (q : SimpleQuery) → accepts distance ti (as_query transform q) ≡ words_accepted q
  unfolding accepts
  accepts-as_query q = ground (
    arith,
    accepts_all-wanted q.wanted,
    accepts_all-unwanted q.unwanted,
    accepts_groups-words q.wanted,
    some_term-words q.wanted,
    is_empty-words q.wanted,
  )

  flagged_all-words : (ws : List Text) → flagged_all (word_clauses transform false ws) ≡ true
  unfolding flagged query_type is_bool_query
  flagged_all-words [] = refl
  flagged_all-words (w ∷ ws) = flagged_all-words ws

  flagged_not-words : (ws : List Text) → flagged_not (word_clauses transform true ws) ≡ true
  unfolding flagged query_type is_bool_query
  flagged_not-words [] = refl
  flagged_not-words (w ∷ ws) = flagged_not-words ws

  flagged-as_query : (q : SimpleQuery) → flagged (as_query transform q) ≡ true
  unfolding flagged
  flagged-as_query q = ground (arith, flagged_all-words q.wanted, flagged_not-words q.unwanted)

  finish-error : (o : Outcome) → (finish o).0 ≡ o.0
  finish-error (none, hits) = refl
  finish-error (some no_match, hits) = refl
  finish-error (some not_prohibited, hits) = refl

  run_search-words :
      (q : SimpleQuery)
      → (run_search distance ti (as_query transform q)).0
        ≡ (if words_accepted q then none else some no_match)
  unfolding run_search
  run_search-words q =
      finish-error (search distance ti (as_query transform q) new_matches)
      ∙ search-verdict distance ti (as_query transform q) new_matches (flagged-as_query q)
      ∙ ap (λ b. if b then none else some no_match) (accepts-as_query q)

-- Parsing a query of signed words and searching the index with it gives no error exactly if the words
-- with `+` are all indexed, or one of those with `|` is, and none of those with `-` is, each by its
-- analysed text; otherwise the error is that nothing matches.
pub parse-run_search :
    (qp : QueryParser) (distance : Text → Text → ℕ) (ti : TextIndex) (q : SimpleQuery)
    → All IsWord q.wanted
    → All IsWord q.unwanted
    → (query : QueryTerm) × (parse qp (print q) ≡ ok query [])
      × ((run_search distance ti query).0 ≡ (
          if words_accepted distance ti (transform_phrase qp.unicode_lower) q
          then none
          else some no_match))
parse-run_search qp distance ti q hw hn =
    let transform = transform_phrase qp.unicode_lower in
    (as_query transform q, parse-print qp q hw hn, run_search-words distance ti transform q)
