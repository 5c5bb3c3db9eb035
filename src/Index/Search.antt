-- ===== src/Index/Search.antt =====
-- ikuzo/storage/x/memory/index_full_text.go: the search of a query tree. An `error` is an optional
-- `SearchError`; the hits are changed in place, so they are passed on also behind an error.
pub mod Verdict
pub mod Sound
pub mod Words
mod Tests
use hub.Prelude.{ℕ, Bool, not, true, false, Option, none, some, Text, if◌then◌else◌}
use hub.Search.Matches
use hub.Search.Matches.{Matches, new_matches}
use hub.Search.Query.{
  QueryTerm, query_term, Clauses, nil, cons, QueryType, bool_query, query_type, attributes,
  is_empty,
}
use hub.Index.TextIndex.{TextIndex}
use hub.Index.Match.{match}

pub data SearchError : Type 0 where
  no_match not_prohibited : SearchError

abbrev pub Outcome : Type 0
Outcome = Option SearchError × Matches

-- `if err := …; err != nil { return err }`
abbrev pub and_then : Outcome → (Matches → Outcome) → Outcome
and_then (none, hits) next = next hits
and_then (some e, hits) next = (some e, hits)

abbrev pub is_bool : QueryType → Bool
is_bool bool_query = true
is_bool _ = false

-- `if ok := ti.match(…); !ok { return ErrSearchNoMatch }`
abbrev pub require : Bool × Matches → (Matches → Outcome) → Outcome
require (true, hits) next = next hits
require (false, hits) next = (some no_match, hits)

-- `if ok := ti.match(…); ok { matched = true }`
abbrev pub note : Bool × Matches → Bool → (Bool → Matches → Outcome) → Outcome
note (ok, hits) matched next = next (if ok then true else matched) hits

-- The end of `searchShould`.
abbrev pub should_result : Bool → Matches → Outcome
should_result true hits = (none, hits)
should_result false hits = (some no_match, hits)

-- The end of `Search`: the hits are dropped where nothing matches.
abbrev pub finish : Outcome → Outcome
finish (none, hits) = (none, hits)
finish (some no_match, hits) = (some no_match, Matches.reset hits)
finish (some not_prohibited, hits) = (some not_prohibited, hits)

module _ (distance : Text → Text → ℕ) (ti : TextIndex) where
  unfoldable mutual
    pub search : QueryTerm → Matches → Outcome
    search (query_term a must must_not should nested) hits =
        and_then (search_must_not must_not hits) (λ h.
          and_then (search_must must h)
            (λ h'. if is_empty should then (none, h') else search_should should false h'))

    pub search_must_not : Clauses → Matches → Outcome
    search_must_not nil hits = (none, hits)
    search_must_not (cons qt rest) hits =
        if is_bool (query_type qt)
        then and_then (search qt hits) (λ h. search_must_not rest h)
        else if not (attributes qt).prohibited
        then (some not_prohibited, hits)
        else require (match distance ti qt hits) (λ h. search_must_not rest h)

    pub search_must : Clauses → Matches → Outcome
    search_must nil hits = (none, hits)
    search_must (cons qt rest) hits =
        if is_bool (query_type qt)
        then and_then (search qt hits) (λ h. search_must rest h)
        else require (match distance ti qt hits) (λ h. search_must rest h)

    pub search_should : Clauses → Bool → Matches → Outcome
    search_should nil matched hits = should_result matched hits
    search_should (cons qt rest) matched hits =
        if is_bool (query_type qt)
        then and_then (search qt hits) (λ h. search_should rest matched h)
        else note (match distance ti qt hits) matched (λ m h. search_should rest m h)

  -- `Search`
  unfoldable pub run_search : QueryTerm → Outcome
  run_search query = finish (search query new_matches)
