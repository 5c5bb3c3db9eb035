-- ===== src/Index/Tests.antt =====
-- Runs of ikuzo/storage/x/memory on small inputs, and the theorems at inputs that exercise the code.
use hub.Prelude.{
  All, ℕ, ◌≡◌, refl, true, false, none, some, List, [], ◌∷◌, ite, Text, codes, text_discrete,
  ℕ_discrete, has, insert, get, put, if◌then◌else◌, fields, fields_from, is_space, has_prefix,
  has_suffix, join,
}
use hub.Search.Vector
use hub.Search.Vector.{
  Vector, Vectors, new_vectors, vector_discrete, has_vector, add_vector, add, add_phrase_vector,
  merge_from,
}
use hub.Search.Phrase.{valid_phrase_position, positions_from}
use hub.Search.Matches
use hub.Search.Matches.{Matches, new_matches, append_term, merge_vectors}
use hub.Search.Query.{Attributes, QueryTerm, query_term, nil, cons, null, query_type, is_bool_query}
use hub.Search.Token.{Token}
use hub.Index.TextIndex.{
  TextIndex, new_text_index, set_doc_id, next_doc_id, append_bytes, append_string, append_tokens,
  add_term, set_term_vector, empty_string,
}
use hub.Index.TextIndex.Laws.{
  stands, lacks_text, IsStored, append_string-IsStored, append_bytes-error, stands-append_string,
}
use hub.Index.TextIndex.Valid.{
  IsWellFormed, new_text_index-IsWellFormed, append_string-IsWellFormed,
}
use hub.Index.Match.{
  match, match_type, match_term, match_terms, match_wildcard, match_fuzzy, match_phrase,
  match_phrase_words, match_words, follow, follow_all, phrase_result, sort_and_count_phrases,
  count_docs, count_doc, count_phrase, add_phrase_vectors, sort_slice, sort_insert, group,
  append_terms, is_fuzzy_match,
}
use hub.Index.Match.Verdict.{term_matches, match-verdict}
use hub.Index.Search.{no_match, search, run_search}
use hub.Index.Search.Verdict.{flagged, accepts, search-verdict}
use hub.Index.Search.Sound.{indexed, run_search-indexed}

-- What a run opens.
index_run : Unit {0}
unfolding has insert vector_discrete text_discrete ℕ_discrete get put fields fields_from is_space
    has_prefix has_suffix join add_vector add_phrase_vector has_vector merge_from Vector.merge
    Vector.size new_vectors valid_phrase_position positions_from append_term merge_vectors
    new_matches Matches.reset match match_type match_term match_terms match_wildcard match_fuzzy
    match_phrase match_phrase_words match_words follow follow_all phrase_result
    sort_and_count_phrases count_docs count_doc count_phrase add_phrase_vectors sort_slice
    sort_insert group append_terms is_fuzzy_match search run_search query_type is_bool_query
index_run = tt

filling_run : Unit {0}
unfolding new_text_index set_doc_id next_doc_id append_bytes append_string append_tokens add_term
    set_term_vector text_discrete ℕ_discrete
filling_run = tt

abbrev place : ℕ → ℕ → Vectors
place doc pos = record {
  locations = record { doc_id = doc; location = pos } ∷ [];
  docs = doc ∷ [];
  phrase_vectors = 0;
}

-- The document 1 reads "hello big world".
abbrev library : TextIndex
library = record {
  terms = (codes "hello", place 1 1) ∷ (codes "big", place 1 2) ∷ (codes "world", place 1 3) ∷ [];
  doc_count = 1;
  docs = 1 ∷ [];
}

-- A distance that only tells equal texts from others.
abbrev rough : Text → Text → ℕ
rough a b = ite (text_discrete a b) 0 9

abbrev plain : Text → Attributes
plain value = record {
  field = [];
  value = value;
  prohibited = false;
  phrase = false;
  suffix_wildcard = false;
  prefix_wildcard = false;
  boost = none;
  fuzzy = 0;
  slop = 0;
}

abbrev leaf : Attributes → QueryTerm
leaf a = query_term a nil nil nil null

-- `+world -absent "big world"`
abbrev query : QueryTerm
query =
    query_term (plain []) (cons (leaf (plain (codes "world"))) nil)
      (cons (leaf (record (plain (codes "absent")) { prohibited = true })) nil)
      (cons (leaf (record (plain (codes "big world")) { phrase = true })) nil) null

query_found : (run_search rough library query).0 ≡ none
unfolding index_run
query_found = refl

query_hit :
    has_vector (run_search rough library query).1.term_vectors (record { doc_id = 1; location = 3 })
    ≡ true
unfolding index_run
query_hit = refl

search-verdict_example :
    (search rough library query new_matches).0
    ≡ (if accepts rough library query then none else some no_match)
unfolding flagged query_type is_bool_query
search-verdict_example = search-verdict rough library query new_matches refl

match-verdict_example :
    (match rough library (leaf (plain (codes "world"))) new_matches).0
    ≡ term_matches rough library (leaf (plain (codes "world")))
match-verdict_example = match-verdict rough library (leaf (plain (codes "world"))) new_matches

run_search-indexed_example : indexed library (record { doc_id = 1; location = 3 }) ≡ true
run_search-indexed_example =
    run_search-indexed rough library query (record { doc_id = 1; location = 3 }) query_hit

-- "hello" and a lone quote, as the tokenizer reads them.
abbrev token : ℕ → Text → Text → Token
token n raw normal = record {
  vector = n;
  term_vector = n;
  offset_start = 0;
  offset_end = 0;
  ignored = false;
  raw_text = raw;
  normal = normal;
  trailing_space = false;
  punctuation = false;
  doc_id = 1;
}

abbrev tokens : ℕ → List Token
tokens id = token 1 (codes "hello") (codes "hello") ∷ token 2 (codes "'") [] ∷ []

-- An analyzer that drops quotes.
abbrev analyze : Text → Text
analyze w = ite (text_discrete w (codes "'")) [] w

string_fine : (append_string analyze new_text_index none tokens).1 ≡ none
unfolding filling_run
string_fine = refl

bytes_refused : (append_bytes analyze new_text_index none tokens).1 ≡ some empty_string
unfolding filling_run
bytes_refused = refl

append_string-IsStored_example :
    All
      (IsStored analyze (λ t. t.raw_text) (append_string analyze new_text_index none tokens).0 1)
      (tokens 1)
unfolding filling_run
append_string-IsStored_example =
    append_string-IsStored analyze new_text_index none tokens string_fine

append_string-IsWellFormed_example :
    IsWellFormed (append_string analyze new_text_index (some 7) tokens).0
append_string-IsWellFormed_example =
    append_string-IsWellFormed analyze new_text_index (some 7) tokens new_text_index-IsWellFormed

append_bytes-error_example : (append_bytes analyze library (some 5) tokens).1 ≡ (
    if lacks_text analyze (λ t. t.normal) (tokens (set_doc_id library (some 5)).1)
    then some empty_string
    else none)
append_bytes-error_example = append_bytes-error analyze library (some 5) tokens

stands-append_string_example :
    stands
      (append_string analyze library none tokens).0
      (codes "big")
      (record { doc_id = 1; location = 2 })
    ≡ true
unfolding index_run
stands-append_string_example =
    stands-append_string analyze library none tokens (codes "big")
      (record { doc_id = 1; location = 2 }) refl
