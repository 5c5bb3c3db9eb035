-- ===== src/Index/Search/Tests.antt =====
-- A query of ikuzo/service/x/search/query_parser.go run on an index of
-- ikuzo/storage/x/memory/index_full_text.go.
use hub.Prelude.{
  ℕ, ◌≡◌, refl, Bool, true, false, ◌&&◌, none, some, [], ◌∷◌, Text, codes, text_discrete,
  ℕ_discrete, has_prefix, leb, if◌then◌else◌,
}
use hub.Analyzer.{transform_phrase}
use hub.Search.Vector.{Vectors}
use hub.Search.Query.{QueryTerm}
use hub.Search.Parser.{kind, ok}
use hub.Search.Parser.Run.{QueryParser, parse}
use hub.Search.Parser.Simple.{IsWord, SimpleQuery, print}
use hub.Index.TextIndex.{TextIndex}
use hub.Index.Search.{no_match, run_search}
use hub.Index.Search.Words.{words_accepted, parse-run_search}

words_run : Unit {0}
unfolding kind text_discrete ℕ_discrete has_prefix
words_run = tt

abbrev letter : ℕ → Bool
letter c = leb b'a' c && leb c b'z'

abbrev parser : QueryParser
parser = record {
  default_and = true;
  is_digit = λ c. false;
  is_letter = letter;
  is_number = λ c. false;
  unicode_lower = λ c. c;
  parse_float = λ t. false;
  atoi = λ t. none;
}

abbrev place : ℕ → ℕ → Vectors
place doc pos = record {
  locations = record { doc_id = doc; location = pos } ∷ [];
  docs = doc ∷ [];
  phrase_vectors = 0;
}

-- The document 1 reads "big world".
abbrev library : TextIndex
library = record {
  terms = (codes "big", place 1 1) ∷ (codes "world", place 1 2) ∷ [];
  doc_count = 1;
  docs = 1 ∷ [];
}

big-IsWord : IsWord (codes "Big")
unfolding words_run
big-IsWord = record { plain = refl; filled = refl; unquoted = refl }

world-IsWord : IsWord (codes "world")
unfolding words_run
world-IsWord = record { plain = refl; filled = refl; unquoted = refl }

hello-IsWord : IsWord (codes "hello")
unfolding words_run
hello-IsWord = record { plain = refl; filled = refl; unquoted = refl }

abbrev big_not_hello : SimpleQuery
big_not_hello = record {
  all_of = true;
  wanted = codes "Big" ∷ codes "world" ∷ [];
  unwanted = codes "hello" ∷ [];
}

abbrev apart : Text → Text → ℕ
apart a b = 9

parse-run_search_example :
    (query : QueryTerm) × (parse parser (print big_not_hello) ≡ ok query [])
    × ((run_search apart library query).0 ≡ (
        if words_accepted apart library (transform_phrase parser.unicode_lower) big_not_hello
        then none
        else some no_match))
parse-run_search_example =
    parse-run_search parser apart library big_not_hello (big-IsWord, (world-IsWord, tt))
      (hello-IsWord, tt)
