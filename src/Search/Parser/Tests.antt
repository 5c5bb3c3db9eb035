-- ===== src/Search/Parser/Tests.antt =====
-- Runs of ikuzo/service/x/search/query_parser.go on short queries, and the theorems at inputs that
-- exercise the code.
use Prim.Native.String.{String}
use hub.Prelude.{
  ℕ, ◌-◌, ◌≡◌, refl, Bool, true, false, ◌&&◌, Option, none, some, List, [], ◌∷◌, Text, codes,
  text_discrete, ℕ_discrete, leb, has, is_space, has_prefix, has_suffix, fields, fields_from, join,
  trim, trim_left, trim_right, if◌then◌else◌,
}
use hub.Analyzer.{
  find_case, fold_rune, lucene_ascii_folding, lower_rune, to_lower, transform, clean_words,
  transform_phrase,
}
use hub.Analyzer.Cases.{cases}
use hub.Search.Query.{Clauses, nil, cons, attributes, must, must_not, should}
use hub.Search.Parser.{
  Scan, Parsed, ok, panic, kind, append, set_wildcard, validate, trim_phrase, trim_func_left,
  trim_func_right, set_fuzzy, fuzzy_to_slop,
}
use hub.Search.Parser.Run.{
  QueryParser, append_clause, prepare, append_to, append_query, append_pending, set_boost,
  set_fuzziness, word, field_value, set_field, wild_card, step, run_parser, parse,
}
use hub.Search.Parser.Total.{Ended, calm, parse-Ended}
use hub.Search.Parser.Simple.{IsWord, SimpleQuery, print, as_query, token}
use hub.Search.Parser.RoundTrip.{parse-print}

parser_run : Unit {0}
unfolding kind append set_wildcard validate trim_phrase trim_func_left trim_func_right set_fuzzy
    fuzzy_to_slop append_clause prepare append_to append_query append_pending set_boost
    set_fuzziness word field_value set_field wild_card step run_parser parse text_discrete
    ℕ_discrete is_space has_prefix has_suffix has fields fields_from join trim trim_left trim_right
    cases find_case fold_rune lucene_ascii_folding lower_rune to_lower transform clean_words
    transform_phrase
parser_run = tt

abbrev digit : ℕ → Bool
digit c = leb b'0' c && leb c b'9'

abbrev letter : ℕ → Bool
letter c = leb b'a' c && leb c b'z'

abbrev digits : Text → Option ℕ
digits (c ∷ []) = if digit c then some (c - b'0') else none
digits _ = none

abbrev parser : QueryParser
parser = record {
  default_and = false;
  is_digit = digit;
  is_letter = letter;
  is_number = digit;
  unicode_lower = λ c. c;
  parse_float = λ t. true;
  atoi = digits;
}

abbrev values : Clauses → List Text
values nil = []
values (cons q rest) = (attributes q).value ∷ values rest

-- The values of the must, must-not and should clauses.
abbrev summary : Parsed → List (List Text)
summary (ok q rest) = values (must q) ∷ values (must_not q) ∷ values (should q) ∷ []
summary _ = []

abbrev scans : List String → List Scan
scans [] = []
scans (t ∷ ts) = token (codes t) ∷ scans ts

default_test :
    summary (parse parser (scans ("One" ∷ "two" ∷ [])))
    ≡ [] ∷ [] ∷ (codes "one" ∷ codes "two" ∷ []) ∷ []
unfolding parser_run
default_test = refl

-- An operator changes what the term before it was marked with.
overwritten_test :
    summary (parse parser (scans ("NOT" ∷ "one" ∷ "OR" ∷ "two" ∷ [])))
    ≡ [] ∷ [] ∷ (codes "one" ∷ codes "two" ∷ []) ∷ []
unfolding parser_run
overwritten_test = refl

-- A group with no word behind it is lost.
lost_group_test :
    summary (parse parser (scans ("(" ∷ "one" ∷ "two" ∷ ")" ∷ []))) ≡ [] ∷ [] ∷ [] ∷ []
unfolding parser_run
lost_group_test = refl

-- A fuzziness without a word is a use of nil.
nil_test : parse parser (scans ("~" ∷ [])) ≡ panic
unfolding parser_run
nil_test = refl

one-IsWord : IsWord (codes "one")
unfolding parser_run
one-IsWord = record { plain = refl; filled = refl; unquoted = refl }

two-IsWord : IsWord (codes "two")
unfolding parser_run
two-IsWord = record { plain = refl; filled = refl; unquoted = refl }

abbrev signed_words : SimpleQuery
signed_words = record {
  all_of = true;
  wanted = codes "one" ∷ [];
  unwanted = codes "two" ∷ codes "one" ∷ [];
}

parse-print_example :
    parse parser (print signed_words)
    ≡ ok (as_query (transform_phrase parser.unicode_lower) signed_words) []
parse-print_example =
    parse-print parser signed_words (one-IsWord, tt) (two-IsWord, (one-IsWord, tt))

parse-Ended_example :
    Ended
      (calm (scans ("one" ∷ "(" ∷ "two" ∷ [])))
      3
      (parse parser (scans ("one" ∷ "(" ∷ "two" ∷ [])))
parse-Ended_example = parse-Ended parser (scans ("one" ∷ "(" ∷ "two" ∷ []))
