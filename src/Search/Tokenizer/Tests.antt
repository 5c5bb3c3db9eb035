-- ===== src/Search/Tokenizer/Tests.antt =====
-- Runs of ikuzo/service/x/search/tokenizer.go on a short text, and the theorems at inputs that exercise
-- the code.
use hub.Prelude.{
  ℕ, ◌≡◌, ◌≤◌, refl, Bool, true, false, none, some, List, [], ◌∷◌, Text, codes, length, map,
  text_discrete, ℕ_discrete, has, insert, arith, ◌==◌,
}
use hub.Search.Vector
use hub.Search.Vector.{Vector, Vectors, new_vectors, vector_discrete, has_vector, add_vector}
use hub.Search.Token.{Token, get_term_vector}
use hub.Search.Tokenizer.{
  Scan, new_tokenizer, reset_scanner, take_tag, take_text, is_tag, make_token, advance, run_parser,
  parse_loop, parse,
}
use hub.Search.Tokenizer.Laws.{Numbered, parse-Numbered}
use hub.Search.Highlight.{
  highlight, highlight_tokens, highlight_round, write_token, close_before, string, render,
  set_default_tags,
}
use hub.Search.Highlight.Laws.{track, raws, highlight_lem}

tokenizer_run : Unit {0}
unfolding new_tokenizer reset_scanner take_tag take_text is_tag make_token advance run_parser
    parse_loop parse text_discrete ℕ_discrete has insert vector_discrete has_vector add_vector
    new_vectors Vector.size get_term_vector highlight highlight_tokens highlight_round write_token
    close_before string render set_default_tags
tokenizer_run = tt

abbrev word : Text → ℕ → ℕ → Bool → Scan
word text bytes offset space_behind = record {
  rune = none;
  text = text;
  bytes = bytes;
  offset = offset;
  space_behind = space_behind;
}

abbrev sign : ℕ → ℕ → Scan
sign c offset = record {
  rune = some c;
  text = c ∷ [];
  bytes = 1;
  offset = offset;
  space_behind = false;
}

-- `<p>one two.`
abbrev scans : List Scan
scans =
    sign (b'<') 0
    ∷ word (codes "p") 1 1 false
    ∷ sign (b'>') 2
    ∷ word (codes "one") 3 3 true
    ∷ word (codes "two") 3 7 false
    ∷ sign (b'.') 10
    ∷ []

abbrev same_text : Text → Text
same_text s = s

abbrev is_dot : ℕ → Bool
is_dot c = c == b'.'

abbrev tokens : List Token
tokens = (parse same_text is_dot new_tokenizer scans 7).0

raw_test : map (λ t. t.raw_text) tokens ≡ codes "<p>" ∷ codes "one" ∷ codes "two" ∷ codes "." ∷ []
unfolding tokenizer_run
raw_test = refl

numbers_test : map (λ t. t.term_vector) tokens ≡ 0 ∷ 1 ∷ 2 ∷ 0 ∷ []
unfolding tokenizer_run
numbers_test = refl

fuel_left : length scans ≤ 9
fuel_left = omega arith

parse-Numbered_example :
    (parse_loop same_text is_dot 9
        (record new_tokenizer {
          term_vector = 0;
          token_vector = 0;
          doc_id = (parse same_text is_dot new_tokenizer scans 7).1;
        })
        scans
      ≡ (parse same_text is_dot new_tokenizer scans 7).0)
    × Numbered
        (parse same_text is_dot new_tokenizer scans 7).1
        0
        0
        (parse same_text is_dot new_tokenizer scans 7).0
parse-Numbered_example = parse-Numbered same_text is_dot new_tokenizer scans 7 9 fuel_left

abbrev hits : Vectors
hits = add_vector new_vectors (record { doc_id = 7; location = 2 })

highlight_example :
    (track false (highlight hits tokens) ≡ some false)
    × (raws (highlight hits tokens) ≡ map (λ t. t.raw_text) tokens)
highlight_example = highlight_lem hits tokens

highlight_test :
    render (set_default_tags [] (codes "hit")) (highlight hits tokens)
    ≡ codes "<p>one <em class=\"hit\">two.</em>"
unfolding tokenizer_run
highlight_test = refl
