-- ===== src/Search/Tokenizer.antt =====
-- ikuzo/service/x/search/tokenizer.go: the tokenizer. text/scanner is a parameter: its input is the list
-- of what the calls of `Scan` return until the end of the text, each with what `TokenText`, `Position`
-- and `IsSpace(Peek())` give behind it. `transform` stands for `Analyzer.Transform`, `is_punct` for
-- `unicode.IsPunct`. The errors of the scanner, which are only logged, are left out.
pub mod Laws
mod Tests
use hub.Prelude.{
  ℕ, zero, suc, ◌+◌, ◌-◌, ◌==◌, Bool, true, false, ◌&&◌, ◌||◌, not, Option, none, some, List, [],
  ◌∷◌, ◌++◌, Text, length, if◌then◌else◌, is_blank, text_discrete, ite,
}
use hub.Search.Token.{Token}

-- The rune is `none` where `Scan` returns a class of tokens, such as an identifier. `bytes` is the
-- length of the text in bytes.
pub record Scan : Type 0 where
  pub rune : Option ℕ
  pub text : Text
  pub bytes : ℕ
  pub offset : ℕ
  pub space_behind : Bool

pub record Tokenizer : Type 0 where
  pub term_vector : ℕ
  pub token_vector : ℕ
  pub doc_id : ℕ

unfoldable pub new_tokenizer : Tokenizer
new_tokenizer = record { term_vector = 0; token_vector = 0; doc_id = 0 }

unfoldable pub reset_scanner : Tokenizer → Tokenizer
reset_scanner t = record t { term_vector = 0; token_vector = 0 }

-- The text of a token, its bytes, whether a space is behind it, and the scans that are left.
pub record Taken : Type 0 where
  pub text : Text
  pub bytes : ℕ
  pub space_behind : Bool
  pub rest : List Scan

-- `takeTag`: up to the next `>` or the end of the text, where there is no space behind.
unfoldable pub take_tag : Text → ℕ → List Scan → Taken
take_tag text bytes [] = record { text = text; bytes = bytes; space_behind = false; rest = [] }
take_tag text bytes (sc ∷ rest) =
    let text' = text ++ (sc.text ++ (if sc.space_behind then b' ' ∷ [] else [])) in
    let bytes' = bytes + (sc.bytes + (if sc.space_behind then 1 else 0)) in
    ite (text_discrete sc.text (b'>' ∷ []))
      (record { text = text'; bytes = bytes'; space_behind = sc.space_behind; rest = rest })
      (take_tag text' bytes' rest)

unfoldable pub is_tag : Scan → Bool
is_tag sc = ite (text_discrete sc.text (b'<' ∷ [])) true false

unfoldable pub take_text : Scan → List Scan → Taken
take_text sc rest =
    if is_tag sc
    then take_tag sc.text sc.bytes rest
    else record { text = sc.text; bytes = sc.bytes; space_behind = sc.space_behind; rest = rest }

module _ (transform : Text → Text) (is_punct : ℕ → Bool) where
  abbrev pub punctuation_rune : Option ℕ → Bool
  punctuation_rune none = false
  punctuation_rune (some c) = is_punct c

  unfoldable pub make_token : Tokenizer → Scan → Taken → Token
  make_token t sc taken =
      let punctuation = taken.bytes == 1 && punctuation_rune sc.rune in
      let ignored = is_tag sc || punctuation in
      record {
        vector = suc t.token_vector;
        term_vector = if not punctuation && not ignored then suc t.term_vector else 0;
        offset_start = sc.offset;
        offset_end = sc.offset + (taken.bytes - 1);
        ignored = ignored;
        raw_text = taken.text;
        normal = if ignored then [] else transform taken.text;
        trailing_space = taken.space_behind;
        punctuation = punctuation;
        doc_id = t.doc_id;
      }

  -- The counters behind a token.
  unfoldable pub advance : Tokenizer → Token → Tokenizer
  advance t token = record t {
    token_vector = suc t.token_vector;
    term_vector =
        if not token.punctuation && not token.ignored then suc t.term_vector else t.term_vector;
  }

  unfoldable pub run_parser : Tokenizer → Scan → List Scan → Token × Tokenizer × List Scan
  run_parser t sc rest =
      let taken = take_text sc rest in
      let token = make_token t sc taken in (token, advance t token, taken.rest)

  -- The loop of `Parse`, on fuel: each round takes a scan at least.
  unfoldable pub parse_loop : ℕ → Tokenizer → List Scan → List Token
  parse_loop zero t scans = []
  parse_loop (suc n) t [] = []
  parse_loop (suc n) t (sc ∷ rest) = let r = run_parser t sc rest in r.0 ∷ parse_loop n r.1 r.2

  -- `Parse`: the tokens and the tokenizer's number of the document.
  unfoldable pub parse : Tokenizer → List Scan → ℕ → List Token × ℕ
  parse t scans doc_id =
      let t' = reset_scanner t in
      let id = if doc_id == 0 then suc t.doc_id else doc_id in
      (parse_loop (length scans) (record t' { doc_id = id }) scans, id)
