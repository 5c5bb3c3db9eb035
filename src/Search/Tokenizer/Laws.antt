-- ===== src/Search/Tokenizer/Laws.antt =====
-- ikuzo/service/x/search/tokenizer.go: the numbers of the tokens, and that the fuel is enough.
use hub.Prelude.{
  ℕ, zero, suc, ◌+◌, ◌≤◌, ◌≡◌, refl, Bool, ◌&&◌, not, List, [], ◌∷◌, ◌++◌, Text, length,
  if◌then◌else◌, arith, ap, ◌==◌,
}
use hub.Search.Token.{Token}
use hub.Search.Tokenizer.{
  Scan, Tokenizer, take_tag, take_text, make_token, advance, run_parser, parse_loop, parse,
  reset_scanner,
}

rest-take_tag :
    (text : Text) (bytes : ℕ) (scans : List Scan)
    → length (take_tag text bytes scans).rest ≤ length scans
unfolding take_tag
rest-take_tag text bytes [] = omega arith
rest-take_tag text bytes (sc ∷ rest) = ground (
  arith,
  rest-take_tag (text ++ (sc.text ++ (if sc.space_behind then b' ' ∷ [] else [])))
      (bytes + (sc.bytes + (if sc.space_behind then 1 else 0))) rest,
)

rest-take_text : (sc : Scan) (rest : List Scan) → length (take_text sc rest).rest ≤ length rest
unfolding take_text
rest-take_text sc rest = ground (arith, rest-take_tag sc.text sc.bytes rest)

-- The tokens are numbered from the first number on, and those that are terms from the second one on;
-- the others have the number 0. All are in the document.
pub Numbered : ℕ → ℕ → ℕ → List Token → Type 0
Numbered doc k v [] = Unit
Numbered doc k v (t ∷ ts) =
    (t.vector ≡ suc k)
    × (t.doc_id ≡ doc)
    × (t.term_vector ≡ (if not t.punctuation && not t.ignored then suc v else 0))
    × Numbered doc (suc k) (if not t.punctuation && not t.ignored then suc v else v) ts

module _ (transform : Text → Text) (is_punct : ℕ → Bool) where
  parse_loop-fuel :
      (n k : ℕ) (t : Tokenizer) (scans : List Scan)
      → length scans ≤ n
      → length scans ≤ k
      → parse_loop transform is_punct n t scans ≡ parse_loop transform is_punct k t scans
  unfolding parse_loop run_parser
  parse_loop-fuel zero zero t scans hn hk = refl
  parse_loop-fuel zero (suc k) t [] hn hk = refl
  parse_loop-fuel zero (suc k) t (sc ∷ rest) hn hk = absurd (omega (arith, hn))
  parse_loop-fuel (suc n) zero t [] hn hk = refl
  parse_loop-fuel (suc n) zero t (sc ∷ rest) hn hk = absurd (omega (arith, hk))
  parse_loop-fuel (suc n) (suc k) t [] hn hk = refl
  parse_loop-fuel (suc n) (suc k) t (sc ∷ rest) hn hk =
      let taken = take_text sc rest in
      let token = make_token transform is_punct t sc taken in
      let less = rest-take_text sc rest in
      ap (λ ts. token ∷ ts)
        (parse_loop-fuel n k (advance transform is_punct t token) taken.rest
          (omega (arith, less, hn)) (omega (arith, less, hk)))

  parse_loop-Numbered :
      (n : ℕ) (t : Tokenizer) (scans : List Scan)
      → Numbered t.doc_id t.token_vector t.term_vector (parse_loop transform is_punct n t scans)
  unfolding parse_loop run_parser make_token advance Numbered
  parse_loop-Numbered zero t scans = tt
  parse_loop-Numbered (suc n) t [] = tt
  parse_loop-Numbered (suc n) t (sc ∷ rest) =
      let taken = take_text sc rest in
      let token = make_token transform is_punct t sc taken in
      (refl, refl, refl, parse_loop-Numbered n (advance transform is_punct t token) taken.rest)

  -- Any fuel from the number of scans on gives the tokens of `Parse`, and they are numbered from 1 on,
  -- the terms among them too, whatever the tokenizer read before.
  pub parse-Numbered :
      (t : Tokenizer) (scans : List Scan) (doc_id n : ℕ)
      → length scans ≤ n
      → (parse_loop transform is_punct n
            (record t {
              term_vector = 0;
              token_vector = 0;
              doc_id = (parse transform is_punct t scans doc_id).1;
            })
            scans
          ≡ (parse transform is_punct t scans doc_id).0)
        × Numbered
            (parse transform is_punct t scans doc_id).1
            0
            0
            (parse transform is_punct t scans doc_id).0
  unfolding parse reset_scanner
  parse-Numbered t scans doc_id n h =
      let t' : Tokenizer = record {
        term_vector = 0;
        token_vector = 0;
        doc_id = if doc_id == 0 then suc t.doc_id else doc_id;
      } in
      (
        parse_loop-fuel n (length scans) t' scans h (omega arith),
        parse_loop-Numbered (length scans) t' scans,
      )
