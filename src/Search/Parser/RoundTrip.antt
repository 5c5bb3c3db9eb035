-- ===== src/Search/Parser/RoundTrip.antt =====
-- ikuzo/service/x/search/query_parser.go: the round trip of signed words.
use hub.Prelude.{
  ℕ, zero, suc, ◌<◌, ◌≡◌, refl, Bool, true, false, none, some, List, [], ◌∷◌, Text, codes, length,
  arith, ap, ◌∙◌, sym, All,
}
use hub.Analyzer.{transform_phrase}
use hub.Search.Query.{Attributes, QueryTerm, Clauses, query_term, nil, cons, null}
use hub.Search.Parser.{
  Operator, nil_operator, and_operator, or_operator, not_operator, ok, no_attributes,
  new_query_term, append,
}
use hub.Search.Parser.Run.{
  QueryParser, append_clause, prepare, append_to, append_query, append_pending, run_parser, parse,
}
use hub.Search.Parser.Simple.{
  IsWord, SimpleQuery, token, signed, wanted_sign, print, wanted_operator, word_term, word_clauses,
  as_query, fresh, append_all, run-sign, run-minus, run-minus_none, run-word, run-next_word,
  run-end,
}

module _ (qp : QueryParser) where
  -- Behind the first of the words that are not wanted.
  run-unwanted :
      (ns : List Text) (w : Text) (op : Operator) (n : ℕ) (q : QueryTerm)
      → IsWord w
      → All IsWord ns
      → length (signed (codes "-") ns []) < n
      → run_parser qp n q op (some (fresh qp w)) (signed (codes "-") ns [])
        ≡ ok (append_all qp not_operator ns (append_query qp op (fresh qp w) q)) []
  run-unwanted [] w op zero q h hs lt = absurd (omega (arith, lt))
  run-unwanted [] w op (suc n) q h hs lt = run-end qp n q op w h
  run-unwanted (x ∷ ns) w op zero q h hs lt = absurd (omega (arith, lt))
  run-unwanted (x ∷ ns) w op (suc zero) q h hs lt = absurd (omega (arith, lt))
  run-unwanted (x ∷ ns) w op (suc (suc n)) q h hs lt =
      run-minus qp (suc n) q op (fresh qp w) (token x ∷ signed (codes "-") ns [])
      ∙ run-word qp n (append_query qp op (fresh qp w) q) not_operator x (signed (codes "-") ns [])
          hs.0
      ∙ run-unwanted ns x not_operator n (append_query qp op (fresh qp w) q) hs.0 hs.1
          (omega (arith, lt))

  -- Behind the first of the words that are wanted.
  run-wanted :
      (all_of : Bool) (ws ns : List Text) (w : Text) (n : ℕ) (q : QueryTerm)
      → IsWord w
      → All IsWord ws
      → All IsWord ns
      → length (signed (wanted_sign all_of) ws (signed (codes "-") ns [])) < n
      → run_parser qp n q
          (wanted_operator all_of)
          (some (fresh qp w))
          (signed (wanted_sign all_of) ws (signed (codes "-") ns []))
        ≡ ok (append_all qp not_operator ns (append_all qp (wanted_operator all_of) (w ∷ ws) q)) []
  run-wanted all_of [] ns w n q h hs hn lt = run-unwanted ns w (wanted_operator all_of) n q h hn lt
  run-wanted all_of (x ∷ ws) ns w zero q h hs hn lt = absurd (omega (arith, lt))
  run-wanted all_of (x ∷ ws) ns w (suc zero) q h hs hn lt = absurd (omega (arith, lt))
  run-wanted all_of (x ∷ ws) ns w (suc (suc n)) q h hs hn lt =
      let op = wanted_operator all_of in
      let rest = signed (wanted_sign all_of) ws (signed (codes "-") ns []) in
      run-sign qp all_of (suc n) q op (some (fresh qp w)) (token x ∷ rest)
      ∙ run-next_word qp all_of n q w x rest h hs.0
      ∙ run-wanted all_of ws ns x n (append_query qp op (fresh qp w) q) hs.0 hs.1 hn
          (omega (arith, lt))

  -- The clauses that the words end up in.
  concat : Clauses → Clauses → Clauses
  concat nil c = c
  concat (cons q rest) c = cons q (concat rest c)

  concat-nil : (c : Clauses) → concat c nil ≡ c
  unfolding concat
  concat-nil nil = refl
  concat-nil (cons q rest) = ap (λ x. cons q x) (concat-nil rest)

  concat-append :
      (m : Clauses) (q : QueryTerm) (c : Clauses) → concat (append m q) c ≡ concat m (cons q c)
  unfolding concat append
  concat-append nil q c = refl
  concat-append (cons p rest) q c = ap (λ x. cons p x) (concat-append rest q c)

  abbrev clauses_of : Bool → List Text → Clauses
  clauses_of = word_clauses (transform_phrase qp.unicode_lower)

  append_all-and :
      (ws : List Text) (a : Attributes) (m n s : Clauses)
      → append_all qp and_operator ws (query_term a m n s null)
        ≡ query_term a (concat m (clauses_of false ws)) n s null
  unfolding append_query append_to append_clause prepare
  append_all-and [] a m n s = ap (λ x. query_term a x n s null) (sym (concat-nil m))
  append_all-and (w ∷ ws) a m n s =
      let t = word_term (transform_phrase qp.unicode_lower w) false in
      append_all-and ws a (append m t) n s
      ∙ ap (λ x. query_term a x n s null) (concat-append m t (clauses_of false ws))

  append_all-or :
      (ws : List Text) (a : Attributes) (m n s : Clauses)
      → append_all qp or_operator ws (query_term a m n s null)
        ≡ query_term a m n (concat s (clauses_of false ws)) null
  unfolding append_query append_to append_clause prepare
  append_all-or [] a m n s = ap (λ x. query_term a m n x null) (sym (concat-nil s))
  append_all-or (w ∷ ws) a m n s =
      let t = word_term (transform_phrase qp.unicode_lower w) false in
      append_all-or ws a m n (append s t)
      ∙ ap (λ x. query_term a m n x null) (concat-append s t (clauses_of false ws))

  append_all-not :
      (ws : List Text) (a : Attributes) (m n s : Clauses)
      → append_all qp not_operator ws (query_term a m n s null)
        ≡ query_term a m (concat n (clauses_of true ws)) s null
  unfolding append_query append_to append_clause prepare
  append_all-not [] a m n s = ap (λ x. query_term a m x s null) (sym (concat-nil n))
  append_all-not (w ∷ ws) a m n s =
      let t = word_term (transform_phrase qp.unicode_lower w) true in
      append_all-not ws a m (append n t) s
      ∙ ap (λ x. query_term a m x s null) (concat-append n t (clauses_of true ws))

  append_all-as_query :
      (all_of : Bool) (ws ns : List Text)
      → append_all qp not_operator ns (append_all qp (wanted_operator all_of) ws new_query_term)
        ≡ as_query
            (transform_phrase qp.unicode_lower)
            (record { all_of = all_of; wanted = ws; unwanted = ns })
  unfolding concat
  append_all-as_query true ws ns =
      ap (append_all qp not_operator ns) (append_all-and ws no_attributes nil nil nil)
      ∙ append_all-not ns no_attributes (clauses_of false ws) nil nil
  append_all-as_query false ws ns =
      ap (append_all qp not_operator ns) (append_all-or ws no_attributes nil nil nil)
      ∙ append_all-not ns no_attributes nil nil (clauses_of false ws)

  parse-signed :
      (all_of : Bool) (ws ns : List Text)
      → All IsWord ws
      → All IsWord ns
      → parse qp (print (record { all_of = all_of; wanted = ws; unwanted = ns }))
        ≡ ok
            (append_all qp not_operator ns
              (append_all qp (wanted_operator all_of) ws new_query_term))
            []
  unfolding parse
  parse-signed all_of [] [] hw hn = unfold run_parser append_pending in refl
  parse-signed all_of [] (x ∷ ns) hw hn =
      let rest = signed (codes "-") ns [] in
      run-minus_none qp (suc (suc (length rest))) new_query_term nil_operator (token x ∷ rest)
      ∙ run-word qp (suc (length rest)) new_query_term not_operator x rest hn.0
      ∙ run-unwanted ns x not_operator (suc (length rest)) new_query_term hn.0 hn.1 (omega arith)
  parse-signed all_of (w ∷ ws) ns hw hn =
      let rest = signed (wanted_sign all_of) ws (signed (codes "-") ns []) in
      let op = wanted_operator all_of in
      run-sign qp all_of (suc (suc (length rest))) new_query_term nil_operator none (token w ∷ rest)
      ∙ run-word qp (suc (length rest)) new_query_term op w rest hw.0
      ∙ run-wanted all_of ws ns w (suc (length rest)) new_query_term hw.0 hw.1 hn (omega arith)

  -- A query of words, each with the sign `+` or each with the sign `|`, and behind them words with the
  -- sign `-`, is read back: the first are must or should clauses in their order, the last are
  -- prohibited must-not clauses, all with their analysed text, and nothing is left.
  pub parse-print :
      (q : SimpleQuery)
      → All IsWord q.wanted
      → All IsWord q.unwanted
      → parse qp (print q) ≡ ok (as_query (transform_phrase qp.unicode_lower) q) []
  parse-print q hw hn =
      parse-signed q.all_of q.wanted q.unwanted hw hn
      ∙ ap (λ x. ok x []) (append_all-as_query q.all_of q.wanted q.unwanted)
