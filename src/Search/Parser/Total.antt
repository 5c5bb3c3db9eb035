-- ===== src/Search/Parser/Total.antt =====
-- ikuzo/service/x/search/query_parser.go: how the parser ends.
use hub.Prelude.{
  ℕ, zero, suc, ◌≤◌, ◌<◌, ◌≡◌, refl, Bool, true, false, ◌&&◌, Option, none, some, List, [], ◌∷◌,
  Text, length, if◌then◌else◌, arith, Option-cases, inl, inr, if-intro,
}
use hub.Search.Query.{Attributes, QueryTerm}
use hub.Search.Parser.{
  Scan, Operator, nil_operator, and_operator, or_operator, not_operator, Kind, or_kind, and_kind,
  not_kind, boost_kind, fuzzy_kind, wild_card_kind, field_kind, open_kind, close_kind, word_kind,
  kind, Parsed, ok, failed, panic, out_of_fuel, new_query_term, take_rest, take_text, Change,
  changed, refused, nil_pointer, boost_error, satisfies, space_or_end, set_fuzzy, fuzzy_to_slop,
  assign, set_wildcard, with_attributes, value_to_field,
}
use hub.Search.Parser.Run.{
  QueryParser, append_query, set_boost, set_fuzziness, number_change, is_close, set_value, Call,
  go_on, word, field_value, set_field, behind_group, wild_card, negate, step, run_parser, parse,
}

-- A token that `^`, `~` or `:` is not.
abbrev pub is_calm : Kind → Bool
is_calm boost_kind = false
is_calm fuzzy_kind = false
is_calm field_kind = false
is_calm _ = true

abbrev pub calm : List Scan → Bool
calm [] = true
calm (sc ∷ rest) = is_calm (kind sc.text) && calm rest

-- The parser has ended, with at most that many tokens left; if the tokens are calm, with a query and
-- calm tokens.
abbrev Leaves : Bool → ℕ → Parsed → Type 0
Leaves b n (ok q rest) = (length rest ≤ n) × (b ≡ true → calm rest ≡ true)
Leaves b n (failed e) = b ≡ false
Leaves b n panic = b ≡ false
Leaves b n out_of_fuel = Path Bool true false

-- The parser has ended, with at most that many tokens left, and with a query if the flag is set.
abbrev pub Ended : Bool → ℕ → Parsed → Type 0
Ended b n (ok q rest) = length rest ≤ n
Ended b n (failed e) = b ≡ false
Ended b n panic = b ≡ false
Ended b n out_of_fuel = Path Bool true false

Leaves-Ended : (b : Bool) (n : ℕ) (p : Parsed) → Leaves b n p → Ended b n p
Leaves-Ended b n (ok q rest) h = h.0
Leaves-Ended b n (failed e) h = h
Leaves-Ended b n panic h = h
Leaves-Ended b n out_of_fuel h = h

Leaves-weaken :
    (b b' : Bool) (k n : ℕ) (p : Parsed)
    → k ≤ n
    → (b' ≡ true → b ≡ true)
    → Leaves b k p
    → Leaves b' n p
Leaves-weaken b b' k n (ok q rest) le f h = (omega (arith, le, h.0), λ y. h.1 (f y))
Leaves-weaken b b' k n (failed e) le f h = ground arith
Leaves-weaken b b' k n panic le f h = ground arith
Leaves-weaken b b' k n out_of_fuel le f h = h

-- What is left behind a change of the term.
abbrev Fits : ℕ → Change → Type 0
Fits n (changed qt rest) = length rest ≤ n
Fits n (refused e) = Unit
Fits n nil_pointer = Unit

take_rest-length : (rest : List Scan) → length (take_rest rest) ≤ length rest
take_rest-length [] = omega arith
take_rest-length (sc ∷ rest) = omega arith

assign-Fits :
    (f : Attributes → Attributes) (qt : Option QueryTerm) (rest : List Scan) (n : ℕ)
    → length rest ≤ n
    → Fits n (assign f qt rest)
assign-Fits f none rest n h = tt
assign-Fits f (some qt) rest n h = h

module _ (qp : QueryParser) where
  set_boost-Fits :
      (qt : Option QueryTerm) (sc : Scan) (rest : List Scan)
      → Fits (length rest) (set_boost qp qt sc rest)
  unfolding set_boost
  set_boost-Fits qt sc rest =
      let set = assign (λ a. record a { boost = some (take_text rest) }) qt (take_rest rest) in
      let parsed = if qp.parse_float (take_text rest) then set else refused boost_error in
      if-intro (Fits (length rest)) (satisfies qp.is_digit sc.next) parsed (changed qt rest)
        (λ _.
          if-intro (Fits (length rest)) (qp.parse_float (take_text rest)) set (refused boost_error)
            (λ _.
              assign-Fits (λ a. record a { boost = some (take_text rest) }) qt (take_rest rest)
                (length rest) (take_rest-length rest))
            (λ _. tt))
        (λ _. omega arith)

  number-Fits :
      (o : Option ℕ) (qt : Option QueryTerm) (rest : List Scan)
      → Fits (length rest) (number_change qp o qt rest)
  number-Fits none qt rest = tt
  number-Fits (some n) qt rest =
      assign-Fits _ qt (take_rest rest) (length rest) (take_rest-length rest)

  set_fuzziness-Fits :
      (qt : Option QueryTerm) (sc : Scan) (rest : List Scan)
      → Fits (length rest) (set_fuzziness qp qt sc rest)
  unfolding set_fuzziness
  set_fuzziness-Fits qt sc rest =
      let two = assign (set_fuzzy 2) qt rest in
      let kept = assign fuzzy_to_slop qt rest in
      if-intro (Fits (length rest)) (satisfies qp.is_digit sc.next)
        (number_change qp (qp.atoi (take_text rest)) qt rest)
        (if space_or_end sc.next then two else kept)
        (λ _. number-Fits (qp.atoi (take_text rest)) qt rest)
        (λ _.
          if-intro (Fits (length rest)) (space_or_end sc.next) two kept
            (λ _. assign-Fits (set_fuzzy 2) qt rest (length rest) (omega arith))
            (λ _. assign-Fits fuzzy_to_slop qt rest (length rest) (omega arith)))

  -- A call ends on fewer tokens than the number.
  abbrev EndsBelow : ℕ → Call qp → Type 0
  EndsBelow n again =
      (q : QueryTerm) (op : Operator) (qt : Option QueryTerm) (scans : List Scan)
      → length scans < n
      → Leaves (calm scans) (length scans) (again q op qt scans)

  module _ (n : ℕ) (again : Call qp) (ih : EndsBelow n again) where
    call-Leaves :
        (b : Bool) (q : QueryTerm) (op : Operator) (qt : Option QueryTerm) (rest : List Scan)
        (k : ℕ)
        → length rest < n
        → length rest ≤ k
        → (b ≡ true → calm rest ≡ true)
        → Leaves b k (again q op qt rest)
    call-Leaves b q op qt rest k lt le f =
        Leaves-weaken (calm rest) b (length rest) k (again q op qt rest) le f (ih q op qt rest lt)

    go_on-Leaves :
        (c : Change) (q : QueryTerm) (op : Operator) (k : ℕ)
        → k < n
        → Fits k c
        → Leaves false (suc k) (go_on qp c again q op)
    go_on-Leaves (changed qt rest) q op k lt h =
        call-Leaves false q op qt rest (suc k) (omega (arith, h)) (omega (arith, h))
          (λ y. absurd (cc))
    go_on-Leaves (refused e) q op k lt h = refl
    go_on-Leaves nil_pointer q op k lt h = refl

    word-Leaves :
        (q : QueryTerm) (op : Operator) (qt : Option QueryTerm) (text : Text) (rest : List Scan)
        → length rest < n
        → Leaves (calm rest) (suc (length rest)) (word qp again q op qt text rest)
    unfolding word
    word-Leaves q op qt text rest lt =
        call-Leaves (calm rest) _ op _ rest (suc (length rest)) lt (omega arith) (λ y. y)

    field_value-Leaves :
        (q : QueryTerm) (op : Operator) (qt : QueryTerm) (rest : List Scan)
        → length rest < n
        → Leaves false (suc (length rest)) (field_value qp again q op qt rest)
    unfolding field_value
    field_value-Leaves q op qt [] lt = (omega arith, λ y. refl)
    field_value-Leaves q op qt (sc ∷ rest) lt =
        let qt' = set_value qp sc.text qt in
        if-intro (Leaves false (suc (suc (length rest)))) (is_close qp (kind sc.text)) (ok q rest)
          (again q op (some qt') rest) (λ _. (omega arith, λ y. absurd (cc)))
          (λ _.
            call-Leaves false q op (some qt') rest (suc (suc (length rest))) (omega arith)
              (omega arith) (λ y. absurd (cc)))

    behind_group-Leaves :
        (q : QueryTerm) (op : Operator) (qt : Option QueryTerm) (b : Bool) (k : ℕ) (p : Parsed)
        → k < n
        → Leaves b k p
        → Leaves b (suc k) (behind_group qp again q op qt p)
    behind_group-Leaves q op qt b k (ok nested rest) lt h =
        call-Leaves b q op _ rest (suc k) (omega (arith, h.0)) (omega (arith, h.0)) h.1
    behind_group-Leaves q op qt b k (failed e) lt h = h
    behind_group-Leaves q op qt b k panic lt h = h
    behind_group-Leaves q op qt b k out_of_fuel lt h = h

    wild_card-Leaves :
        (q : QueryTerm) (op : Operator) (qt : Option QueryTerm) (sc : Scan) (rest : List Scan)
        → length rest < n
        → Leaves (calm rest) (suc (length rest)) (wild_card qp again q op qt sc rest)
    unfolding wild_card
    wild_card-Leaves q op qt sc rest lt = elim (Option-cases (set_wildcard qp.is_letter qt sc)) [
      | inl e ↦ rw (e, wild_card) (word-Leaves q op qt sc.text rest lt)
      | inr e ↦
          rw (e.1, wild_card)
            (call-Leaves (calm rest) q op (some e.0) rest (suc (length rest)) lt (omega arith)
              (λ y. y))
    ]

    negate-Leaves :
        (q : QueryTerm) (op : Operator) (qt : Option QueryTerm) (rest : List Scan)
        → length rest < n
        → Leaves (calm rest) (suc (length rest)) (negate qp again q op qt rest)
    negate-Leaves q op none rest lt =
        call-Leaves (calm rest) q not_operator none rest (suc (length rest)) lt (omega arith)
          (λ y. y)
    negate-Leaves q op (some qt) rest lt =
        call-Leaves (calm rest) (append_query qp op qt q) not_operator none rest (suc (length rest))
          lt (omega arith) (λ y. y)

    set_field-Leaves :
        (q : QueryTerm) (op : Operator) (qt : Option QueryTerm) (rest : List Scan)
        → length rest < n
        → Leaves false (suc (length rest)) (set_field qp again q op qt rest)
    unfolding set_field
    set_field-Leaves q op none rest lt = refl
    set_field-Leaves q op (some qt) rest lt =
        field_value-Leaves q op (with_attributes value_to_field qt) rest lt

    step-Leaves :
        (k : Kind) (q : QueryTerm) (op : Operator) (qt : Option QueryTerm) (sc : Scan)
        (rest : List Scan)
        → length rest < n
        → Leaves (is_calm k && calm rest) (suc (length rest)) (step qp k again q op qt sc rest)
    unfolding step
    step-Leaves or_kind q op qt sc rest lt =
        call-Leaves (calm rest) q or_operator qt rest (suc (length rest)) lt (omega arith) (λ y. y)
    step-Leaves and_kind q op qt sc rest lt =
        call-Leaves (calm rest) q and_operator qt rest (suc (length rest)) lt (omega arith) (λ y. y)
    step-Leaves not_kind q op qt sc rest lt = negate-Leaves q op qt rest lt
    step-Leaves boost_kind q op qt sc rest lt =
        go_on-Leaves (set_boost qp qt sc rest) q op (length rest) lt (set_boost-Fits qt sc rest)
    step-Leaves fuzzy_kind q op qt sc rest lt =
        go_on-Leaves (set_fuzziness qp qt sc rest) q op (length rest) lt
          (set_fuzziness-Fits qt sc rest)
    step-Leaves wild_card_kind q op qt sc rest lt = wild_card-Leaves q op qt sc rest lt
    step-Leaves field_kind q op qt sc rest lt = set_field-Leaves q op qt rest lt
    step-Leaves open_kind q op qt sc rest lt =
        behind_group-Leaves q op qt (calm rest) (length rest)
          (again new_query_term op (some new_query_term) rest) lt
          (ih new_query_term op (some new_query_term) rest lt)
    step-Leaves close_kind q op qt sc rest lt = (omega arith, λ y. y)
    step-Leaves word_kind q op qt sc rest lt = word-Leaves q op qt sc.text rest lt

  run_parser-Leaves : (n : ℕ) → EndsBelow n (run_parser qp n)
  unfolding run_parser
  run_parser-Leaves zero q op qt scans lt = absurd (omega (arith, lt))
  run_parser-Leaves (suc n) q op qt [] lt = (omega arith, λ y. refl)
  run_parser-Leaves (suc n) q op qt (sc ∷ rest) lt =
      step-Leaves n (run_parser qp n) (run_parser-Leaves n) (kind sc.text) q op qt sc rest
        (omega (arith, lt))

  -- `Parse` always ends: the fuel is enough. Where no token is `^`, `~` or `:` it returns a query,
  -- without an error or a use of a nil pointer.
  pub parse-Ended : (scans : List Scan) → Ended (calm scans) (length scans) (parse qp scans)
  unfolding parse
  parse-Ended scans =
      Leaves-Ended (calm scans) (length scans)
        (run_parser qp (suc (length scans)) new_query_term nil_operator none scans)
        (run_parser-Leaves (suc (length scans)) new_query_term nil_operator none scans
          (omega arith))
