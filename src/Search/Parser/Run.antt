-- ===== src/Search/Parser/Run.antt =====
-- ikuzo/service/x/search/query_parser.go: `runParser`.
use hub.Prelude.{
  ℕ, zero, suc, Bool, true, false, Option, none, some, List, [], ◌∷◌, Text, is_blank, length,
  if◌then◌else◌,
}
use hub.Analyzer.{transform_phrase}
use hub.Search.Query.{Attributes, QueryTerm, query_term, null, ref, attributes}
use hub.Search.Parser.{
  Scan, Operator, nil_operator, and_operator, or_operator, not_operator, Kind, or_kind, and_kind,
  not_kind, boost_kind, fuzzy_kind, wild_card_kind, field_kind, open_kind, close_kind, word_kind,
  kind, boost_error, fuzzy_error, Parsed, ok, failed, panic, out_of_fuel, new_query_term,
  with_attributes, append, default_to, take_text, take_rest, satisfies, space_or_end, Change,
  changed, refused, nil_pointer, assign, set_fuzzy, fuzzy_to_slop, set_wildcard, validate, or_new,
  with_nested, value_to_field,
}

-- What the parser is made with: the default operator and the functions of the libraries.
pub record QueryParser : Type 0 where
  pub default_and : Bool
  pub is_digit : ℕ → Bool
  pub is_letter : ℕ → Bool
  pub is_number : ℕ → Bool
  pub unicode_lower : ℕ → ℕ
  pub parse_float : Text → Bool
  pub atoi : Text → Option ℕ

-- The clauses of the parent behind the switch of `appendQuery`.
unfoldable pub append_clause : Operator → QueryTerm → QueryTerm → QueryTerm
append_clause and_operator qt (query_term a m n s l) = query_term a (append m qt) n s l
append_clause or_operator qt (query_term a m n s l) = query_term a m n (append s qt) l
append_clause not_operator qt (query_term a m n s l) = query_term a m (append n qt) s l
append_clause nil_operator qt q = q

abbrev pub prohibit : Operator → Attributes → Attributes
prohibit not_operator a = record a { prohibited = true }
prohibit _ a = a

module _ (qp : QueryParser) where
  -- `qt` as `appendQuery` leaves it, its nested query aside.
  unfoldable pub prepare : Operator → QueryTerm → QueryTerm
  prepare op (query_term a m n s l) =
      query_term (prohibit op (record a { value = transform_phrase qp.unicode_lower a.value })) m n
        s null

  -- `appendQuery` with an operator that is set; a nested query goes before the term.
  unfoldable pub append_to : Operator → QueryTerm → QueryTerm → QueryTerm
  append_to op (query_term a m n s null) parent =
      append_clause op (prepare op (query_term a m n s null)) parent
  append_to op (query_term a m n s (ref nested)) parent =
      append_clause op (prepare op (query_term a m n s null)) (append_to op nested parent)

  unfoldable pub append_query : Operator → QueryTerm → QueryTerm → QueryTerm
  append_query op qt parent = append_to (default_to qp.default_and op) qt parent

  -- `if qt != nil && qt.Value != ""`: the parent, and the term as it is afterwards.
  unfoldable pub append_pending :
      Operator → Option QueryTerm → QueryTerm → QueryTerm × Option QueryTerm
  append_pending op none parent = (parent, none)
  append_pending op (some qt) parent =
      if is_blank (attributes qt).value
      then (parent, some qt)
      else (append_query op qt parent, some (prepare (default_to qp.default_and op) qt))

  unfoldable pub set_boost : Option QueryTerm → Scan → List Scan → Change
  set_boost qt sc rest =
      if satisfies qp.is_digit sc.next
      then if qp.parse_float (take_text rest)
        then assign (λ a. record a { boost = some (take_text rest) }) qt (take_rest rest)
        else refused boost_error
      else changed qt rest

  -- The number that `Atoi` reads, or its error.
  abbrev pub number_change : Option ℕ → Option QueryTerm → List Scan → Change
  number_change none qt rest = refused fuzzy_error
  number_change (some n) qt rest = assign (set_fuzzy n) qt (take_rest rest)

  unfoldable pub set_fuzziness : Option QueryTerm → Scan → List Scan → Change
  set_fuzziness qt sc rest =
      if satisfies qp.is_digit sc.next
      then number_change (qp.atoi (take_text rest)) qt rest
      else if space_or_end sc.next
      then assign (set_fuzzy 2) qt rest
      else assign fuzzy_to_slop qt rest

  abbrev pub is_close : Kind → Bool
  is_close close_kind = true
  is_close _ = false

  abbrev pub set_value : Text → QueryTerm → QueryTerm
  set_value text qt = with_attributes (validate qp.is_letter qp.is_number text) qt

  -- A call of `runParser`.
  abbrev pub Call : Type 0
  Call = QueryTerm → Operator → Option QueryTerm → List Scan → Parsed

  abbrev pub go_on : Change → Call → QueryTerm → Operator → Parsed
  go_on (changed qt rest) again q op = again q op qt rest
  go_on (refused e) again q op = failed e
  go_on nil_pointer again q op = panic

  -- The end of `runParser` for a token that starts a new term.
  unfoldable pub word : Call → QueryTerm → Operator → Option QueryTerm → Text → List Scan → Parsed
  word again q op qt text rest =
      let (q', qt') = append_pending op qt q in
      again q' op (some (set_value text (or_new qt'))) rest

  -- The token behind the colon is the value, unless it closes a group or the text ends.
  unfoldable pub field_value : Call → QueryTerm → Operator → QueryTerm → List Scan → Parsed
  field_value again q op qt [] = ok q []
  field_value again q op qt (sc ∷ rest) =
      if is_close (kind sc.text) then ok q rest else again q op (some (set_value sc.text qt)) rest

  unfoldable pub set_field : Call → QueryTerm → Operator → Option QueryTerm → List Scan → Parsed
  set_field again q op none rest = panic
  set_field again q op (some qt) rest =
      field_value again q op (with_attributes value_to_field qt) rest

  abbrev pub behind_group : Call → QueryTerm → Operator → Option QueryTerm → Parsed → Parsed
  behind_group again q op qt (ok nested rest) =
      again q op (some (with_nested nested (or_new qt))) rest
  behind_group again q op qt (failed e) = failed e
  behind_group again q op qt panic = panic
  behind_group again q op qt out_of_fuel = out_of_fuel

  unfoldable pub wild_card :
      Call → QueryTerm → Operator → Option QueryTerm → Scan → List Scan → Parsed
  wild_card again q op qt sc rest = elim (set_wildcard qp.is_letter qt sc) [
    | some wildcard ↦ again q op (some wildcard) rest
    | none ↦ word again q op qt sc.text rest
  ]

  abbrev pub negate : Call → QueryTerm → Operator → Option QueryTerm → List Scan → Parsed
  negate again q op none rest = again q not_operator none rest
  negate again q op (some qt) rest = again (append_query op qt q) not_operator none rest

  unfoldable pub step :
      Kind → Call → QueryTerm → Operator → Option QueryTerm → Scan → List Scan → Parsed
  step or_kind again q op qt sc rest = again q or_operator qt rest
  step and_kind again q op qt sc rest = again q and_operator qt rest
  step not_kind again q op qt sc rest = negate again q op qt rest
  step boost_kind again q op qt sc rest = go_on (set_boost qt sc rest) again q op
  step fuzzy_kind again q op qt sc rest = go_on (set_fuzziness qt sc rest) again q op
  step wild_card_kind again q op qt sc rest = wild_card again q op qt sc rest
  step field_kind again q op qt sc rest = set_field again q op qt rest
  step open_kind again q op qt sc rest =
      behind_group again q op qt (again new_query_term op (some new_query_term) rest)
  step close_kind again q op qt sc rest = ok (append_pending op qt q).0 rest
  step word_kind again q op qt sc rest = word again q op qt sc.text rest

  unfoldable pub run_parser : ℕ → QueryTerm → Operator → Option QueryTerm → List Scan → Parsed
  run_parser zero q op qt scans = out_of_fuel
  run_parser (suc n) q op qt [] = ok (append_pending op qt q).0 []
  run_parser (suc n) q op qt (sc ∷ rest) = step (kind sc.text) (run_parser n) q op qt sc rest

  -- `Parse`
  unfoldable pub parse : List Scan → Parsed
  parse scans = run_parser (suc (length scans)) new_query_term nil_operator none scans
