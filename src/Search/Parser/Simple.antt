-- ===== src/Search/Parser/Simple.antt =====
-- ikuzo/service/x/search/query_parser.go: queries of signed words, and the steps of the parser on them.
use hub.Prelude.{
  ℕ, suc, ◌≡◌, refl, Bool, true, false, Option, none, some, List, [], ◌∷◌, Text, codes,
  text_discrete, ℕ_discrete, is_blank, has_prefix, if◌then◌else◌,
}
use hub.Search.Query.{QueryTerm, Clauses, query_term, nil, cons, null}
use hub.Search.Parser.{
  Scan, Operator, and_operator, or_operator, not_operator, word_kind, kind, ok, no_attributes,
  validate,
}
use hub.Search.Parser.Run.{
  QueryParser, prepare, append_query, append_pending, word, step, run_parser,
}

-- A word that is no operator and no phrase.
pub record IsWord (w : Text) : Type 0 where
  pub plain : kind w ≡ word_kind
  pub filled : is_blank w ≡ false
  pub unquoted : has_prefix w (b'"' ∷ []) ≡ false

-- The words that are asked for, all of them or some, and those that are not.
pub record SimpleQuery : Type 0 where
  pub all_of : Bool
  pub wanted : List Text
  pub unwanted : List Text

abbrev pub token : Text → Scan
token t = record { text = t; next = some b' ' }

-- Each word with its sign before it.
abbrev pub signed : Text → List Text → List Scan → List Scan
signed sign [] rest = rest
signed sign (w ∷ ws) rest = token sign ∷ token w ∷ signed sign ws rest

abbrev pub wanted_sign : Bool → Text
wanted_sign true = codes "+"
wanted_sign false = codes "|"

abbrev pub print : SimpleQuery → List Scan
print q = signed (wanted_sign q.all_of) q.wanted (signed (codes "-") q.unwanted [])

abbrev pub wanted_operator : Bool → Operator
wanted_operator true = and_operator
wanted_operator false = or_operator

-- The term of a word.
abbrev pub word_term : Text → Bool → QueryTerm
word_term value prohibited =
    query_term (record no_attributes { value = value; prohibited = prohibited }) nil nil nil null

abbrev pub word_clauses : (Text → Text) → Bool → List Text → Clauses
word_clauses transform prohibited [] = nil
word_clauses transform prohibited (w ∷ ws) =
    cons (word_term (transform w) prohibited) (word_clauses transform prohibited ws)

-- The query of the words, by its clauses.
abbrev pub as_query : (Text → Text) → SimpleQuery → QueryTerm
as_query transform q =
    query_term no_attributes (if q.all_of then word_clauses transform false q.wanted else nil)
      (word_clauses transform true q.unwanted)
      (if q.all_of then nil else word_clauses transform false q.wanted) null

module _ (qp : QueryParser) where
  abbrev pub fresh : Text → QueryTerm
  fresh w = word_term w false

  -- The parent behind all words of a list.
  abbrev pub append_all : Operator → List Text → QueryTerm → QueryTerm
  append_all op [] q = q
  append_all op (w ∷ ws) q = append_all op ws (append_query qp op (fresh w) q)

  pub run-sign :
      (all_of : Bool) (n : ℕ) (q : QueryTerm) (op : Operator) (qt : Option QueryTerm)
      (rest : List Scan)
      → run_parser qp (suc n) q op qt (token (wanted_sign all_of) ∷ rest)
        ≡ run_parser qp n q (wanted_operator all_of) qt rest
  unfolding run_parser step kind text_discrete ℕ_discrete
  run-sign true n q op qt rest = refl
  run-sign false n q op qt rest = refl

  pub run-minus :
      (n : ℕ) (q : QueryTerm) (op : Operator) (qt : QueryTerm) (rest : List Scan)
      → run_parser qp (suc n) q op (some qt) (token (codes "-") ∷ rest)
        ≡ run_parser qp n (append_query qp op qt q) not_operator none rest
  unfolding run_parser step kind text_discrete ℕ_discrete
  run-minus n q op qt rest = refl

  pub run-minus_none :
      (n : ℕ) (q : QueryTerm) (op : Operator) (rest : List Scan)
      → run_parser qp (suc n) q op none (token (codes "-") ∷ rest)
        ≡ run_parser qp n q not_operator none rest
  unfolding run_parser step kind text_discrete ℕ_discrete
  run-minus_none n q op rest = refl

  pub run-word :
      (n : ℕ) (q : QueryTerm) (op : Operator) (w : Text) (rest : List Scan)
      → IsWord w
      → run_parser qp (suc n) q op none (token w ∷ rest)
        ≡ run_parser qp n q op (some (fresh w)) rest
  unfolding run_parser step word append_pending validate
  run-word n q op w rest h = rw (h.plain, h.unquoted, step) refl

  pub run-next_word :
      (all_of : Bool) (n : ℕ) (q : QueryTerm) (v w : Text) (rest : List Scan)
      → IsWord v
      → IsWord w
      → run_parser qp (suc n) q (wanted_operator all_of) (some (fresh v)) (token w ∷ rest)
        ≡ run_parser qp n
            (append_query qp (wanted_operator all_of) (fresh v) q)
            (wanted_operator all_of)
            (some (fresh w))
            rest
  unfolding run_parser step word append_pending validate prepare
  run-next_word true n q v w rest hv h =
      rw (h.plain, hv.filled, if◌then◌else◌, step, h.unquoted) refl
  run-next_word false n q v w rest hv h =
      rw (h.plain, hv.filled, if◌then◌else◌, step, h.unquoted) refl

  pub run-end :
      (n : ℕ) (q : QueryTerm) (op : Operator) (w : Text)
      → IsWord w
      → run_parser qp (suc n) q op (some (fresh w)) [] ≡ ok (append_query qp op (fresh w) q) []
  unfolding run_parser append_pending
  run-end n q op w h = rw (h.filled, if◌then◌else◌) refl
