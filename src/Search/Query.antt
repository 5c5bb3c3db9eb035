-- ===== src/Search/Query.antt =====
-- ikuzo/service/x/search/query_parser.go: the query tree. The clause lists of a term hold terms, so
-- the tree and its lists are one mutual block; a pointer that may be nil is `Link`.
use hub.Prelude.{ℕ, Bool, true, false, ◌||◌, Option, Text, if◌then◌else◌, ◌==◌}

-- The fields of `QueryTerm` that are no pointers. `boost` is the text that `ParseFloat` accepted.
pub record Attributes : Type 0 where
  pub field : Text
  pub value : Text
  pub prohibited : Bool
  pub phrase : Bool
  pub suffix_wildcard : Bool
  pub prefix_wildcard : Bool
  pub boost : Option Text
  pub fuzzy : ℕ
  pub slop : ℕ

mutual
  -- The attributes, then mustClauses, mustNotClauses, shouldClauses and nested.
  pub data QueryTerm : Type 0 where
    query_term : Attributes → Clauses → Clauses → Clauses → Link → QueryTerm

  pub data Clauses : Type 0 where
    nil : Clauses
    cons : QueryTerm → Clauses → Clauses

  pub data Link : Type 0 where
    null : Link
    ref : QueryTerm → Link

pub data QueryType : Type 0 where
  bool_query fuzzy_query phrase_query term_query wild_card_query : QueryType

abbrev pub attributes : QueryTerm → Attributes
attributes (query_term a _ _ _ _) = a

abbrev pub must : QueryTerm → Clauses
must (query_term _ m _ _ _) = m

abbrev pub must_not : QueryTerm → Clauses
must_not (query_term _ _ n _ _) = n

abbrev pub should : QueryTerm → Clauses
should (query_term _ _ _ s _) = s

abbrev pub is_empty : Clauses → Bool
is_empty nil = true
is_empty (cons _ _) = false

-- The conditions in the order of the source.
unfoldable pub is_bool_query : QueryTerm → Bool
is_bool_query q =
    if is_empty (should q)
    then (if is_empty (must q) then (if is_empty (must_not q) then false else true) else true)
    else true

unfoldable pub query_type : QueryTerm → QueryType
query_type q =
    if is_bool_query q
    then bool_query
    else if (attributes q).phrase
    then phrase_query
    else if (attributes q).prefix_wildcard || (attributes q).suffix_wildcard
    then wild_card_query
    else if (attributes q).fuzzy == 0
    then term_query
    else fuzzy_query
