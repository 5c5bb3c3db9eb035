-- ===== src/Index/Search/Verdict.antt =====
-- ikuzo/storage/x/memory/index_full_text.go: which queries the search accepts.
use hub.Prelude.{
  ℕ, ◌≡◌, refl, ap, ◌∙◌, Bool, true, false, ◌||◌, ◌&&◌, not, Option, none, some, Text,
  if◌then◌else◌, arith, Bool-cases, inl, inr,
}
use hub.Search.Matches.{Matches}
use hub.Search.Query.{
  QueryTerm, query_term, Attributes, Link, Clauses, nil, cons, query_type, attributes, is_empty,
  should,
}
use hub.Index.TextIndex.{TextIndex}
use hub.Index.Match.{match}
use hub.Index.Match.Verdict.{term_matches, match-verdict}
use hub.Index.Search.{
  SearchError, no_match, Outcome, and_then, require, is_bool, search, search_must_not, search_must,
  search_should,
}

-- Every plain term of a `must not` list is marked as prohibited, at every depth.
unfoldable mutual
  pub flagged : QueryTerm → Bool
  flagged (query_term a must must_not should nested) =
      flagged_all must && (flagged_not must_not && flagged_all should)

  pub flagged_all : Clauses → Bool
  flagged_all nil = true
  flagged_all (cons q rest) =
      (if is_bool (query_type q) then flagged q else true) && flagged_all rest

  pub flagged_not : Clauses → Bool
  flagged_not nil = true
  flagged_not (cons q rest) =
      (if is_bool (query_type q) then flagged q else (attributes q).prohibited) && flagged_not rest

module _ (distance : Text → Text → ℕ) (ti : TextIndex) where
  -- Some plain term of the list matches; groups do not count.
  unfoldable pub some_term : Clauses → Bool
  some_term nil = false
  some_term (cons q rest) =
      (not (is_bool (query_type q)) && term_matches distance ti q) || some_term rest

  -- What a query asks for, as a statement about the index: all of `must` and of `must not`, where a
  -- prohibited term matches by its absence, and of `should` every group and some plain term.
  unfoldable mutual
    pub accepts : QueryTerm → Bool
    accepts (query_term a must must_not should nested) =
        accepts_all must_not
        && (accepts_all must && (is_empty should || (accepts_groups should && some_term should)))

    pub accepts_all : Clauses → Bool
    accepts_all nil = true
    accepts_all (cons q rest) =
        (if is_bool (query_type q) then accepts q else term_matches distance ti q)
        && accepts_all rest

    pub accepts_groups : Clauses → Bool
    accepts_groups nil = true
    accepts_groups (cons q rest) =
        (if is_bool (query_type q) then accepts q else true) && accepts_groups rest

  abbrev pub verdict : Bool → Option SearchError
  verdict b = if b then none else some no_match

  and_then-verdict :
      (o : Outcome) (next : Matches → Outcome) (a b : Bool)
      → o.0 ≡ verdict a
      → ((h : Matches) → (next h).0 ≡ verdict b)
      → (and_then o next).0 ≡ verdict (a && b)
  and_then-verdict (none, h) next a b p q = ground (arith, q h)
  and_then-verdict (some e, h) next a b p q = ground arith

  require-verdict :
      (o : Bool × Matches) (next : Matches → Outcome) (b : Bool)
      → ((h : Matches) → (next h).0 ≡ verdict b)
      → (require o next).0 ≡ verdict (o.0 && b)
  require-verdict (true, h) next b q = q h
  require-verdict (false, h) next b q = refl

  accepts_groups-cons :
      (q : QueryTerm) (rest : Clauses)
      → accepts_groups (cons q rest)
        ≡ ((if is_bool (query_type q) then accepts q else true) && accepts_groups rest)
  unfolding accepts
  accepts_groups-cons q rest = refl

  some_term-cons :
      (q : QueryTerm) (rest : Clauses)
      → some_term (cons q rest)
        ≡ ((not (is_bool (query_type q)) && term_matches distance ti q) || some_term rest)
  unfolding some_term
  some_term-cons q rest = refl

  must_not-nil :
      (hits : Matches) → (search_must_not distance ti nil hits).0 ≡ verdict (accepts_all nil)
  unfolding search accepts
  must_not-nil hits = refl

  must-nil : (hits : Matches) → (search_must distance ti nil hits).0 ≡ verdict (accepts_all nil)
  unfolding search accepts
  must-nil hits = refl

  should-nil :
      (matched : Bool) (hits : Matches)
      → (search_should distance ti nil matched hits).0
        ≡ verdict (accepts_groups nil && (matched || some_term nil))
  unfolding search accepts some_term
  should-nil matched hits = ground arith

  module _ (q : QueryTerm) (rest : Clauses) (hits : Matches) where
    must_not-step :
        (is_bool (query_type q) ≡ true
          → (h : Matches) → (search distance ti q h).0 ≡ verdict (accepts q))
        → ((h : Matches) → (search_must_not distance ti rest h).0 ≡ verdict (accepts_all rest))
        → (is_bool (query_type q) ≡ false → (attributes q).prohibited ≡ true)
        → (search_must_not distance ti (cons q rest) hits).0 ≡ verdict (accepts_all (cons q rest))
    unfolding search accepts
    must_not-step ih next f = elim (Bool-cases (is_bool (query_type q))) [
      | inl group ↦
          rw (group, if◌then◌else◌)
            (and_then-verdict (search distance ti q hits) _ (accepts q) (accepts_all rest)
              (ih group hits) next)
      | inr plain ↦
          rw (plain, f plain, if◌then◌else◌, not)
            (require-verdict (match distance ti q hits) _ (accepts_all rest) next
              ∙ ap (λ b. verdict (b && accepts_all rest)) (match-verdict distance ti q hits))
    ]

    must-step :
        (is_bool (query_type q) ≡ true
          → (h : Matches) → (search distance ti q h).0 ≡ verdict (accepts q))
        → ((h : Matches) → (search_must distance ti rest h).0 ≡ verdict (accepts_all rest))
        → (search_must distance ti (cons q rest) hits).0 ≡ verdict (accepts_all (cons q rest))
    unfolding search accepts
    must-step ih next = elim (Bool-cases (is_bool (query_type q))) [
      | inl group ↦
          rw (group, if◌then◌else◌)
            (and_then-verdict (search distance ti q hits) _ (accepts q) (accepts_all rest)
              (ih group hits) next)
      | inr plain ↦
          rw (plain, if◌then◌else◌)
            (require-verdict (match distance ti q hits) _ (accepts_all rest) next
              ∙ ap (λ b. verdict (b && accepts_all rest)) (match-verdict distance ti q hits))
    ]

    should-step :
        (matched : Bool)
        → (is_bool (query_type q) ≡ true
            → (h : Matches) → (search distance ti q h).0 ≡ verdict (accepts q))
        → ((m : Bool) (h : Matches)
            → (search_should distance ti rest m h).0
              ≡ verdict (accepts_groups rest && (m || some_term rest)))
        → (search_should distance ti (cons q rest) matched hits).0
          ≡ verdict (accepts_groups (cons q rest) && (matched || some_term (cons q rest)))
    unfolding search
    should-step matched ih next = elim (Bool-cases (is_bool (query_type q))) [
      | inl group ↦
          rw (group, if◌then◌else◌)
            (and_then-verdict (search distance ti q hits) _ (accepts q)
                (accepts_groups rest && (matched || some_term rest)) (ih group hits) (next matched)
              ∙ ground (arith, accepts_groups-cons q rest, some_term-cons q rest))
      | inr plain ↦
          rw (plain, if◌then◌else◌)
            (next _ _
              ∙ ground (
                arith,
                match-verdict distance ti q hits,
                accepts_groups-cons q rest,
                some_term-cons q rest,
              ))
    ]

  module _ (m n s : Clauses) (hits : Matches) where
    query_term-step :
        (a : Attributes) (nested : Link)
        → ((h : Matches) → (search_must_not distance ti n h).0 ≡ verdict (accepts_all n))
        → ((h : Matches) → (search_must distance ti m h).0 ≡ verdict (accepts_all m))
        → ((h : Matches)
            → (search_should distance ti s false h).0 ≡ verdict (accepts_groups s && some_term s))
        → (search distance ti (query_term a m n s nested) hits).0
          ≡ verdict (accepts (query_term a m n s nested))
    unfolding search accepts
    query_term-step a nested hn hm hs =
        and_then-verdict (search_must_not distance ti n hits) _ (accepts_all n) _ (hn hits) (λ h.
          and_then-verdict (search_must distance ti m h) _ (accepts_all m) _ (hm h)
            (λ h'. ground (arith, hs h')))

  module _ (q : QueryTerm) (rest : Clauses) where
    flagged_not-head :
        flagged_not (cons q rest) ≡ true → is_bool (query_type q) ≡ true → flagged q ≡ true
    unfolding flagged
    flagged_not-head f = ground arith

    flagged_not-plain :
        flagged_not (cons q rest) ≡ true
        → is_bool (query_type q) ≡ false
        → (attributes q).prohibited ≡ true
    unfolding flagged
    flagged_not-plain f = ground arith

    flagged_not-tail : flagged_not (cons q rest) ≡ true → flagged_not rest ≡ true
    unfolding flagged
    flagged_not-tail f = ground arith

    flagged_all-head :
        flagged_all (cons q rest) ≡ true → is_bool (query_type q) ≡ true → flagged q ≡ true
    unfolding flagged
    flagged_all-head f = ground arith

    flagged_all-tail : flagged_all (cons q rest) ≡ true → flagged_all rest ≡ true
    unfolding flagged
    flagged_all-tail f = ground arith

  flagged-parts :
      (a : Attributes) (m n s : Clauses) (nested : Link)
      → flagged (query_term a m n s nested) ≡ true
      → (flagged_all m ≡ true) × (flagged_not n ≡ true) × (flagged_all s ≡ true)
  unfolding flagged
  flagged-parts a m n s nested f = ground arith

  mutual
    search_lem :
        (q : QueryTerm) (hits : Matches)
        → flagged q ≡ true
        → (search distance ti q hits).0 ≡ verdict (accepts q)
    search_lem (query_term a m n s nested) hits f =
        let (fm, fn, fs) = flagged-parts a m n s nested f in
        query_term-step m n s hits a nested (λ h. search_must_not_lem n h fn)
          (λ h. search_must_lem m h fm) (λ h. search_should_lem s false h fs)

    search_must_not_lem :
        (qs : Clauses) (hits : Matches)
        → flagged_not qs ≡ true
        → (search_must_not distance ti qs hits).0 ≡ verdict (accepts_all qs)
    search_must_not_lem nil hits f = must_not-nil hits
    search_must_not_lem (cons q rest) hits f =
        must_not-step q rest hits (λ group h. search_lem q h (flagged_not-head q rest f group))
          (λ h. search_must_not_lem rest h (flagged_not-tail q rest f)) (flagged_not-plain q rest f)

    search_must_lem :
        (qs : Clauses) (hits : Matches)
        → flagged_all qs ≡ true
        → (search_must distance ti qs hits).0 ≡ verdict (accepts_all qs)
    search_must_lem nil hits f = must-nil hits
    search_must_lem (cons q rest) hits f =
        must-step q rest hits (λ group h. search_lem q h (flagged_all-head q rest f group))
          (λ h. search_must_lem rest h (flagged_all-tail q rest f))

    search_should_lem :
        (qs : Clauses) (matched : Bool) (hits : Matches)
        → flagged_all qs ≡ true
        → (search_should distance ti qs matched hits).0
          ≡ verdict (accepts_groups qs && (matched || some_term qs))
    search_should_lem nil matched hits f = should-nil matched hits
    search_should_lem (cons q rest) matched hits f =
        should-step q rest hits matched
          (λ group h. search_lem q h (flagged_all-head q rest f group))
          (λ m h. search_should_lem rest m h (flagged_all-tail q rest f))

  -- The outcome of a search does not depend on the hits so far, nor on the order of the loops: it
  -- is that of `accepts`, and the only error is `no_match`. Every plain term under `must not` has
  -- to be marked as prohibited.
  pub search-verdict :
      (q : QueryTerm) (hits : Matches)
      → flagged q ≡ true
      → (search distance ti q hits).0 ≡ (if accepts q then none else some no_match)
  search-verdict q hits f = search_lem q hits f
