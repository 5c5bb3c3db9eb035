-- ===== src/Fragments/Filters/Laws.antt =====
-- hub3/fragments/api.go: what adding a filter does to the filters of a request.
use hub.Prelude.{
  ◌≡◌, refl, Bool, true, false, ◌||◌, Option, none, List, [], ◌∷◌, ◌++◌, Text, if◌then◌else◌,
  if-intro, arith, ap, ◌∙◌, sym,
}
use hub.Fragments.Filter.{
  QueryFilter, Made, made, refused, is_text, new_query_filter, as_string, equal,
}
use hub.Fragments.Filter.RoundTrip.{
  is_printable, signed_string, bare, compared, is_text_iff, new_query_filter-as_string,
  as_string-compared,
}
use hub.Fragments.Filters.{Outcome, mark_filter, has_filter, append_new, add_query_filter}

as_string-mark_filter :
    (id : Bool) (qf : QueryFilter) → as_string (mark_filter id qf) ≡ as_string qf
unfolding as_string mark_filter
as_string-mark_filter true qf = ground arith
as_string-mark_filter false qf = ground arith

-- Some filter has that text.
abbrev pub has_text : Text → List QueryFilter → Bool
has_text t [] = false
has_text t (v ∷ filters) = is_text t (as_string v) || has_text t filters

-- No two filters have one text.
abbrev pub IsApart : List QueryFilter → Type 0
IsApart [] = Unit
IsApart (v ∷ filters) = (has_text (as_string v) filters ≡ false) × IsApart filters

has_text-append :
    (t : Text) (filters : List QueryFilter) (qf : QueryFilter)
    → has_text t (filters ++ qf ∷ []) ≡ (has_text t filters || is_text t (as_string qf))
has_text-append t [] qf = ground arith
has_text-append t (v ∷ filters) qf = ground (arith, has_text-append t filters qf)

is_text_refl : (s : Text) → is_text s s ≡ true
is_text_refl s = (is_text_iff s s).1 refl

is_text_comm : (s t : Text) → is_text s t ≡ is_text t s
is_text_comm s t = ground (arith, is_text_iff s t, is_text_iff t s)

IsApart-append :
    (filters : List QueryFilter) (qf : QueryFilter)
    → IsApart filters
    → has_text (as_string qf) filters ≡ false
    → IsApart (filters ++ qf ∷ [])
IsApart-append [] qf h n = (refl, tt)
IsApart-append (v ∷ filters) qf h n = (
  ground
      (arith, has_text-append (as_string v) filters qf, is_text_comm (as_string v) (as_string qf)),
  IsApart-append filters qf h.1 (ground arith),
)

module _ (cmp_equal : QueryFilter → QueryFilter → Bool)
    (calls_equal : (qf oqf : QueryFilter) → cmp_equal qf oqf ≡ equal qf oqf) where
  has_filter-text :
      (qf : QueryFilter) (filters : List QueryFilter)
      → has_filter cmp_equal qf filters ≡ has_text (as_string qf) filters
  unfolding has_filter equal
  has_filter-text qf [] = refl
  has_filter-text qf (v ∷ filters) = ground (arith, calls_equal qf v, has_filter-text qf filters)

  append_new-text :
      (id : Bool) (qf : QueryFilter) (filters : List QueryFilter)
      → append_new cmp_equal id (made qf) filters ≡ (
          if has_text (as_string qf) filters
          then (none, filters)
          else (none, filters ++ mark_filter id qf ∷ []))
  append_new-text id qf filters =
      rw (has_filter-text (mark_filter id qf) filters, as_string-mark_filter id qf) refl

  append_new-IsApart :
      (id : Bool) (m : Made) (filters : List QueryFilter)
      → IsApart filters
      → IsApart (append_new cmp_equal id m filters).1
  append_new-IsApart id (refused e) filters h = h
  append_new-IsApart id (made qf) filters h = rw (append_new-text id qf filters) (
      if-intro (λ (r : Outcome). IsApart r.1) (has_text (as_string qf) filters) (none, filters)
        (none, filters ++ mark_filter id qf ∷ []) (λ _. h)
        (λ n. IsApart-append filters (mark_filter id qf) h (rw (as_string-mark_filter id qf) n)))

  -- A filter that has been added, has its text among the filters, and adding it again is idle.
  append_new-again :
      (id jd : Bool) (qf oqf : QueryFilter) (filters : List QueryFilter)
      → as_string oqf ≡ as_string qf
      → append_new cmp_equal jd (made oqf) (append_new cmp_equal id (made qf) filters).1
        ≡ (none, (append_new cmp_equal id (made qf) filters).1)
  append_new-again id jd qf oqf filters e =
      let after = (append_new cmp_equal id (made qf) filters).1 in
      let stands : has_text (as_string qf) after ≡ true = rw (append_new-text id qf filters) (
        if-intro (λ (r : Outcome). has_text (as_string qf) r.1 ≡ true)
          (has_text (as_string qf) filters) (none, filters)
          (none, filters ++ mark_filter id qf ∷ []) (λ h. h)
          (λ _. ground (
            arith,
            has_text-append (as_string qf) filters (mark_filter id qf),
            as_string-mark_filter id qf,
            is_text_refl (as_string qf),
          ))) in
      append_new-text jd oqf after ∙ rw (e, stands) refl

  module _ (unmarshal : Text → Option QueryFilter) where
    -- `AddQueryFilter` keeps the filters of a request apart, so that no two have one text, whatever it is
    -- given and also where it fails; `cmp.Equal` calls the method `Equal` of the filters.
    pub add_query_filter-IsApart :
        (filter : Text) (id : Bool) (filters : List QueryFilter)
        → IsApart filters
        → IsApart (add_query_filter cmp_equal unmarshal filter id filters).1
    unfolding add_query_filter
    add_query_filter-IsApart filter id filters h =
        append_new-IsApart id (new_query_filter unmarshal filter) filters h

    -- Behind the `AddQueryFilter` of a filter's text, that of a filter which differs in its sign at most
    -- returns no error and changes nothing, so a filter and its exclusion do not stand side by side;
    -- `cmp.Equal` calls the method `Equal` of the filters. Both filters can be printed: their names are
    -- without brackets and colons, their labels not empty, no type class is `a`, the first level comes with
    -- the second, and the value does not contain `[]`.
    pub add_query_filter-again :
        (qf oqf : QueryFilter) (id jd : Bool) (filters : List QueryFilter)
        → is_printable qf ≡ true
        → is_printable oqf ≡ true
        → compared oqf ≡ compared qf
        → add_query_filter cmp_equal unmarshal
            (signed_string oqf)
            jd
            (add_query_filter cmp_equal unmarshal (signed_string qf) id filters).1
          ≡ (none, (add_query_filter cmp_equal unmarshal (signed_string qf) id filters).1)
    unfolding add_query_filter as_string
    add_query_filter-again qf oqf id jd filters h k e =
        rw (new_query_filter-as_string unmarshal qf h, new_query_filter-as_string unmarshal oqf k)
          (append_new-again id jd (bare qf) (bare oqf) filters
            (sym (as_string-compared oqf) ∙ ap as_string e ∙ as_string-compared qf))
