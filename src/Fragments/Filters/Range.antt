-- ===== src/Fragments/Filters/Range.antt =====
-- hub3/fragments/api.go: `NewDateRangeFilter`.
use hub.Prelude.{
  ℕ, ◌≡◌, refl, Bool, true, false, ◌&&◌, ◌||◌, not, Option, [], ◌∷◌, ◌++◌, Text, codes,
  text_discrete, if◌then◌else◌, is_blank, contains, split, has, ℕ_discrete, arith,
}
use hub.Fragments.Filter.{QueryFilter, date_range_type, no_range, made, refused, is_text}
use hub.Fragments.Filter.RoundTrip.{is_printable, signed_string, bare, new_query_filter-as_string}
use hub.Fragments.Filters.{set_range, new_date_range_filter}

split-absent : (c : ℕ) (s : Text) → has ℕ_discrete c s ≡ false → split c s ≡ s ∷ []
unfolding split has ℕ_discrete
split-absent c [] h = refl
split-absent c (x ∷ s) h = ground (arith, split-absent c s)

split-append :
    (c : ℕ) (s t : Text)
    → has ℕ_discrete c s ≡ false
    → has ℕ_discrete c t ≡ false
    → split c (s ++ c ∷ t) ≡ s ∷ t ∷ []
unfolding split has ℕ_discrete
split-append c [] t h k = ground (arith, split-absent c t)
split-append c (x ∷ s) t h k = ground (arith, split-append c s t)

abbrev pub no_tilde : Text → Bool
no_tilde s = not (has ℕ_discrete (b'~') s)

-- The range from one date to another.
abbrev pub date_range : Text → Text → Text
date_range from to = from ++ b'~' ∷ to

is_open-date_range :
    (from to : Text)
    → (is_text (date_range from to) (codes "~") || is_blank (date_range from to))
      ≡ (is_blank from && is_blank to)
unfolding text_discrete ℕ_discrete
is_open-date_range [] [] = refl
is_open-date_range [] (c ∷ to) = ground arith
is_open-date_range (c ∷ []) to = ground arith
is_open-date_range (c ∷ d ∷ from) to = ground arith

default-date : (s : Text) → (if is_blank s then [] else s) ≡ s
default-date [] = refl
default-date (c ∷ s) = refl

-- The end of the function for a value.
range_of-date_range :
    (qf : QueryFilter) (v from to : Text)
    → v ≡ date_range from to
    → no_tilde from ≡ true
    → no_tilde to ≡ true
    → (if is_text v (codes "~") || is_blank v
        then refused no_range
        else set_range (split (b'~') v) (bare qf))
      ≡ (if is_blank from && is_blank to
          then refused no_range
          else made (record (bare qf) { type = date_range_type; gte = from; lte = to }))
unfolding set_range
range_of-date_range qf v from to e hf ht =
    rw
      (
        e,
        is_open-date_range from to,
        split-append (b'~') from to (ground arith) (ground arith),
        default-date from,
        default-date to,
      )
      refl

module _ (unmarshal : Text → Option QueryFilter) where
  -- `NewDateRangeFilter` of the text of a filter whose value is two dates with a tilde between them, one
  -- of which may be missing, has them as its bounds; it refuses a range that has neither. The dates are
  -- without a tilde and the text without `null`, and the filter can be printed: its names are without
  -- brackets and colons, its label not empty, no type class is `a`, the first level comes with the second,
  -- and the value does not contain `[]`.
  pub new_date_range_filter-date_range :
      (qf : QueryFilter) (from to : Text)
      → qf.value ≡ date_range from to
      → is_printable qf ≡ true
      → no_tilde from ≡ true
      → no_tilde to ≡ true
      → contains (signed_string qf) (codes "null") ≡ false
      → new_date_range_filter unmarshal (signed_string qf) ≡ (
          if is_blank from && is_blank to
          then refused no_range
          else made (record (bare qf) { type = date_range_type; gte = from; lte = to }))
  unfolding new_date_range_filter
  new_date_range_filter-date_range qf from to e h hf ht hn =
      rw (hn, new_query_filter-as_string unmarshal qf h)
        (range_of-date_range qf qf.value from to e hf ht)
