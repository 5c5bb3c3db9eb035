-- ===== src/Namespace/Entry/Laws.antt =====
-- ikuzo/domain/namespace.go: which prefixes and bases a namespace has behind each operation.
use hub.Prelude.{
  ℕ, ◌≡◌, refl, Bool, true, false, ◌||◌, List, [], ◌∷◌, ◌++◌, ite, if_pos, if_neg, Text,
  text_discrete, has, insert, has-insert, Distinct, insert-Distinct, arith, if◌then◌else◌, not,
  ◌&&◌,
}
use hub.Namespace.Entry.{
  Slice, NameSpace, append_one, append_sort, append_new, add_prefix, sort_insert, sort_slice,
  prefixes, base_uris, collect, merge_slice, merge,
}

-- A text is one of the others.
abbrev pub same : Text → Text → Bool
same a b = ite (text_discrete a b) true false

has-sort_insert :
    (t s : Text) (ts : List Text)
    → has text_discrete t (sort_insert s ts) ≡ (same s t || has text_discrete t ts)
unfolding has sort_insert
has-sort_insert t s [] = ground arith
has-sort_insert t s (u ∷ ts) = ground (arith, has-sort_insert t s ts)

pub has-sort_slice :
    (t : Text) (ts : List Text) → has text_discrete t (sort_slice ts) ≡ has text_discrete t ts
unfolding has sort_slice
has-sort_slice t [] = refl
has-sort_slice t (u ∷ ts) = ground (arith, has-sort_slice t ts, has-sort_insert t u (sort_slice ts))

pub has-append_one :
    (t s : Text) (ts : List Text)
    → has text_discrete t (ts ++ s ∷ []) ≡ (has text_discrete t ts || same s t)
unfolding has
has-append_one t s [] = ground arith
has-append_one t s (u ∷ ts) = ground (arith, has-append_one t s ts)

has-append_new :
    (grow : ℕ → ℕ) (t s : Text) (alt : Slice)
    → has text_discrete t (append_new grow alt s).items
      ≡ (has text_discrete t alt.items || same s t)
unfolding append_new append_one
has-append_new grow t s alt = ground (arith, has-append_one t s alt.items)

pub has-prefixes :
    (ns : NameSpace) (t : Text)
    → has text_discrete t (prefixes ns).1
      ≡ (has text_discrete t ns.prefix_alt.items || same ns.prefix t)
unfolding prefixes append_sort
has-prefixes ns t = ground (
  arith,
  has-sort_slice t (ns.prefix_alt.items ++ ns.prefix ∷ []),
  has-append_one t ns.prefix ns.prefix_alt.items,
)

pub has-base_uris :
    (ns : NameSpace) (t : Text)
    → has text_discrete t (base_uris ns).1
      ≡ (has text_discrete t ns.base_alt.items || same ns.base t)
unfolding base_uris append_sort
has-base_uris ns t = ground (
  arith,
  has-sort_slice t (ns.base_alt.items ++ ns.base ∷ []),
  has-append_one t ns.base ns.base_alt.items,
)

-- Behind `AddPrefix` a namespace has its old prefixes and the new one, unless it was temporary: then
-- the new prefix replaces the temporary one.
pub has-prefixes-add_prefix :
    (grow : ℕ → ℕ) (ns : NameSpace) (p t : Text)
    → has text_discrete t (prefixes (add_prefix grow ns p)).1 ≡ (
        if ns.temporary
        then has text_discrete t ns.prefix_alt.items || same p t
        else has text_discrete t (prefixes ns).1 || same p t)
unfolding add_prefix
has-prefixes-add_prefix grow ns p t = ground (
  arith,
  has-prefixes ns t,
  has-prefixes (record ns { temporary = false; prefix = p }) t,
  has-prefixes (record ns { prefix_alt = append_new grow ns.prefix_alt p }) t,
  has-append_new grow t p ns.prefix_alt,
)

has-collect :
    (e t : Text) (items keys : List Text)
    → has text_discrete t (collect e items keys)
      ≡ (has text_discrete t keys || (has text_discrete t items && not (same t e)))
unfolding has collect
has-collect e t [] keys = ground arith
has-collect e t (p ∷ items) keys = ground (
  arith,
  has-collect e t items (ite (text_discrete p e) keys (insert text_discrete p keys)),
  has-insert text_discrete t p keys,
)

has-merge_slice :
    (e t : Text) (first second : List Text)
    → has text_discrete t (merge_slice first second e)
      ≡ ((has text_discrete t first || has text_discrete t second) && not (same t e))
unfolding merge_slice has
has-merge_slice e t first second =
    ground (arith, has-collect e t second (collect e first []), has-collect e t first [])

-- A merged namespace has the prefixes that both had, and the first one's own prefix stays its default.
pub has-prefixes-merge :
    (ns other : NameSpace) (t : Text)
    → (has text_discrete t (prefixes (merge ns other).0).1
        ≡ (has text_discrete t (prefixes ns).1 || has text_discrete t (prefixes other).1))
      × ((merge ns other).0.prefix ≡ ns.prefix)
unfolding merge
has-prefixes-merge ns other t = ground (
  arith,
  has-prefixes ns t,
  has-prefixes (merge ns other).0 t,
  has-merge_slice ns.prefix t ns.prefix_alt.items (prefixes other).1,
)

-- The same for the bases.
has-base_uris-merge :
    (ns other : NameSpace) (t : Text)
    → (has text_discrete t (base_uris (merge ns other).0).1
        ≡ (has text_discrete t (base_uris ns).1 || has text_discrete t (base_uris other).1))
      × ((merge ns other).0.base ≡ ns.base)
unfolding merge prefixes base_uris
has-base_uris-merge ns other t = ground (
  arith,
  has-base_uris ns t,
  has-base_uris (merge ns other).0 t,
  has-merge_slice ns.base t ns.base_alt.items (base_uris other).1,
)

collect-Distinct :
    (e : Text) (items keys : List Text)
    → Distinct text_discrete keys
    → Distinct text_discrete (collect e items keys)
unfolding collect
collect-Distinct e [] keys d = d
collect-Distinct e (p ∷ items) keys d = elim (text_discrete p e) [
  | yes q ↦ rw (if_pos _ q) (collect-Distinct e items keys d)
  | no q ↦ rw (if_neg _ q) (
      collect-Distinct e items (insert text_discrete p keys)
        (insert-Distinct text_discrete p keys d))
]

merge_slice-Distinct :
    (e : Text) (first second : List Text) → Distinct text_discrete (e ∷ merge_slice first second e)
merge_slice-Distinct e first second = (
  ground (arith, has-merge_slice e e first second),
  unfold merge_slice in
      collect-Distinct e second (collect e first []) (collect-Distinct e first [] tt),
)

-- No alternative prefix or base of a merged namespace comes twice or repeats the default one.
merge-Distinct :
    (ns other : NameSpace)
    → Distinct text_discrete ((merge ns other).0.prefix ∷ (merge ns other).0.prefix_alt.items)
      × Distinct text_discrete ((merge ns other).0.base ∷ (merge ns other).0.base_alt.items)
unfolding merge prefixes base_uris
merge-Distinct ns other = (
  merge_slice-Distinct ns.prefix ns.prefix_alt.items (prefixes other).1,
  merge_slice-Distinct ns.base ns.base_alt.items (base_uris other).1,
)
