-- ===== src/Namespace/Entry.antt =====
-- ikuzo/domain/namespace.go: one namespace. `fresh` stands for what `generateID` returns, and `grow n` for
-- the room that `append` leaves behind when it moves a full slice of `n` elements. No two namespaces
-- share the array of a slice, and `Merge` is that of two different ones.
pub mod Laws
pub mod Slices
use hub.Prelude.{
  ℕ, ◌-◌, length, take, Bool, true, false, List, [], ◌∷◌, ◌++◌, Text, text_discrete, has, insert,
  is_blank, ltb, ite, ◌==◌, if◌then◌else◌,
}

-- A slice: its elements, and how many more its array has room for.
pub record Slice : Type 0 where
  pub items : List Text
  pub room : ℕ

pub record NameSpace : Type 0 where
  pub uuid : Text
  pub base : Text
  pub prefix : Text
  pub base_alt : Slice
  pub prefix_alt : Slice
  pub schema : Text
  pub temporary : Bool

-- `append`
unfoldable pub append_one : (ℕ → ℕ) → Slice → Text → Slice
append_one grow alt t = record {
  items = alt.items ++ t ∷ [];
  room = if alt.room == 0 then grow (length alt.items) else alt.room - 1;
}

-- The loop over the alternatives and the `append` behind it.
unfoldable pub append_new : (ℕ → ℕ) → Slice → Text → Slice
append_new grow alt t = if has text_discrete t alt.items then alt else append_one grow alt t

unfoldable pub add_prefix : (ℕ → ℕ) → NameSpace → Text → NameSpace
add_prefix grow ns prefix =
    if ns.temporary
    then record ns { temporary = false; prefix = prefix }
    else record ns { prefix_alt = append_new grow ns.prefix_alt prefix }

unfoldable pub add_base : (ℕ → ℕ) → NameSpace → Text → NameSpace
add_base grow ns base = record ns { base_alt = append_new grow ns.base_alt base }

-- `<` on strings.
unfoldable pub less : Text → Text → Bool
less [] [] = false
less [] (d ∷ t) = true
less (c ∷ s) [] = false
less (c ∷ s) (d ∷ t) = let rest = less s t in if c == d then rest else ltb c d

-- `sort.Slice`
unfoldable pub sort_insert : Text → List Text → List Text
sort_insert s [] = s ∷ []
sort_insert s (t ∷ ts) = let rest = sort_insert s ts in if less t s then t ∷ rest else s ∷ t ∷ ts

unfoldable pub sort_slice : List Text → List Text
sort_slice [] = []
sort_slice (s ∷ ss) = sort_insert s (sort_slice ss)

-- What `append(alt, t)` and `sort.Slice` of that leave in the array of `alt`, and the sorted slice. With
-- room both work in that array, so `alt` then holds the first of the sorted elements; without, in a copy.
unfoldable pub append_sort : Slice → Text → Slice × List Text
append_sort alt t =
    let sorted = sort_slice (alt.items ++ t ∷ []) in
    (if alt.room == 0 then alt else record alt { items = take (length alt.items) sorted }, sorted)

-- `Prefixes`, with what it leaves of the namespace.
unfoldable pub prefixes : NameSpace → NameSpace × List Text
prefixes ns =
    let (alt, sorted) = append_sort ns.prefix_alt ns.prefix in
    (record ns { prefix_alt = alt }, sorted)

unfoldable pub base_uris : NameSpace → NameSpace × List Text
base_uris ns =
    let (alt, sorted) = append_sort ns.base_alt ns.base in (record ns { base_alt = alt }, sorted)

unfoldable pub get_id : Text → NameSpace → NameSpace × Text
get_id fresh ns = if is_blank ns.uuid then (record ns { uuid = fresh }, fresh) else (ns, ns.uuid)

-- The inner loop of `mergeSlice`.
unfoldable pub collect : Text → List Text → List Text → List Text
collect exclude [] keys = keys
collect exclude (p ∷ items) keys =
    collect exclude items (ite (text_discrete p exclude) keys (insert text_discrete p keys))

unfoldable pub merge_slice : List Text → List Text → Text → List Text
merge_slice first second exclude = collect exclude second (collect exclude first [])

-- `make([]string, len(keys))`
abbrev pub full : List Text → Slice
full keys = record { items = keys; room = 0 }

-- `Merge`: both namespaces behind it.
unfoldable pub merge : NameSpace → NameSpace → NameSpace × NameSpace
merge ns other =
    let (other', its_prefixes) = prefixes other in
    let (other'', its_bases) = base_uris other' in
    (
      record ns {
        prefix_alt = full (merge_slice ns.prefix_alt.items its_prefixes ns.prefix);
        base_alt = full (merge_slice ns.base_alt.items its_bases ns.base);
      },
      other'',
    )
