-- ===== src/Namespace/Store/Laws.antt =====
-- ikuzo/storage/memory/namespace.go: the lookups behind `Set` and `Delete`.
use hub.Prelude.{
  ℕ, ◌≡◌, refl, Bool, ap, sym, ◌∙◌, false, none, some, List, [], ◌∷◌, ite, Text, text_discrete,
  ℕ_discrete, get, put, delete, has, IsMap, get-put, get-delete, delete-IsMap, arith, if◌then◌else◌,
}
use hub.Namespace.Entry.{NameSpace, get_id, append_sort, prefixes, base_uris}
use hub.Namespace.Entry.Slices.{loses, has-append_sort_again}
use hub.Namespace.Store.{
  NameSpaceStore, put_all, delete_all, delete_found, deleted, set_found, set, get_with_prefix,
  get_with_base, delete_name_space,
}

get-put_all :
    (t : Text) (keys : List Text) (p : ℕ) (m : List (Text × ℕ))
    → get text_discrete t (put_all keys p m)
      ≡ (if has text_discrete t keys then some p else get text_discrete t m)
unfolding put_all has
get-put_all t [] p m = refl
get-put_all t (k ∷ keys) p m =
    ground (arith, get-put_all t keys p (put text_discrete k p m), get-put text_discrete t k p m)

get-delete_other :
    (t k : Text) (m : List (Text × ℕ))
    → get text_discrete t (delete text_discrete k m)
      ≡ ite
          (text_discrete k t)
          (get text_discrete t (delete text_discrete k m))
          (get text_discrete t m)
unfolding get delete
get-delete_other t k [] = ground arith
get-delete_other t k ((i, w) ∷ m) = ground (arith, get-delete_other t k m)

get-delete_all_other :
    (t : Text) (keys : List Text) (m : List (Text × ℕ))
    → has text_discrete t keys ≡ false
    → get text_discrete t (delete_all keys m) ≡ get text_discrete t m
unfolding delete_all has
get-delete_all_other t [] m h = refl
get-delete_all_other t (k ∷ keys) m h =
    ground (arith, get-delete_all_other t keys (delete text_discrete k m), get-delete_other t k m)

get-delete_all :
    (t : Text) (keys : List Text) (m : List (Text × ℕ))
    → IsMap text_discrete m
    → get text_discrete t (delete_all keys m)
      ≡ (if has text_discrete t keys then none else get text_discrete t m)
unfolding delete_all has
get-delete_all t [] m h = refl
get-delete_all t (k ∷ keys) m h = ground (
  arith,
  get-delete_all t keys (delete text_discrete k m) (delete-IsMap text_discrete k m h),
  get-delete text_discrete t k m h,
)

prefixes-get_id :
    (fresh : Text) (ns : NameSpace) → (prefixes (get_id fresh ns).0).1 ≡ (prefixes ns).1
unfolding prefixes get_id
prefixes-get_id fresh ns = ground arith

base_uris-get_id :
    (fresh : Text) (ns : NameSpace)
    → (base_uris (prefixes (get_id fresh ns).0).0).1 ≡ (base_uris ns).1
unfolding prefixes base_uris get_id
base_uris-get_id fresh ns = ground arith

-- What the second `Prefixes` and `BaseURIs` of `Set` return.
prefixes-deleted :
    (fresh : Text) (ns : NameSpace)
    → (prefixes (deleted fresh ns)).1
      ≡ (append_sort (append_sort ns.prefix_alt ns.prefix).0 ns.prefix).1
unfolding deleted prefixes base_uris get_id
prefixes-deleted fresh ns = ground arith

base_uris-deleted :
    (fresh : Text) (ns : NameSpace)
    → (base_uris (prefixes (deleted fresh ns)).0).1
      ≡ (append_sort (append_sort ns.base_alt ns.base).0 ns.base).1
unfolding deleted prefixes base_uris get_id
base_uris-deleted fresh ns = ground arith

-- `Set` loses the prefix: it is an alternative that no other prefix comes behind, and the slice of the
-- alternatives has room.
abbrev pub loses_prefix : NameSpace → Text → Bool
loses_prefix ns t = loses ns.prefix_alt ns.prefix t

abbrev pub loses_base : NameSpace → Text → Bool
loses_base ns t = loses ns.base_alt ns.base t

has-prefixes-deleted :
    (fresh t : Text) (ns : NameSpace)
    → loses_prefix ns t ≡ false
    → has text_discrete t (prefixes (deleted fresh ns)).1 ≡ has text_discrete t (prefixes ns).1
has-prefixes-deleted fresh t ns h =
    ap (has text_discrete t) (prefixes-deleted fresh ns)
    ∙ has-append_sort_again ns.prefix_alt ns.prefix t h
    ∙ ap (has text_discrete t) (sym (unfold prefixes in refl))

has-base_uris-deleted :
    (fresh t : Text) (ns : NameSpace)
    → loses_base ns t ≡ false
    → has text_discrete t (base_uris (prefixes (deleted fresh ns)).0).1
      ≡ has text_discrete t (base_uris ns).1
has-base_uris-deleted fresh t ns h =
    ap (has text_discrete t) (base_uris-deleted fresh ns)
    ∙ has-append_sort_again ns.base_alt ns.base t h
    ∙ ap (has text_discrete t) (sym (unfold base_uris in refl))

-- After `Set` every prefix of the namespace leads to it, and every other prefix to what it led to
-- before, but for an alternative that no other prefix comes behind where the slice of the alternatives
-- has room.
pub get_with_prefix-set :
    (fresh t : Text) (p : ℕ) (ns : NameSpace) (ms : NameSpaceStore)
    → get ℕ_discrete p ms.heap ≡ some ns
    → loses_prefix ns t ≡ false
    → get_with_prefix t (set fresh p ms).0
      ≡ (if has text_discrete t (prefixes ns).1 then some p else get_with_prefix t ms)
unfolding get_with_prefix set set_found delete_found
get_with_prefix-set fresh t p ns ms e h =
    let kept = has-prefixes-deleted fresh t ns h in
    let after =
      get-put_all t (prefixes (deleted fresh ns)).1 p
        (delete_all (prefixes (get_id fresh ns).0).1 ms.prefix2base) in
    let before = get-delete_all_other t (prefixes (get_id fresh ns).0).1 ms.prefix2base in
    ground (arith, e, prefixes-get_id fresh ns, kept, after, before)

-- The same for the bases.
pub get_with_base-set :
    (fresh t : Text) (p : ℕ) (ns : NameSpace) (ms : NameSpaceStore)
    → get ℕ_discrete p ms.heap ≡ some ns
    → loses_base ns t ≡ false
    → get_with_base t (set fresh p ms).0
      ≡ (if has text_discrete t (base_uris ns).1 then some p else get_with_base t ms)
unfolding get_with_base set set_found delete_found
get_with_base-set fresh t p ns ms e h =
    let kept = has-base_uris-deleted fresh t ns h in
    let listed = (base_uris (prefixes (get_id fresh ns).0).0).1 in
    let after =
      get-put_all t (base_uris (prefixes (deleted fresh ns)).0).1 p
        (delete_all listed ms.base2prefix) in
    let before = get-delete_all_other t listed ms.base2prefix in
    ground (arith, e, base_uris-get_id fresh ns, kept, after, before)

-- The maps have no key twice.
pub record IsWellFormed (ms : NameSpaceStore) : Type 0 where
  pub prefixes_once : IsMap text_discrete ms.prefix2base
  pub bases_once : IsMap text_discrete ms.base2prefix

-- After `Delete` no prefix and no base of the namespace is found, and every other lookup is as before.
pub delete_name_space_lem :
    (fresh t : Text) (p : ℕ) (ns : NameSpace) (ms ms' : NameSpaceStore)
    → IsWellFormed ms
    → get ℕ_discrete p ms.heap ≡ some ns
    → delete_name_space fresh p ms ≡ some ms'
    → (get_with_prefix t ms'
        ≡ (if has text_discrete t (prefixes ns).1 then none else get_with_prefix t ms))
      × (get_with_base t ms'
          ≡ (if has text_discrete t (base_uris ns).1 then none else get_with_base t ms))
unfolding get_with_prefix get_with_base delete_name_space delete_found
delete_name_space_lem fresh t p ns ms ms' wf e d = ground (
  arith,
  e,
  d,
  prefixes-get_id fresh ns,
  base_uris-get_id fresh ns,
  get-delete_all t (prefixes ns).1 ms.prefix2base wf.prefixes_once,
  get-delete_all t (base_uris ns).1 ms.base2prefix wf.bases_once,
)
