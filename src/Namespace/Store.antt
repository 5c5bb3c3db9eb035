-- ===== src/Namespace/Store.antt =====
-- ikuzo/storage/memory/namespace.go: the store. Its maps hold pointers to namespaces that the caller
-- may change, so the namespaces stand in a heap beside them and a pointer is a number. `fresh` is what
-- `generateID` returns; the locks make an operation one step.
pub mod Laws
use hub.Prelude.{
  ℕ, suc, Option, none, some, List, [], ◌∷◌, Text, text_discrete, ℕ_discrete, get, put, delete,
  length, map,
}
use hub.Namespace.Entry.{NameSpace, get_id, prefixes, base_uris}

pub record NameSpaceStore : Type 0 where
  pub prefix2base : List (Text × ℕ)
  pub base2prefix : List (Text × ℕ)
  pub namespaces : List (Text × ℕ)
  pub heap : List (ℕ × NameSpace)

pub data StoreError : Type 0 where
  namespace_not_found namespace_not_valid empty_namespace : StoreError

unfoldable pub new_name_space_store : NameSpaceStore
new_name_space_store = record { prefix2base = []; base2prefix = []; namespaces = []; heap = [] }

unfoldable pub len : NameSpaceStore → ℕ
len ms = length ms.namespaces

-- `for _, k := range keys { m[k] = ns }`
unfoldable pub put_all : List Text → ℕ → List (Text × ℕ) → List (Text × ℕ)
put_all [] p m = m
put_all (k ∷ keys) p m = put_all keys p (put text_discrete k p m)

-- `for _, k := range keys { delete(m, k) }`
unfoldable pub delete_all : List Text → List (Text × ℕ) → List (Text × ℕ)
delete_all [] m = m
delete_all (k ∷ keys) m = delete_all keys (delete text_discrete k m)

-- `Delete` of the namespace that stands at the pointer.
unfoldable pub delete_found : Text → ℕ → NameSpace → NameSpaceStore → NameSpaceStore
delete_found fresh p ns ms =
    let (ns1, id) = get_id fresh ns in
    let (ns2, its_prefixes) = prefixes ns1 in
    let (ns3, its_bases) = base_uris ns2 in
    record {
      prefix2base = delete_all its_prefixes ms.prefix2base;
      base2prefix = delete_all its_bases ms.base2prefix;
      namespaces = delete text_discrete id ms.namespaces;
      heap = put ℕ_discrete p ns3 ms.heap;
    }

-- What `Delete` leaves of the namespace.
unfoldable pub deleted : Text → NameSpace → NameSpace
deleted fresh ns = (base_uris (prefixes (get_id fresh ns).0).0).0

-- What `Set` does behind `Delete`.
unfoldable pub set_found : Text → ℕ → NameSpace → NameSpaceStore → NameSpaceStore
set_found fresh p ns ms =
    let (ns1, its_prefixes) = prefixes ns in
    let (ns2, its_bases) = base_uris ns1 in
    let (ns3, id) = get_id fresh ns2 in
    record {
      prefix2base = put_all its_prefixes p ms.prefix2base;
      base2prefix = put_all its_bases p ms.base2prefix;
      namespaces = put text_discrete id p ms.namespaces;
      heap = put ℕ_discrete p ns3 ms.heap;
    }

-- `Set`; a pointer to nothing is `nil`.
unfoldable pub set : Text → ℕ → NameSpaceStore → NameSpaceStore × Option StoreError
set fresh p ms = elim (get ℕ_discrete p ms.heap) [
  | none ↦ (ms, some empty_namespace)
  | some ns ↦ (set_found fresh p (deleted fresh ns) (delete_found fresh p ns ms), none)
]

-- `GetWithPrefix`; `none` is the error that the namespace is not found.
unfoldable pub get_with_prefix : Text → NameSpaceStore → Option ℕ
get_with_prefix prefix ms = get text_discrete prefix ms.prefix2base

unfoldable pub get_with_base : Text → NameSpaceStore → Option ℕ
get_with_base base ms = get text_discrete base ms.base2prefix

-- `Delete`; it panics on `nil`.
unfoldable pub delete_name_space : Text → ℕ → NameSpaceStore → Option NameSpaceStore
delete_name_space fresh p ms = elim (get ℕ_discrete p ms.heap) [
  | none ↦ none
  | some ns ↦ some (delete_found fresh p ns ms)
]

-- `List`
unfoldable pub list : NameSpaceStore → List ℕ
list ms = map (λ e. e.1) ms.namespaces
