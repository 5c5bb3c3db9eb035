-- ===== src/Namespace/Service.antt =====
-- ikuzo/service/x/namespace/service.go over the store in memory, which is its default. `fresh` is what
-- `generateID` returns, a new namespace stands at the pointer `p`, and `grow` is as in Namespace.Entry.
pub mod Laws
mod Tests
use hub.Prelude.{
  ℕ, Bool, true, false, Option, none, some, List, [], ◌∷◌, ◌++◌, ite, Text, text_discrete,
  ℕ_discrete, get, put, is_blank, if◌then◌else◌,
}
use hub.Namespace.Uri.{split_uri}
use hub.Namespace.Entry.{NameSpace, full, add_prefix}
use hub.Namespace.Store.{
  NameSpaceStore, StoreError, namespace_not_valid, namespace_not_found, set, get_with_prefix,
  get_with_base,
}

-- What `Add` returns: the namespace or an error.
pub data AddResult : Type 0 where
  added : ℕ → AddResult
  failed : StoreError → AddResult

-- `err := s.store.Set(ns); if err != nil { return nil, err }; return ns, nil`
abbrev pub finish : ℕ → NameSpaceStore × Option StoreError → NameSpaceStore × AddResult
finish p (ms, none) = (ms, added p)
finish p (ms, some e) = (ms, failed e)

-- `ns := &domain.NameSpace{…}` and `s.store.Set(ns)`
unfoldable pub store_new : Text → ℕ → NameSpace → NameSpaceStore → NameSpaceStore × AddResult
store_new fresh p ns ms = finish p (set fresh p (record ms { heap = put ℕ_discrete p ns ms.heap }))

-- A namespace whose own prefix is its identifier.
unfoldable pub temporary_name_space : Text → Text → List Text → NameSpace
temporary_name_space fresh base prefix_alt = record {
  uuid = fresh;
  base = base;
  prefix = fresh;
  base_alt = full [];
  prefix_alt = full prefix_alt;
  schema = [];
  temporary = true;
}

unfoldable pub plain_name_space : Text → Text → NameSpace
plain_name_space prefix base = record {
  uuid = [];
  base = base;
  prefix = prefix;
  base_alt = full [];
  prefix_alt = full [];
  schema = [];
  temporary = false;
}

-- The pointer of a lookup and what stands there.
unfoldable pub load_found : Option ℕ → NameSpaceStore → Option (ℕ × NameSpace)
load_found none ms = none
load_found (some q) ms = elim (get ℕ_discrete q ms.heap) [ none ↦ none | some ns ↦ some (q, ns) ]

-- The end of `Add`, where the prefix is new.
unfoldable pub add_by_base :
    (ℕ → ℕ) → Text → ℕ → Text → Text → NameSpaceStore → NameSpaceStore × AddResult
add_by_base grow fresh p prefix base ms = elim (load_found (get_with_base base ms) ms) [
  | some found ↦ finish found.0 (
      set fresh found.0
        (record ms { heap = put ℕ_discrete found.0 (add_prefix grow found.1 prefix) ms.heap }))
  | none ↦ store_new fresh p (plain_name_space prefix base) ms
]

-- `Add` with a base and a prefix.
unfoldable pub add_by_prefix :
    (ℕ → ℕ) → Text → ℕ → Text → Text → NameSpaceStore → NameSpaceStore × AddResult
add_by_prefix grow fresh p prefix base ms = elim (load_found (get_with_prefix prefix ms) ms) [
  | some found ↦
      ite (text_discrete base found.1.base) (ms, added found.0)
        (store_new fresh p (temporary_name_space fresh base (prefix ∷ [])) ms)
  | none ↦ add_by_base grow fresh p prefix base ms
]

unfoldable pub add : (ℕ → ℕ) → Text → ℕ → Text → Text → NameSpaceStore → NameSpaceStore × AddResult
add grow fresh p prefix base ms =
    if is_blank base
    then (ms, failed namespace_not_valid)
    else if is_blank prefix
    then store_new fresh p (temporary_name_space fresh base []) ms
    else add_by_prefix grow fresh p prefix base ms

-- `SearchLabel`; `none` is the error that the namespace is not found.
unfoldable pub search_label : Text → NameSpaceStore → Option Text
search_label uri ms =
    let (base, label) = split_uri uri in
    elim (load_found (get_with_base base ms) ms) [
      | none ↦ none
      | some found ↦ some (found.1.prefix ++ b'_' ∷ label)
    ]
