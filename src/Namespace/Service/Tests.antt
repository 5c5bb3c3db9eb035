-- ===== src/Namespace/Service/Tests.antt =====
-- Runs of the namespace service over its store, and the theorems at inputs that exercise the code.
use hub.Prelude.{
  ℕ, ◌-◌, true, false, ◌≡◌, refl, none, some, [], Text, codes, text_discrete, ℕ_discrete, has, get,
  put, delete, if◌then◌else◌,
}
use hub.Namespace.Uri.{split_uri, split_at, after_last}
use hub.Namespace.Entry.{
  NameSpace, get_id, append_one, append_sort, add_prefix, append_new, less, sort_insert, sort_slice,
  prefixes, base_uris,
}
use hub.Namespace.Store.{
  NameSpaceStore, new_name_space_store, put_all, delete_all, delete_found, deleted, set_found, set,
  get_with_prefix, get_with_base, delete_name_space,
}
use hub.Namespace.Store.Laws.{
  IsWellFormed, loses_prefix, get_with_prefix-set, delete_name_space_lem,
}
use hub.Namespace.Service.{
  store_new, temporary_name_space, plain_name_space, load_found, add_by_base, add_by_prefix, add,
  search_label,
}
use hub.Namespace.Service.Laws.{
  Resolves, ResolvesBase, keeps_added, keeps_base, add-Resolves, add-ResolvesBase,
}

service_run : Unit {0}
unfolding split_uri split_at after_last get_id append_one append_sort add_prefix append_new less
    sort_insert sort_slice prefixes base_uris new_name_space_store put_all delete_all delete_found
    deleted set_found set get_with_prefix get_with_base delete_name_space store_new
    temporary_name_space plain_name_space load_found add_by_base add_by_prefix add search_label has
    get put delete text_discrete ℕ_discrete
service_run = tt

-- Go doubles a small array: one of `n` elements leaves room for `n - 1` behind the new one.
abbrev grow : ℕ → ℕ
grow n = n - 1

abbrev one_base : Text
one_base = codes "http://one/"

abbrev one : NameSpaceStore
one = (add grow (codes "id1") 1 (codes "a") one_base new_name_space_store).0

abbrev two : NameSpaceStore
two = (add grow (codes "id2") 2 (codes "a") (codes "http://two/") one).0

two_unknown :
    keeps_added grow (codes "a") (load_found (get_with_base (codes "http://two/") one) one) ≡ true
unfolding service_run
two_unknown = refl

one_kept : keeps_base one_base (load_found (get_with_base one_base one) one) ≡ true
unfolding service_run
one_kept = refl

add-Resolves_example :
    Resolves (codes "a") (add grow (codes "id2") 2 (codes "a") (codes "http://two/") one)
add-Resolves_example =
    add-Resolves grow (codes "id2") 2 (codes "a") (codes "http://two/") one refl refl two_unknown

b_unknown : get_with_prefix (codes "b") one ≡ none
unfolding service_run
b_unknown = refl

add-ResolvesBase_example : ResolvesBase one_base (add grow (codes "id3") 3 (codes "b") one_base one)
add-ResolvesBase_example =
    add-ResolvesBase grow (codes "id3") 3 (codes "b") one_base one refl refl b_unknown one_kept

-- The fourth prefix of a base is lost: `Set` sorts the default prefix into the array of the others.
abbrev four : NameSpaceStore
four =
    let b = (add grow (codes "id2") 2 (codes "b") one_base one).0 in
    let c = (add grow (codes "id3") 3 (codes "c") one_base b).0 in
    (add grow (codes "id4") 4 (codes "d") one_base c).0

lost_test : (get_with_prefix (codes "c") four ≡ some 1) × (get_with_prefix (codes "d") four ≡ none)
unfolding service_run
lost_test = (refl, refl)

-- A second base takes the prefix away from the namespace that had it.
taken_test : get_with_prefix (codes "a") two ≡ some 2
unfolding service_run
taken_test = refl

-- Its first base then has a label with a prefix that leads elsewhere.
search_label_test : search_label (codes "http://one/x") two ≡ some (codes "a_x")
unfolding service_run
search_label_test = refl

-- A temporary namespace that is given a prefix leaves its temporary one in the store.
stale_test :
    get_with_prefix
      (codes "id1")
      (add grow
        (codes "id2")
        2
        (codes "a")
        one_base
        (add grow (codes "id1") 1 [] one_base new_name_space_store).0).0
    ≡ some 1
unfolding service_run
stale_test = refl

abbrev stored : NameSpace
stored = record (plain_name_space (codes "a") one_base) { uuid = codes "id1" }

stored_at : get ℕ_discrete 1 one.heap ≡ some stored
unfolding service_run
stored_at = refl

stored_kept : loses_prefix stored (codes "a") ≡ false
unfolding service_run
stored_kept = refl

get_with_prefix-set_example : get_with_prefix (codes "a") (set (codes "id9") 1 one).0 ≡ (
    if has text_discrete (codes "a") (prefixes stored).1
    then some 1
    else get_with_prefix (codes "a") one)
get_with_prefix-set_example =
    get_with_prefix-set (codes "id9") (codes "a") 1 stored one stored_at stored_kept

one-IsWellFormed : IsWellFormed one
unfolding service_run
one-IsWellFormed = record { prefixes_once = (refl, tt); bases_once = (refl, tt) }

abbrev deleted_store : NameSpaceStore
deleted_store = delete_found (codes "id9") 1 stored one

deleted_run : delete_name_space (codes "id9") 1 one ≡ some deleted_store
unfolding service_run
deleted_run = refl

delete_name_space_example :
    (get_with_prefix (codes "a") deleted_store ≡ (
      if has text_discrete (codes "a") (prefixes stored).1
      then none
      else get_with_prefix (codes "a") one))
    × (get_with_base (codes "a") deleted_store ≡ (
        if has text_discrete (codes "a") (base_uris stored).1
        then none
        else get_with_base (codes "a") one))
delete_name_space_example =
    delete_name_space_lem (codes "id9") (codes "a") 1 stored one deleted_store one-IsWellFormed
      stored_at deleted_run
