-- ===== src/Namespace/Tests.antt =====
-- Runs of config/namespace.go and ikuzo/domain/namespace.go on small inputs, and the theorems at
-- inputs that exercise the code.
use hub.Prelude.{
  ◌≡◌, refl, false, ◌||◌, none, some, List, [], ◌∷◌, Text, codes, text_discrete, ℕ_discrete, has,
  get, put, inl, has_prefix, delete, trim_left,
}
use hub.Namespace.Uri.{split_uri, split_at, after_last}
use hub.Namespace.Config.{
  NameSpaceMap, new_name_space_map, add, load, add_name_space, get_base_uri, get_prefix,
  delete_prefix, delete_base_uri, get_search_label, resolve_urn,
}
use hub.Namespace.Config
use hub.Namespace.Config.Laws.{
  IsConsistent, new_name_space_map-IsConsistent, add-IsConsistent, delete_prefix_lem,
}
use hub.Namespace.Entry
use hub.Namespace.Entry.{
  full, append_sort, add_prefix, merge, prefixes, base_uris, append_new, sort_slice, sort_insert,
  less, collect, merge_slice,
}
use hub.Namespace.Entry.Laws.{has-prefixes-merge}

config_run : Unit {0}
unfolding split_uri split_at after_last new_name_space_map add load add_name_space get_base_uri
    get_prefix delete_prefix delete_base_uri get_search_label resolve_urn trim_left get put delete
    has text_discrete ℕ_discrete has_prefix
config_run = tt

split_uri_test : split_uri (codes "http://a.nl/b#c") ≡ (codes "http://a.nl/b#", codes "c")
unfolding config_run
split_uri_test = refl

no_hash : has ℕ_discrete (b'#') (codes "c") ≡ false
unfolding config_run
no_hash = refl

no_slash : has ℕ_discrete (b'/') (codes "c") ≡ false
unfolding config_run
no_slash = refl

no_hash_in_base : has ℕ_discrete (b'#') (codes "http://a.nl") ≡ false
unfolding config_run
no_hash_in_base = refl

abbrev dc_map : NameSpaceMap
dc_map = add new_name_space_map (codes "dc") (codes "http://purl.org/dc/")

prefix_free : get_base_uri new_name_space_map (codes "dc") ≡ none
unfolding config_run
prefix_free = refl

base_free : get_prefix new_name_space_map (codes "http://purl.org/dc/") ≡ none
unfolding config_run
base_free = refl

dc_map-IsConsistent : IsConsistent dc_map
dc_map-IsConsistent =
    add-IsConsistent new_name_space_map (codes "dc") (codes "http://purl.org/dc/") (inl prefix_free)
      (inl base_free) new_name_space_map-IsConsistent

dc_known : get_base_uri dc_map (codes "dc") ≡ some (codes "http://purl.org/dc/")
unfolding config_run
dc_known = refl

edm_free : get_base_uri dc_map (codes "edm") ≡ none
unfolding config_run
edm_free = refl

edm_base_free : get_prefix dc_map (codes "http://edm/") ≡ none
unfolding config_run
edm_base_free = refl

delete_prefix_example :
    (delete_prefix dc_map (codes "dc") ≡ delete_base_uri dc_map (codes "http://purl.org/dc/"))
    × (get_base_uri (delete_prefix dc_map (codes "dc")) (codes "dc") ≡ none)
    × (get_prefix (delete_prefix dc_map (codes "dc")) (codes "http://purl.org/dc/") ≡ none)
delete_prefix_example =
    delete_prefix_lem dc_map (codes "dc") (codes "http://purl.org/dc/") dc_map-IsConsistent dc_known

abbrev entries : List Config.NameSpace
entries =
    record { base = codes "http://one/"; prefix = codes "a" }
    ∷ record { base = codes "http://two/"; prefix = codes "a" }
    ∷ []

abbrev tagged : Text → Text
tagged base = b'n' ∷ []

get_search_label_test :
    (get_search_label tagged dc_map (codes "urn:ebu:metadata-schema:ebuCore_2014/title")).1
    ≡ codes "n_title"
unfolding config_run
get_search_label_test = refl

abbrev dc : Entry.NameSpace
dc = record {
  uuid = codes "1";
  base = codes "http://purl.org/dc/";
  prefix = codes "dc";
  base_alt = full [];
  prefix_alt = full (codes "dces" ∷ []);
  schema = [];
  temporary = false;
}

abbrev terms : Entry.NameSpace
terms = record dc { uuid = codes "2"; base = codes "http://terms/"; prefix = codes "aa" }

has-prefixes-merge_example :
    (has text_discrete (codes "aa") (prefixes (merge dc terms).0).1 ≡ (
      has text_discrete (codes "aa") (prefixes dc).1
      || has text_discrete (codes "aa") (prefixes terms).1))
    × ((merge dc terms).0.prefix ≡ dc.prefix)
has-prefixes-merge_example = has-prefixes-merge dc terms (codes "aa")

prefixes_test : (prefixes terms).1 ≡ codes "aa" ∷ codes "dces" ∷ []
unfolding prefixes append_sort sort_slice sort_insert less
prefixes_test = refl

-- With room behind the alternatives the default prefix is sorted into their array.
in_place_test :
    (prefixes
      (record terms { prefix_alt = record terms.prefix_alt { room = 1 } })).0.prefix_alt.items
    ≡ codes "aa" ∷ []
unfolding prefixes append_sort sort_slice sort_insert less
in_place_test = refl
