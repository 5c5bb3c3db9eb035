-- ===== src/Namespace/Config.antt =====
-- config/namespace.go: the map of prefixes and bases. `default_prefix` stands for the sixteen
-- hexadecimal digits of `xxhash.Checksum64`.
pub mod Laws
use hub.Prelude.{
  ℕ, Option, none, some, List, [], ◌∷◌, ◌++◌, length, Text, text_discrete, ℕ_discrete, get, put,
  delete, has, has_prefix, codes, trim_left, if◌then◌else◌,
}
use hub.Namespace.Uri.{split_uri}

pub record NameSpace : Type 0 where
  pub base : Text
  pub prefix : Text

pub record NameSpaceMap : Type 0 where
  pub prefix2base : List (Text × Text)
  pub base2prefix : List (Text × Text)

unfoldable pub new_name_space_map : NameSpaceMap
new_name_space_map = record { prefix2base = []; base2prefix = [] }

-- `Len`
unfoldable pub len : NameSpaceMap → ℕ × ℕ
len n = (length n.prefix2base, length n.base2prefix)

unfoldable pub add : NameSpaceMap → Text → Text → NameSpaceMap
add n prefix base = record {
  prefix2base = put text_discrete prefix base n.prefix2base;
  base2prefix = put text_discrete base prefix n.base2prefix;
}

unfoldable pub add_name_space : NameSpaceMap → NameSpace → NameSpaceMap
add_name_space n ns = add n ns.prefix ns.base

-- `Load`, with the namespaces of the configuration.
unfoldable pub load : NameSpaceMap → List NameSpace → NameSpaceMap
load n [] = n
load n (ns ∷ rest) = load (add_name_space n ns) rest

unfoldable pub get_base_uri : NameSpaceMap → Text → Option Text
get_base_uri n prefix = get text_discrete prefix n.prefix2base

unfoldable pub get_prefix : NameSpaceMap → Text → Option Text
get_prefix n base = get text_discrete base n.base2prefix

-- `if ok { delete(m, value) }`
abbrev pub delete_found : Option Text → List (Text × Text) → List (Text × Text)
delete_found none m = m
delete_found (some k) m = delete text_discrete k m

unfoldable pub delete_prefix : NameSpaceMap → Text → NameSpaceMap
delete_prefix n prefix = record {
  prefix2base = delete text_discrete prefix n.prefix2base;
  base2prefix = delete_found (get text_discrete prefix n.prefix2base) n.base2prefix;
}

unfoldable pub delete_base_uri : NameSpaceMap → Text → NameSpaceMap
delete_base_uri n base = record {
  prefix2base = delete_found (get text_discrete base n.base2prefix) n.prefix2base;
  base2prefix = delete text_discrete base n.base2prefix;
}

abbrev pub ebu_core_urn : Text
ebu_core_urn = codes "urn:ebu:metadata-schema:ebuCore_2014"

abbrev pub ebu_core_base : Text
ebu_core_base = codes "http://www.ebu.ch/metadata/ontologies/ebucore/ebucore#"

-- The first step of `GetSearchLabel`: a URN of EBUCore becomes a URI.
unfoldable pub resolve_urn : Text → Text
resolve_urn uri =
    if has_prefix uri ebu_core_urn
    then ebu_core_base ++ trim_left (trim_left uri ebu_core_urn) (b'/' ∷ [])
    else uri

-- `fmt.Sprintf("%s_%s", prefix, label)`
abbrev pub search_label : Text → Text → Text
search_label prefix label = prefix ++ b'_' ∷ label

unfoldable pub get_search_label : (Text → Text) → NameSpaceMap → Text → NameSpaceMap × Text
get_search_label default_prefix n uri =
    let (base, label) = split_uri (resolve_urn uri) in
    elim (get_prefix n base) [
      | some prefix ↦ (n, search_label prefix label)
      | none ↦ (add n (default_prefix base) base, search_label (default_prefix base) label)
    ]
