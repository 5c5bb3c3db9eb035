-- ===== src/Namespace/Config/Laws.antt =====
-- config/namespace.go: lookups behind each operation, and the maps as inverses of each other.
use hub.Prelude.{
  ◌≡◌, refl, Option, none, some, List, [], ◌∷◌, ite, Text, text_discrete, get, IsMap, get-put,
  get-delete, put-IsMap, delete-IsMap, arith, ◌⊎◌,
}
use hub.Namespace.Config.{
  NameSpace, NameSpaceMap, new_name_space_map, add, add_name_space, load, get_base_uri, get_prefix,
  delete_prefix, delete_base_uri, get_search_label, resolve_urn, delete_found,
}
use hub.Namespace.Uri.{split_uri}

-- Each prefix has one base, each base one prefix, and the two maps are inverses.
pub record IsConsistent (n : NameSpaceMap) : Type 0 where
  pub prefixes_once : IsMap text_discrete n.prefix2base
  pub bases_once : IsMap text_discrete n.base2prefix
  pub to_prefix : (p b : Text) → get_base_uri n p ≡ some b → get_prefix n b ≡ some p
  pub to_base : (p b : Text) → get_prefix n b ≡ some p → get_base_uri n p ≡ some b

get_base_uri-add :
    (n : NameSpaceMap) (p b q : Text)
    → get_base_uri (add n p b) q ≡ ite (text_discrete p q) (some b) (get_base_uri n q)
unfolding get_base_uri add
get_base_uri-add n p b q = get-put text_discrete q p b n.prefix2base

get_prefix-add :
    (n : NameSpaceMap) (p b c : Text)
    → get_prefix (add n p b) c ≡ ite (text_discrete b c) (some p) (get_prefix n c)
unfolding get_prefix add
get_prefix-add n p b c = get-put text_discrete c b p n.base2prefix

-- The prefix is free or already stands for the base.
abbrev pub Agrees : Option Text → Text → Type 0
Agrees o t = (o ≡ none) ⊎ (o ≡ some t)

-- `Add` keeps the maps inverse to each other if the prefix and the base are free or stand for each
-- other already.
pub add-IsConsistent :
    (n : NameSpaceMap) (p b : Text)
    → Agrees (get_base_uri n p) b
    → Agrees (get_prefix n b) p
    → IsConsistent n
    → IsConsistent (add n p b)
add-IsConsistent n p b hp hb c = record {
  prefixes_once = unfold add in put-IsMap text_discrete p b n.prefix2base c.prefixes_once;
  bases_once = unfold add in put-IsMap text_discrete b p n.base2prefix c.bases_once;
  to_prefix =
      λ q d h. ground (arith, get_base_uri-add n p b q, get_prefix-add n p b d, c.to_prefix q d);
  to_base =
      λ q d h. ground (arith, get_base_uri-add n p b q, get_prefix-add n p b d, c.to_base q d);
}

get_base_uri-delete_prefix :
    (n : NameSpaceMap) (p q : Text)
    → IsConsistent n
    → get_base_uri (delete_prefix n p) q ≡ ite (text_discrete p q) none (get_base_uri n q)
unfolding get_base_uri delete_prefix
get_base_uri-delete_prefix n p q c = get-delete text_discrete q p n.prefix2base c.prefixes_once

-- What `delete_found` leaves.
get-delete_found :
    (o : Option Text) (m : List (Text × Text)) (c : Text)
    → IsMap text_discrete m
    → get text_discrete c (delete_found o m) ≡ elim o [
      | none ↦ get text_discrete c m
      | some k ↦ ite (text_discrete k c) none (get text_discrete c m)
    ]
get-delete_found none m c h = refl
get-delete_found (some k) m c h = get-delete text_discrete c k m h

delete_found-IsMap :
    (o : Option Text) (m : List (Text × Text))
    → IsMap text_discrete m
    → IsMap text_discrete (delete_found o m)
delete_found-IsMap none m h = h
delete_found-IsMap (some k) m h = delete-IsMap text_discrete k m h

get_prefix-delete_prefix :
    (n : NameSpaceMap) (p d : Text)
    → IsConsistent n
    → get_prefix (delete_prefix n p) d ≡ elim (get_base_uri n p) [
      | none ↦ get_prefix n d
      | some b ↦ ite (text_discrete b d) none (get_prefix n d)
    ]
unfolding get_prefix get_base_uri delete_prefix
get_prefix-delete_prefix n p d c =
    get-delete_found (get text_discrete p n.prefix2base) n.base2prefix d c.bases_once

-- `DeletePrefix` keeps the maps inverse to each other.
delete_prefix-IsConsistent :
    (n : NameSpaceMap) (p : Text) → IsConsistent n → IsConsistent (delete_prefix n p)
delete_prefix-IsConsistent n p c = record {
  prefixes_once =
      unfold delete_prefix in delete-IsMap text_discrete p n.prefix2base c.prefixes_once;
  bases_once =
      unfold delete_prefix in
      delete_found-IsMap (get text_discrete p n.prefix2base) n.base2prefix c.bases_once;
  to_prefix = λ q d h. ground (
    arith,
    get_base_uri-delete_prefix n p q c,
    get_prefix-delete_prefix n p d c,
    c.to_prefix q d,
    c.to_prefix p d,
  );
  to_base = λ q d h. ground (
    arith,
    get_base_uri-delete_prefix n p q c,
    get_prefix-delete_prefix n p d c,
    c.to_base q d,
    c.to_base p d,
  );
}

get_prefix-delete_base_uri :
    (n : NameSpaceMap) (b d : Text)
    → IsConsistent n
    → get_prefix (delete_base_uri n b) d ≡ ite (text_discrete b d) none (get_prefix n d)
unfolding get_prefix delete_base_uri
get_prefix-delete_base_uri n b d c = get-delete text_discrete d b n.base2prefix c.bases_once

get_base_uri-delete_base_uri :
    (n : NameSpaceMap) (b q : Text)
    → IsConsistent n
    → get_base_uri (delete_base_uri n b) q ≡ elim (get_prefix n b) [
      | none ↦ get_base_uri n q
      | some p ↦ ite (text_discrete p q) none (get_base_uri n q)
    ]
unfolding get_prefix get_base_uri delete_base_uri
get_base_uri-delete_base_uri n b q c =
    get-delete_found (get text_discrete b n.base2prefix) n.prefix2base q c.prefixes_once

-- `DeleteBaseURI` keeps the maps inverse to each other.
delete_base_uri-IsConsistent :
    (n : NameSpaceMap) (b : Text) → IsConsistent n → IsConsistent (delete_base_uri n b)
delete_base_uri-IsConsistent n b c = record {
  prefixes_once =
      unfold delete_base_uri in
      delete_found-IsMap (get text_discrete b n.base2prefix) n.prefix2base c.prefixes_once;
  bases_once = unfold delete_base_uri in delete-IsMap text_discrete b n.base2prefix c.bases_once;
  to_prefix = λ q d h. ground (
    arith,
    get_prefix-delete_base_uri n b d c,
    get_base_uri-delete_base_uri n b q c,
    c.to_prefix q d,
    c.to_prefix q b,
  );
  to_base = λ q d h. ground (
    arith,
    get_prefix-delete_base_uri n b d c,
    get_base_uri-delete_base_uri n b q c,
    c.to_base q d,
    c.to_base q b,
  );
}

delete_prefix-found :
    (n : NameSpaceMap) (p b : Text)
    → get_base_uri n p ≡ some b
    → get_prefix n b ≡ some p
    → delete_prefix n p ≡ delete_base_uri n b
unfolding delete_prefix delete_base_uri get_base_uri get_prefix
delete_prefix-found n p b h back = rw (h, back) refl

-- On a consistent map, deleting a prefix is deleting its base: both lookups are gone afterwards.
pub delete_prefix_lem :
    (n : NameSpaceMap) (p b : Text)
    → IsConsistent n
    → get_base_uri n p ≡ some b
    → (delete_prefix n p ≡ delete_base_uri n b)
      × (get_base_uri (delete_prefix n p) p ≡ none)
      × (get_prefix (delete_prefix n p) b ≡ none)
delete_prefix_lem n p b c h =
    let back = c.to_prefix p b h in
    (
      delete_prefix-found n p b h back,
      ground (arith, get_base_uri-delete_prefix n p p c),
      ground (arith, get_prefix-delete_prefix n p b c),
    )

-- The base of the last entry with the prefix.
pub configured : List NameSpace → Text → Option Text
configured [] p = none
configured (ns ∷ rest) p = elim (configured rest p) [
  | some b ↦ some b
  | none ↦ ite (text_discrete ns.prefix p) (some ns.base) none
]

-- After `Load` a prefix has the base of its last entry in the configuration, and the base it had
-- before if it has no entry.
get_base_uri-load :
    (n : NameSpaceMap) (entries : List NameSpace) (p : Text)
    → get_base_uri (load n entries) p
      ≡ elim (configured entries p) [ some b ↦ some b | none ↦ get_base_uri n p ]
unfolding load add_name_space configured
get_base_uri-load n [] p = refl
get_base_uri-load n (ns ∷ rest) p = ground (
  arith,
  get_base_uri-load (add n ns.prefix ns.base) rest p,
  get_base_uri-add n ns.prefix ns.base p,
)

-- The label is the prefix that the base has afterwards, an underscore and the name.
module _ (default_prefix : Text → Text) (n : NameSpaceMap) (uri : Text) where
  get_prefix-get_search_label :
      get_prefix (get_search_label default_prefix n uri).0 (split_uri (resolve_urn uri)).0
      ≡ elim (get_prefix n (split_uri (resolve_urn uri)).0) [
        | some p ↦ some p
        | none ↦ some (default_prefix (split_uri (resolve_urn uri)).0)
      ]
  unfolding get_search_label
  get_prefix-get_search_label =
      let b = (split_uri (resolve_urn uri)).0 in
      ground (arith, get_prefix-add n (default_prefix b) b b)

  -- The second call for a URI gives the first one's label and changes nothing.
  get_search_label-stable :
      get_search_label default_prefix (get_search_label default_prefix n uri).0 uri
      ≡ get_search_label default_prefix n uri
  get_search_label-stable =
      let b = (split_uri (resolve_urn uri)).0 in
      let known = get_prefix-add n (default_prefix b) b b in
      unfold get_search_label in ground (arith, known)

pub new_name_space_map-IsConsistent : IsConsistent new_name_space_map
unfolding new_name_space_map get_base_uri get_prefix get
new_name_space_map-IsConsistent = record {
  prefixes_once = tt;
  bases_once = tt;
  to_prefix = λ p b h. absurd (cc);
  to_base = λ p b h. absurd (cc);
}
