-- ===== src/Search/Vector.antt =====
-- ikuzo/service/x/search/vector.go: the places in documents at which a term stands. The two Go
-- maps are lists without repetition; document numbers and locations are counters from 0.
pub mod Laws
use hub.Prelude.{
  true, false, if◌then◌else◌, ℕ, suc, ◌+◌, ◌≤◌, ◌≡◌, Bool, List, [], ◌∷◌, ite, ℤ, sub_ℕ, length,
  has, insert, Distinct, ℕ_discrete,
}

pub record Vector : Type 0 where
  pub doc_id : ℕ
  pub location : ℕ

unfoldable pub vector_discrete : Discrete Vector
unfolding ℕ_discrete
vector_discrete = hlevel ℕ_discrete

pub record Vectors : Type 0 where
  pub locations : List Vector
  pub docs : List ℕ
  pub phrase_vectors : ℕ

unfoldable pub new_vectors : Vectors
new_vectors = record { locations = []; docs = []; phrase_vectors = 0 }

unfoldable pub has_vector : Vectors → Vector → Bool
has_vector tv v = has vector_discrete v tv.locations

unfoldable pub has_doc : Vectors → ℕ → Bool
has_doc tv d = has ℕ_discrete d tv.docs

unfoldable pub add_vector : Vectors → Vector → Vectors
add_vector tv v = record tv {
  docs = insert ℕ_discrete v.doc_id tv.docs;
  locations = insert vector_discrete v tv.locations;
}

unfoldable pub add : Vectors → ℕ → ℕ → Vectors
add tv doc pos = add_vector tv (record { doc_id = doc; location = pos })

unfoldable pub add_phrase_vector : Vectors → Vector → Vectors
add_phrase_vector tv v = elim (has_vector tv v) [
  | true ↦ tv
  | false ↦ let t = add_vector tv v in record t { phrase_vectors = t.phrase_vectors + 1 }
]

unfoldable pub doc_count : Vectors → ℕ
doc_count tv = length tv.docs

-- The loop of `Merge` over the locations of the other collection.
unfoldable pub merge_from : Vectors → List Vector → Vectors
merge_from tv [] = tv
merge_from tv (v ∷ vs) = merge_from (if has_vector tv v then tv else add_vector tv v) vs

unfoldable pub merge : Vectors → Vectors → Vectors
merge tv vectors = merge_from tv vectors.locations

unfoldable pub size : Vectors → ℤ
size tv = sub_ℕ (length tv.locations) tv.phrase_vectors

-- What holds of a collection that only the operations above have built: no location twice, the
-- documents are exactly those of the locations, and the phrase counter does not pass the locations.
pub record IsWellFormed (tv : Vectors) : Type 0 where
  pub distinct_locations : Distinct vector_discrete tv.locations
  pub distinct_docs : Distinct ℕ_discrete tv.docs
  pub docs_known : (v : Vector) → has_vector tv v ≡ true → has_doc tv v.doc_id ≡ true
  pub docs_used :
      (d : ℕ)
      → has_doc tv d ≡ true
      → (n : ℕ) × (has_vector tv (record { doc_id = d; location = n }) ≡ true)
  pub counted : tv.phrase_vectors ≤ length tv.locations
