-- ===== src/Search/Matches.antt =====
-- ikuzo/service/x/search/matches.go: the hits of a search, as a frequency for each term and the
-- places of all of them.
pub mod Laws
use hub.Prelude.{
  ℕ, zero, ℤ, pos, ◌+ℤ◌, Bool, true, false, Option, none, some, List, [], ◌∷◌, length, Text,
  text_discrete, get, put, if◌then◌else◌,
}
use hub.Search.Vector
use hub.Search.Vector.{Vectors, new_vectors, has_doc}

pub record Matches : Type 0 where
  pub term_frequency : List (Text × ℤ)
  pub term_vectors : Vectors

unfoldable pub new_matches : Matches
new_matches = record { term_frequency = []; term_vectors = new_vectors }

unfoldable pub reset : Matches → Matches
reset m = record m { term_frequency = []; term_vectors = new_vectors }

abbrev pub is_zero : ℤ → Bool
is_zero (pos zero) = true
is_zero _ = false

unfoldable pub merge_vectors : Matches → Vectors → Matches
merge_vectors m tv = record m { term_vectors = Vector.merge m.term_vectors tv }

unfoldable pub append_term : Matches → Text → Vectors → Matches
append_term m term tv =
    if is_zero (Vector.size tv)
    then m
    else merge_vectors
        (record m { term_frequency = put text_discrete term (Vector.size tv) m.term_frequency }) tv

unfoldable pub doc_count : Matches → ℕ
doc_count m = Vector.doc_count m.term_vectors

unfoldable pub has_doc_id : Matches → ℕ → Bool
has_doc_id m doc = has_doc m.term_vectors doc

-- The body of the loop of `Merge`: add to the count that is there, or start one.
unfoldable pub add_frequency : List (Text × ℤ) → Text → ℤ → List (Text × ℤ)
add_frequency m key count = elim (get text_discrete key m) [
  | some v ↦ put text_discrete key (v +ℤ count) m
  | none ↦ put text_discrete key count m
]

unfoldable pub add_frequencies : List (Text × ℤ) → List (Text × ℤ) → List (Text × ℤ)
add_frequencies m [] = m
add_frequencies m ((key, count) ∷ rest) = add_frequencies (add_frequency m key count) rest

unfoldable pub merge : Matches → Matches → Matches
merge m matches =
    merge_vectors
      (record m { term_frequency = add_frequencies m.term_frequency matches.term_frequency })
      matches.term_vectors

unfoldable pub term_count : Matches → ℕ
term_count m = length m.term_frequency

-- The loop of `Total`.
unfoldable pub total_from : ℤ → List (Text × ℤ) → ℤ
total_from total [] = total
total_from total ((_, hit_count) ∷ rest) = total_from (total +ℤ hit_count) rest

unfoldable pub total : Matches → ℤ
total m = total_from (pos 0) m.term_frequency
