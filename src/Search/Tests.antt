-- ===== src/Search/Tests.antt =====
-- Runs of ikuzo/service/x/search on small inputs, and the theorems at inputs that exercise the code.
use hub.Prelude.{
  ◌≡◌, refl, true, ◌||◌, ◌&&◌, [], ◌∷◌, ite, pos, Text, codes, text_discrete, ℕ_discrete, has,
  insert, if◌then◌else◌, leb, ◌==◌, ltb,
}
use hub.Search.Vector
use hub.Search.Vector.{
  Vector, vector_discrete, Vectors, new_vectors, has_vector, has_doc, add_vector, add,
  add_phrase_vector, merge_from, size, IsWellFormed,
}
use hub.Search.Vector.Laws.{new_vectors-IsWellFormed, add_vector-IsWellFormed, merge-IsWellFormed}
use hub.Search.Matches.{Matches, append_term, new_matches, is_zero}
use hub.Search.Matches.Laws.{frequency, frequency-append_term}
use hub.Search.Phrase.{valid_phrase_position, positions_from}
use hub.Search.Phrase.Laws.{has-valid_phrase_position}

-- What a run opens.
vectors_run : Unit {0}
unfolding has insert vector_discrete ℕ_discrete add_vector add add_phrase_vector has_vector has_doc
    merge_from Vector.merge size new_vectors
vectors_run = tt

abbrev here : Vector
here = record { doc_id = 1; location = 4 }

abbrev there : Vector
there = record { doc_id = 2; location = 1 }

abbrev one : Vectors
one = add_vector new_vectors here

abbrev two : Vectors
two = add_vector one there

one-IsWellFormed : IsWellFormed one
one-IsWellFormed = add_vector-IsWellFormed new_vectors here new_vectors-IsWellFormed

two-IsWellFormed : IsWellFormed two
two-IsWellFormed = add_vector-IsWellFormed one there one-IsWellFormed

two_run : (size two ≡ pos 2) × (has_doc two 2 ≡ true) × (has_vector two here ≡ true)
unfolding vectors_run
two_run = (refl, refl, refl)

add_vector-IsWellFormed_example : IsWellFormed (add_vector two here)
add_vector-IsWellFormed_example = add_vector-IsWellFormed two here two-IsWellFormed

merge-IsWellFormed_example : IsWellFormed (Vector.merge one two)
merge-IsWellFormed_example = merge-IsWellFormed one two one-IsWellFormed

abbrev word : Text
word = codes "word"

abbrev hits : Matches
hits = append_term new_matches word two

abbrev more : Matches
more = record { term_frequency = (word, pos 3) ∷ (codes "other", pos 1) ∷ []; term_vectors = one }

frequency-append_term_example : frequency (append_term more word two) word ≡ (
    if is_zero (size two)
    then frequency more word
    else ite (text_discrete word word) (size two) (frequency more word))
frequency-append_term_example = frequency-append_term more word word two

has-valid_phrase_position_example :
    has vector_discrete (record { doc_id = 1; location = 6 }) (valid_phrase_position here 2)
    ≡ (1 == 1 && (if 2 == 0 then (6 == 4 || 6 == 5) else (ltb 0 6 && (leb 4 8 && leb 6 6))))
has-valid_phrase_position_example =
    has-valid_phrase_position here (record { doc_id = 1; location = 6 }) 2

positions_run :
    valid_phrase_position here 1
    ≡ record { doc_id = 1; location = 3 } ∷ here ∷ record { doc_id = 1; location = 5 } ∷ []
unfolding valid_phrase_position positions_from
positions_run = refl
