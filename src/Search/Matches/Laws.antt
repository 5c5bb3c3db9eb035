-- ===== src/Search/Matches/Laws.antt =====
-- ikuzo/service/x/search/matches.go: what appending a term and merging do to the counts.
use hub.Prelude.{
  ◌≡◌, ℤ, pos, ◌+ℤ◌, ◌||◌, ◌&&◌, not, none, some, List, [], ◌∷◌, Text, text_discrete, ite, get, put,
  get-put, put-IsMap, IsMap, arith, if◌then◌else◌, get_of_absent, int_laws, zero-+ℤ, +ℤ-zero,
  if_pos, if_neg, Option-cases, inl, inr, Bool-cases,
}
use hub.Search.Vector
use hub.Search.Vector.{Vectors, Vector, has_vector}
use hub.Search.Vector.Laws
use hub.Search.Vector.Laws.{has_vector-merge}
use hub.Search.Matches.{
  Matches, merge_vectors, append_term, add_frequency, add_frequencies, merge, total_from, total,
  is_zero,
}

pub record IsWellFormed (m : Matches) : Type 0 where
  pub frequencies : IsMap text_discrete m.term_frequency
  pub vectors : Vector.IsWellFormed m.term_vectors

total_from_lem : (n : ℤ) (m : List (Text × ℤ)) → total_from n m ≡ n +ℤ total_from (pos 0) m
unfolding total_from
total_from_lem n [] = omega int_laws
total_from_lem n ((k, c) ∷ m) =
    rw (total_from_lem (n +ℤ c) m, total_from_lem (pos 0 +ℤ c) m) (omega int_laws)

total-cons :
    (k : Text) (c : ℤ) (m : List (Text × ℤ))
    → total_from (pos 0) ((k, c) ∷ m) ≡ c +ℤ total_from (pos 0) m
unfolding total_from
total-cons k c m = rw (total_from_lem (pos 0 +ℤ c) m) (omega int_laws)

total-put_new :
    (m : List (Text × ℤ)) (k : Text) (c : ℤ)
    → get text_discrete k m ≡ none
    → total_from (pos 0) (put text_discrete k c m) ≡ total_from (pos 0) m +ℤ c
unfolding get put
total-put_new [] k c h = rw (total-cons k c []) (omega int_laws)
total-put_new ((j, d) ∷ m) k c h = elim (text_discrete j k) [
  | yes p ↦ absurd (ground arith)
  | no p ↦ rw (if_neg _ p) (
      rw
        (
          total-cons j d (put text_discrete k c m),
          total-put_new m k c (ground arith),
          total-cons j d m,
        )
        (omega int_laws))
]

total-put_old :
    (m : List (Text × ℤ)) (k : Text) (v c : ℤ)
    → get text_discrete k m ≡ some v
    → total_from (pos 0) (put text_discrete k (v +ℤ c) m) ≡ total_from (pos 0) m +ℤ c
unfolding get put
total-put_old [] k v c h = absurd (cc)
total-put_old ((j, d) ∷ m) k v c h = elim (text_discrete j k) [
  | yes p ↦
      let e : d ≡ v = ground arith in
      rw (if_pos _ p) (rw e (rw (total-cons j (v +ℤ c) m, total-cons j v m) (omega int_laws)))
  | no p ↦ rw (if_neg _ p) (
      rw
        (
          total-cons j d (put text_discrete k (v +ℤ c) m),
          total-put_old m k v c (ground arith),
          total-cons j d m,
        )
        (omega int_laws))
]

total-add_frequency :
    (m : List (Text × ℤ)) (key : Text) (count : ℤ)
    → total_from (pos 0) (add_frequency m key count) ≡ total_from (pos 0) m +ℤ count
unfolding add_frequency
total-add_frequency m key count = elim (Option-cases (get text_discrete key m)) [
  | inl new ↦ rw (new, add_frequency) (total-put_new m key count new)
  | inr (v, old) ↦ rw (old, add_frequency) (total-put_old m key v count old)
]

total-add_frequencies :
    (m l : List (Text × ℤ))
    → total_from (pos 0) (add_frequencies m l) ≡ total_from (pos 0) m +ℤ total_from (pos 0) l
unfolding add_frequencies
total-add_frequencies m [] = unfold total_from in omega int_laws
total-add_frequencies m ((k, c) ∷ l) =
    rw (total-add_frequencies (add_frequency m k c) l, total-add_frequency m k c, total-cons k c l)
      (omega int_laws)

-- Merging two results adds up their totals.
total-merge : (m matches : Matches) → total (merge m matches) ≡ total m +ℤ total matches
unfolding total merge merge_vectors
total-merge m matches = total-add_frequencies m.term_frequency matches.term_frequency

-- The number of hits for a term in a frequency map; a term that is not there has none.
abbrev pub count_in : List (Text × ℤ) → Text → ℤ
count_in m key = elim (get text_discrete key m) [ some v ↦ v | none ↦ pos 0 ]

abbrev pub frequency : Matches → Text → ℤ
frequency m key = count_in m.term_frequency key

count_in-add_frequency :
    (m : List (Text × ℤ)) (k j : Text) (c : ℤ)
    → count_in (add_frequency m k c) j ≡ ite (text_discrete k j) (count_in m j +ℤ c) (count_in m j)
unfolding add_frequency
count_in-add_frequency m k j c = elim (Option-cases (get text_discrete k m)) [
  | inl new ↦ rw (new, add_frequency) (ground (arith, get-put text_discrete j k c m, zero-+ℤ c))
  | inr (v, old) ↦ rw (old, add_frequency) (ground (arith, get-put text_discrete j k (v +ℤ c) m))
]

count_in-add_frequencies :
    (m l : List (Text × ℤ)) (j : Text)
    → IsMap text_discrete l
    → count_in (add_frequencies m l) j ≡ count_in m j +ℤ count_in l j
unfolding add_frequencies get
count_in-add_frequencies m [] j h = omega int_laws
count_in-add_frequencies m ((k, c) ∷ l) j h =
    rw (count_in-add_frequencies (add_frequency m k c) l j h.1, count_in-add_frequency m k j c)
      (ground (
        arith,
        get_of_absent text_discrete k l h.0,
        +ℤ-zero (count_in m j),
        +ℤ-zero (count_in m j +ℤ c),
      ))

-- The frequency of every term in a merge is the sum of its frequencies in both results, where
-- the second has no term twice.
frequency-merge :
    (m matches : Matches) (key : Text)
    → IsMap text_discrete matches.term_frequency
    → frequency (merge m matches) key ≡ frequency m key +ℤ frequency matches key
unfolding merge merge_vectors
frequency-merge m matches key h =
    count_in-add_frequencies m.term_frequency matches.term_frequency key h

add_frequency-IsMap :
    (m : List (Text × ℤ)) (k : Text) (c : ℤ)
    → IsMap text_discrete m
    → IsMap text_discrete (add_frequency m k c)
unfolding add_frequency
add_frequency-IsMap m k c h = elim (Option-cases (get text_discrete k m)) [
  | inl new ↦ rw (new, add_frequency) (put-IsMap text_discrete k c m h)
  | inr (v, old) ↦ rw (old, add_frequency) (put-IsMap text_discrete k (v +ℤ c) m h)
]

add_frequencies-IsMap :
    (m l : List (Text × ℤ)) → IsMap text_discrete m → IsMap text_discrete (add_frequencies m l)
unfolding add_frequencies
add_frequencies-IsMap m [] h = h
add_frequencies-IsMap m ((k, c) ∷ l) h =
    add_frequencies-IsMap (add_frequency m k c) l (add_frequency-IsMap m k c h)

pub merge-IsWellFormed : (m matches : Matches) → IsWellFormed m → IsWellFormed (merge m matches)
unfolding merge merge_vectors
merge-IsWellFormed m matches wf = record {
  frequencies = add_frequencies-IsMap m.term_frequency matches.term_frequency wf.frequencies;
  vectors = Laws.merge-IsWellFormed m.term_vectors matches.term_vectors wf.vectors;
}

append_term-IsWellFormed :
    (m : Matches) (term : Text) (tv : Vectors)
    → IsWellFormed m
    → IsWellFormed (append_term m term tv)
unfolding append_term merge_vectors
append_term-IsWellFormed m term tv wf = elim (Bool-cases (is_zero (Vector.size tv))) [
  | inl empty ↦ rw (empty, append_term) wf
  | inr full ↦
      rw (full, append_term)
        (record {
          frequencies =
              put-IsMap text_discrete term (Vector.size tv) m.term_frequency wf.frequencies;
          vectors = Laws.merge-IsWellFormed m.term_vectors tv wf.vectors;
        })
]

-- Appending a term sets its frequency and leaves the others; a collection of size 0 changes nothing.
pub frequency-append_term :
    (m : Matches) (term j : Text) (tv : Vectors)
    → frequency (append_term m term tv) j ≡ (
        if is_zero (Vector.size tv)
        then frequency m j
        else ite (text_discrete term j) (Vector.size tv) (frequency m j))
unfolding append_term merge_vectors
frequency-append_term m term j tv =
    ground (arith, get-put text_discrete j term (Vector.size tv) m.term_frequency)

has_vector-append_term :
    (m : Matches) (term : Text) (tv : Vectors) (v : Vector)
    → has_vector (append_term m term tv).term_vectors v
      ≡ (has_vector m.term_vectors v || (not (is_zero (Vector.size tv)) && has_vector tv v))
unfolding append_term merge_vectors
has_vector-append_term m term tv v = ground (arith, has_vector-merge m.term_vectors tv v)
