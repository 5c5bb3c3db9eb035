-- ===== src/Search/Vector/Laws.antt =====
-- ikuzo/service/x/search/vector.go: what each operation does to membership, and that all of them
-- keep a collection well formed.
use hub.Prelude.{
  subst, ap, ◌∙◌, ℕ, suc, ◌≤◌, ◌≡◌, refl, Bool, true, false, ◌||◌, List, [], ◌∷◌, ite, pos, ◌+ℤ◌,
  length, has, has-insert, insert-Distinct, length-insert_old, length-insert_new, ℕ_discrete, arith,
  Bool-cases, inl, inr, if◌then◌else◌,
}
use hub.Search.Vector.{
  Vector, vector_discrete, Vectors, new_vectors, has_vector, has_doc, add_vector, add_phrase_vector,
  merge_from, merge, size, IsWellFormed,
}

-- Two vectors with the same document and location.
abbrev pub same : Vector → Vector → Bool
same v w = ite (vector_discrete v w) true false

pub has_vector-add_vector :
    (tv : Vectors) (v w : Vector) → has_vector (add_vector tv v) w ≡ (same v w || has_vector tv w)
unfolding has_vector add_vector
has_vector-add_vector tv v w = ground (arith, has-insert vector_discrete w v tv.locations)

has_doc-add_vector :
    (tv : Vectors) (v : Vector) (d : ℕ)
    → has_doc (add_vector tv v) d ≡ (ite (ℕ_discrete v.doc_id d) true (has_doc tv d))
unfolding has_doc add_vector
has_doc-add_vector tv v d = has-insert ℕ_discrete d v.doc_id tv.docs

length-add_vector :
    (tv : Vectors) (v : Vector) → length tv.locations ≤ length (add_vector tv v).locations
unfolding add_vector has_vector
length-add_vector tv v = ground (
  arith,
  length-insert_old vector_discrete v tv.locations,
  length-insert_new vector_discrete v tv.locations,
  Bool-cases (has vector_discrete v tv.locations),
)

pub new_vectors-IsWellFormed : IsWellFormed new_vectors
unfolding new_vectors has_vector has_doc has
new_vectors-IsWellFormed = record {
  distinct_locations = tt;
  distinct_docs = tt;
  docs_known = λ v h. absurd (cc);
  docs_used = λ d h. absurd (cc);
  counted = omega arith;
}

has_vector-add_vector_self : (tv : Vectors) (v : Vector) → has_vector (add_vector tv v) v ≡ true
has_vector-add_vector_self tv v = ground (arith, has_vector-add_vector tv v v)

doc-used :
    (tv : Vectors) (v : Vector) (d : ℕ)
    → IsWellFormed tv
    → has_doc (add_vector tv v) d ≡ true
    → (n : ℕ) × (has_vector (add_vector tv v) (record { doc_id = d; location = n }) ≡ true)
doc-used tv v d wf h = elim (ℕ_discrete v.doc_id d) [
  | yes p ↦ (
    v.location,
    subst (λ k. has_vector (add_vector tv v) (record { doc_id = k; location = v.location }) ≡ true)
        p (has_vector-add_vector_self tv v),
  )
  | no p ↦
      let (n, old) = wf.docs_used d (grind (arith, has_doc-add_vector tv v d)) in
      (n, grind (arith, has_vector-add_vector, old))
]

pub add_vector-IsWellFormed :
    (tv : Vectors) (v : Vector) → IsWellFormed tv → IsWellFormed (add_vector tv v)
add_vector-IsWellFormed tv v wf = record {
  distinct_locations =
      unfold add_vector in insert-Distinct vector_discrete v tv.locations wf.distinct_locations;
  distinct_docs = unfold add_vector in insert-Distinct ℕ_discrete v.doc_id tv.docs wf.distinct_docs;
  docs_known = λ w h.
      grind
        (arith, has_vector-add_vector tv v w, has_doc-add_vector tv v w.doc_id, wf.docs_known w);
  docs_used = λ d h. doc-used tv v d wf h;
  counted =
      let kept : (add_vector tv v).phrase_vectors ≡ tv.phrase_vectors = unfold add_vector in refl in
      omega (arith, length-add_vector tv v);
}

length-add_vector_old :
    (tv : Vectors) (v : Vector)
    → has_vector tv v ≡ true
    → length (add_vector tv v).locations ≡ length tv.locations
unfolding add_vector has_vector
length-add_vector_old tv v h = length-insert_old vector_discrete v tv.locations h

phrase_vectors-add_vector :
    (tv : Vectors) (v : Vector) → (add_vector tv v).phrase_vectors ≡ tv.phrase_vectors
unfolding add_vector
phrase_vectors-add_vector tv v = refl

length-add_vector_new :
    (tv : Vectors) (v : Vector)
    → has_vector tv v ≡ false
    → length (add_vector tv v).locations ≡ suc (length tv.locations)
unfolding add_vector has_vector
length-add_vector_new tv v h = length-insert_new vector_discrete v tv.locations h

add_phrase_vector-IsWellFormed :
    (tv : Vectors) (v : Vector) → IsWellFormed tv → IsWellFormed (add_phrase_vector tv v)
unfolding add_phrase_vector
add_phrase_vector-IsWellFormed tv v wf = elim (Bool-cases (has_vector tv v)) [
  | inl old ↦ rw (old, add_phrase_vector) wf
  | inr new ↦
      let grown = add_vector-IsWellFormed tv v wf in
      rw (new, add_phrase_vector)
        (record {
          distinct_locations = grown.distinct_locations;
          distinct_docs = grown.distinct_docs;
          docs_known = unfold has_vector has_doc in grown.docs_known;
          docs_used = unfold has_vector has_doc in grown.docs_used;
          counted =
              omega
                (arith, length-add_vector_new tv v new, phrase_vectors-add_vector tv v, wf.counted);
        })
]

-- An occurrence that only continues a phrase does not count as a hit of its own.
size-add_phrase_vector : (tv : Vectors) (v : Vector) → size (add_phrase_vector tv v) ≡ size tv
unfolding size add_phrase_vector
size-add_phrase_vector tv v =
    ground (arith, length-add_vector_new tv v, phrase_vectors-add_vector tv v)

-- On a well-formed collection `AddVector` raises the size by one if the vector is new, and
-- leaves it if not.
size-add_vector :
    (tv : Vectors) (v : Vector)
    → IsWellFormed tv
    → size (add_vector tv v) ≡ (if has_vector tv v then size tv else size tv +ℤ pos 1)
unfolding size ◌+ℤ◌
size-add_vector tv v wf = ground (
  arith,
  wf.counted,
  length-add_vector_new tv v,
  length-add_vector_old tv v,
  phrase_vectors-add_vector tv v,
)

has_vector-merge_from :
    (tv : Vectors) (vs : List Vector) (w : Vector)
    → has_vector (merge_from tv vs) w ≡ (has_vector tv w || has vector_discrete w vs)
unfolding merge_from has
has_vector-merge_from tv [] w = ground arith
has_vector-merge_from tv (v ∷ vs) w = elim (Bool-cases (has_vector tv v)) [
  | inl old ↦ rw old (ground (arith, has_vector-merge_from tv vs w))
  | inr new ↦
      rw new
        (ground (arith, has_vector-merge_from (add_vector tv v) vs w, has_vector-add_vector tv v w))
]

merge_from-IsWellFormed :
    (tv : Vectors) (vs : List Vector) → IsWellFormed tv → IsWellFormed (merge_from tv vs)
unfolding merge_from
merge_from-IsWellFormed tv [] wf = wf
merge_from-IsWellFormed tv (v ∷ vs) wf = elim (Bool-cases (has_vector tv v)) [
  | inl old ↦ rw old (merge_from-IsWellFormed tv vs wf)
  | inr new ↦
      rw new (merge_from-IsWellFormed (add_vector tv v) vs (add_vector-IsWellFormed tv v wf))
]

-- Merging is the union of the locations, and adding a phrase vector twice is adding it once.
pub has_vector-merge :
    (tv other : Vectors) (w : Vector)
    → has_vector (merge tv other) w ≡ (has_vector tv w || has_vector other w)
unfolding merge
has_vector-merge tv other w =
    has_vector-merge_from tv other.locations w
    ∙ ap (◌||◌ (has_vector tv w)) (unfold has_vector in refl)

-- Merging any collection into a well-formed one gives a well-formed one: no location or document
-- twice, the documents exactly those of the locations, and the phrase counter at most the number
-- of locations.
pub merge-IsWellFormed : (tv other : Vectors) → IsWellFormed tv → IsWellFormed (merge tv other)
unfolding merge
merge-IsWellFormed tv other wf = merge_from-IsWellFormed tv other.locations wf

add_phrase_vector_old :
    (tv : Vectors) (v : Vector) → has_vector tv v ≡ true → add_phrase_vector tv v ≡ tv
unfolding add_phrase_vector
add_phrase_vector_old tv v old = rw (old, add_phrase_vector)

has_vector-add_phrase_vector :
    (tv : Vectors) (v w : Vector)
    → has_vector (add_phrase_vector tv v) w ≡ (same v w || has_vector tv w)
unfolding add_phrase_vector
has_vector-add_phrase_vector tv v w = elim (Bool-cases (has_vector tv v)) [
  | inl old ↦ rw (old, add_phrase_vector) (ground arith)
  | inr new ↦ rw (new, add_phrase_vector) (unfold has_vector in has_vector-add_vector tv v w)
]

pub add_phrase_vector_idem :
    (tv : Vectors) (v : Vector)
    → add_phrase_vector (add_phrase_vector tv v) v ≡ add_phrase_vector tv v
add_phrase_vector_idem tv v =
    add_phrase_vector_old (add_phrase_vector tv v) v
      (ground (arith, has_vector-add_phrase_vector tv v v))

Bool-eq : (a b : Bool) → (a ≡ true → b ≡ true) → (b ≡ true → a ≡ true) → a ≡ b
Bool-eq a b f g = ground arith

-- The documents of a merge are those of either side: this rests on the two sides being well formed.
has_doc-merge :
    (tv other : Vectors) (d : ℕ)
    → IsWellFormed tv
    → IsWellFormed other
    → has_doc (merge tv other) d ≡ (has_doc tv d || has_doc other d)
has_doc-merge tv other d wt wo =
    let wm = merge-IsWellFormed tv other wt in
    Bool-eq _ _
      (λ h.
        let (n, v) = wm.docs_used d h in
        ground (
          arith,
          has_vector-merge tv other (record { doc_id = d; location = n }),
          wt.docs_known (record { doc_id = d; location = n }),
          wo.docs_known (record { doc_id = d; location = n }),
          v,
        ))
      (λ h. elim (Bool-cases (has_doc tv d)) [
        | inl left ↦
            let (n, v) = wt.docs_used d left in
            ground (
              arith,
              has_vector-merge tv other (record { doc_id = d; location = n }),
              wm.docs_known (record { doc_id = d; location = n }),
              v,
            )
        | inr right ↦
            let (n, v) = wo.docs_used d (ground arith) in
            ground (
              arith,
              has_vector-merge tv other (record { doc_id = d; location = n }),
              wm.docs_known (record { doc_id = d; location = n }),
              v,
            )
      ])
