-- ===== src/Index/TextIndex/Valid.antt =====
-- ikuzo/storage/x/memory/index_full_text.go: the invariant of the index, kept by every operation.
use hub.Prelude.{
  ℕ, zero, suc, ◌+◌, ◌≡◌, true, Option, none, some, List, [], ◌∷◌, Text, text_discrete, ℕ_discrete,
  get, put-IsMap, IsMap, has, has-insert, insert, is_blank, All, put-All, get-All, insert-All,
  All-mono, arith, Bool-cases, inl, inr, Option-cases, if-intro,
}
use hub.Search.Vector
use hub.Search.Vector.{Vector, vector_discrete, Vectors, new_vectors, has_vector, add_vector, add}
use hub.Search.Vector.Laws.{add_vector-IsWellFormed, new_vectors-IsWellFormed}
use hub.Search.Token.{Token}
use hub.Index.TextIndex.{
  TextIndex, new_text_index, next_doc_id, set_doc_id, has_doc_id, vectors_or_new, set_term_vector,
  IndexError, empty_string, add_term, append_tokens, append_string,
}

pub record IsWellFormed (ti : TextIndex) : Type 0 where
  pub distinct_terms : IsMap text_discrete ti.terms
  pub vectors : All (λ e. Vector.IsWellFormed e.1) ti.terms
  pub docs_known :
      All (λ e. All (λ v. has ℕ_discrete v.doc_id ti.docs ≡ true) e.1.locations) ti.terms

pub new_text_index-IsWellFormed : IsWellFormed new_text_index
unfolding new_text_index
new_text_index-IsWellFormed = record { distinct_terms = tt; vectors = tt; docs_known = tt }

has_doc_id-set_doc_id :
    (ti : TextIndex) (doc : Option ℕ)
    → has_doc_id (set_doc_id ti doc).0 (set_doc_id ti doc).1 ≡ true
unfolding has_doc_id set_doc_id next_doc_id
has_doc_id-set_doc_id ti none =
    ground (arith, has-insert ℕ_discrete (ti.doc_count + 1) (ti.doc_count + 1) ti.docs)
has_doc_id-set_doc_id ti (some zero) =
    ground (arith, has-insert ℕ_discrete (ti.doc_count + 1) (ti.doc_count + 1) ti.docs)
has_doc_id-set_doc_id ti (some (suc n)) =
    ground (arith, has-insert ℕ_discrete (suc n) (suc n) ti.docs)

module _ (ti : TextIndex) (term : Text) (pos : ℕ) (wf : IsWellFormed ti) where
  vectors_or_new-IsWellFormed :
      Vector.IsWellFormed (vectors_or_new (get text_discrete term ti.terms))
  vectors_or_new-IsWellFormed = elim (Option-cases (get text_discrete term ti.terms)) [
    | inl missing ↦ rw missing new_vectors-IsWellFormed
    | inr (tv, there) ↦
        rw there
          (get-All text_discrete (λ e. Vector.IsWellFormed e.1) term tv ti.terms wf.vectors there)
  ]

  abbrev Known : Vector → Type 0
  Known v = has ℕ_discrete v.doc_id ti.docs ≡ true

  vectors_or_new-Known : All Known (vectors_or_new (get text_discrete term ti.terms)).locations
  unfolding new_vectors
  vectors_or_new-Known = elim (Option-cases (get text_discrete term ti.terms)) [
    | inl missing ↦ rw missing tt
    | inr (tv, there) ↦
        rw there (
          get-All text_discrete (λ e. All Known e.1.locations) term tv ti.terms wf.docs_known there)
  ]

  set_term_vector-IsWellFormed :
      has_doc_id ti ti.doc_count ≡ true → IsWellFormed (set_term_vector ti term pos)
  unfolding set_term_vector add has_doc_id
  set_term_vector-IsWellFormed current =
      let place : Vector = record { doc_id = ti.doc_count; location = pos } in
      let old = vectors_or_new (get text_discrete term ti.terms) in
      record {
        distinct_terms =
            put-IsMap text_discrete term (add_vector old place) ti.terms wf.distinct_terms;
        vectors =
            put-All text_discrete (λ e. Vector.IsWellFormed e.1) term (add_vector old place)
              ti.terms (add_vector-IsWellFormed old place vectors_or_new-IsWellFormed) wf.vectors;
        docs_known =
            put-All text_discrete (λ e. All Known e.1.locations) term (add_vector old place)
              ti.terms
              (unfold add_vector in
                insert-All vector_discrete Known place old.locations current vectors_or_new-Known)
              wf.docs_known;
      }

-- Well formed, and the current document is known.
abbrev pub IsReady : TextIndex → Type 0
IsReady ti = IsWellFormed ti × (has_doc_id ti ti.doc_count ≡ true)

set_term_vector-IsReady :
    (ti : TextIndex) (term : Text) (pos : ℕ) → IsReady ti → IsReady (set_term_vector ti term pos)
set_term_vector-IsReady ti term pos r =
    (set_term_vector-IsWellFormed ti term pos r.0 r.1, unfold set_term_vector has_doc_id in r.1)

grown-IsWellFormed :
    (ti : TextIndex) (id : ℕ)
    → IsWellFormed ti
    → IsWellFormed (record ti { doc_count = id; docs = insert ℕ_discrete id ti.docs })
grown-IsWellFormed ti id wf = record {
  distinct_terms = wf.distinct_terms;
  vectors = wf.vectors;
  docs_known =
      All-mono _ _ ti.terms
        (λ e h.
          All-mono _ _ e.1.locations
            (λ v known. ground (arith, has-insert ℕ_discrete v.doc_id id ti.docs)) h)
        wf.docs_known;
}

set_doc_id-IsReady :
    (ti : TextIndex) (doc : Option ℕ) → IsWellFormed ti → IsReady (set_doc_id ti doc).0
unfolding set_doc_id next_doc_id
set_doc_id-IsReady ti none wf =
    (grown-IsWellFormed ti (ti.doc_count + 1) wf, has_doc_id-set_doc_id ti none)
set_doc_id-IsReady ti (some zero) wf =
    (grown-IsWellFormed ti (ti.doc_count + 1) wf, has_doc_id-set_doc_id ti (some zero))
set_doc_id-IsReady ti (some (suc n)) wf =
    (grown-IsWellFormed ti (suc n) wf, has_doc_id-set_doc_id ti (some (suc n)))

module _ (transform : Text → Text) where
  add_term-IsReady :
      (ti : TextIndex) (word : Text) (pos : ℕ)
      → IsReady ti
      → IsReady (add_term transform ti word pos).0
  unfolding add_term
  add_term-IsReady ti word pos r =
      let Kept : TextIndex × Option IndexError → Type 0 = λ x. IsReady x.0 in
      if-intro Kept (is_blank word) (ti, some empty_string) _ (λ _. r)
        (λ _.
          if-intro Kept (is_blank (transform word)) (ti, none) _ (λ _. r)
            (λ _. set_term_vector-IsReady ti (transform word) pos r))

  append_tokens-IsReady :
      (text_of : Token → Text) (ti : TextIndex) (ts : List Token)
      → IsReady ti
      → IsReady (append_tokens transform text_of ti ts).0
  unfolding append_tokens
  append_tokens-IsReady text_of ti [] r = r
  append_tokens-IsReady text_of ti (t ∷ ts) r = elim (Bool-cases t.ignored) [
    | inl skip ↦ rw (skip, append_tokens) (append_tokens-IsReady text_of ti ts r)
    | inr index ↦
        let added = add_term transform ti (text_of t) t.term_vector in
        let ready = add_term-IsReady ti (text_of t) t.term_vector r in
        elim (Option-cases added.1) [
          | inl fine ↦
              rw (index, fine, append_tokens) (append_tokens-IsReady text_of added.0 ts ready)
          | inr (e, failed) ↦ rw (index, failed, append_tokens) ready
        ]
  ]

  -- Indexing a document keeps the index well formed, also where it fails in the middle: every term
  -- has well-formed vectors, and every place is in a document that the index knows.
  pub append_string-IsWellFormed :
      (ti : TextIndex) (doc : Option ℕ) (tokens : ℕ → List Token)
      → IsWellFormed ti
      → IsWellFormed (append_string transform ti doc tokens).0
  unfolding append_string
  append_string-IsWellFormed ti doc tokens wf =
      (append_tokens-IsReady (λ t. t.raw_text) (set_doc_id ti doc).0 (tokens (set_doc_id ti doc).1)
        (set_doc_id-IsReady ti doc wf)).0
