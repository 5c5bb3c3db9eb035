-- ===== src/Index/TextIndex/Laws.antt =====
-- ikuzo/storage/x/memory/index_full_text.go: what indexing a document adds, when it fails, and that
-- the index stays well formed.
use hub.Prelude.{
  subst, sym, ℕ, zero, suc, ◌≡◌, refl, Bool, true, false, ◌||◌, ◌&&◌, not, Option, none, some, List,
  [], ◌∷◌, Text, text_discrete, ite, get, get-put, has, is_blank, if◌then◌else◌, All, arith,
}
use hub.Search.Vector.{Vector, new_vectors, has_vector, add_vector, add}
use hub.Search.Vector.Laws.{has_vector-add_vector, same}
use hub.Search.Token.{Token}
use hub.Index.TextIndex.{
  TextIndex, next_doc_id, set_doc_id, vectors_or_new, set_term_vector, empty_string, add_term,
  append_tokens, append_bytes, append_string,
}

-- The term stands at the place.
abbrev pub stands : TextIndex → Text → Vector → Bool
stands ti w v = elim (get text_discrete w ti.terms) [ some tv ↦ has_vector tv v | none ↦ false ]

has_vector-new_vectors : (v : Vector) → has_vector new_vectors v ≡ false
unfolding has_vector new_vectors has
has_vector-new_vectors v = refl

stands-set_term_vector :
    (ti : TextIndex) (term w : Text) (pos : ℕ) (v : Vector)
    → stands (set_term_vector ti term pos) w v ≡ (
        ite (text_discrete term w) (same (record { doc_id = ti.doc_count; location = pos }) v) false
        || stands ti w v)
unfolding set_term_vector add
stands-set_term_vector ti term w pos v =
    let tv = vectors_or_new (get text_discrete term ti.terms) in
    let place : Vector = record { doc_id = ti.doc_count; location = pos } in
    ground (
      arith,
      get-put text_discrete w term (add_vector tv place) ti.terms,
      has_vector-add_vector tv place v,
      has_vector-new_vectors v,
    )

module _ (transform : Text → Text) (text_of : Token → Text) where
  -- A token that is indexed has no text.
  abbrev pub lacks_text : List Token → Bool
  lacks_text [] = false
  lacks_text (t ∷ ts) = (not t.ignored && is_blank (text_of t)) || lacks_text ts

  append_tokens-error :
      (ti : TextIndex) (ts : List Token)
      → (append_tokens transform text_of ti ts).1
        ≡ (if lacks_text ts then some empty_string else none)
  unfolding append_tokens add_term
  append_tokens-error ti [] = refl
  append_tokens-error ti (t ∷ ts) = ground (
    arith,
    append_tokens-error ti ts,
    append_tokens-error (set_term_vector ti (transform (text_of t)) t.term_vector) ts,
  )

  doc_count-append_tokens :
      (ti : TextIndex) (ts : List Token)
      → (append_tokens transform text_of ti ts).0.doc_count ≡ ti.doc_count
  unfolding append_tokens add_term set_term_vector
  doc_count-append_tokens ti [] = refl
  doc_count-append_tokens ti (t ∷ ts) = ground (
    arith,
    doc_count-append_tokens ti ts,
    doc_count-append_tokens (set_term_vector ti (transform (text_of t)) t.term_vector) ts,
  )

  stands-append_tokens :
      (ti : TextIndex) (ts : List Token) (w : Text) (v : Vector)
      → stands ti w v ≡ true
      → stands (append_tokens transform text_of ti ts).0 w v ≡ true
  unfolding append_tokens add_term
  stands-append_tokens ti [] w v h = h
  stands-append_tokens ti (t ∷ ts) w v h =
      let ti' = set_term_vector ti (transform (text_of t)) t.term_vector in
      ground (
        arith,
        stands-append_tokens ti ts w v,
        stands-append_tokens ti' ts w v,
        stands-set_term_vector ti (transform (text_of t)) w t.term_vector v,
      )

  -- The token stands in the index under its analysed text, unless it is ignored or has no such text.
  abbrev pub IsStored : TextIndex → ℕ → Token → Type 0
  IsStored ti doc t =
      (t.ignored
        || is_blank (transform (text_of t))
        || stands ti (transform (text_of t)) (record { doc_id = doc; location = t.term_vector }))
      ≡ true

  -- The index behind one token that has a text.
  abbrev after : TextIndex → Token → TextIndex
  after ti t =
      if t.ignored || is_blank (transform (text_of t))
      then ti
      else set_term_vector ti (transform (text_of t)) t.term_vector

  append_tokens-cons :
      (ti : TextIndex) (t : Token) (ts : List Token)
      → lacks_text (t ∷ ts) ≡ false
      → append_tokens transform text_of ti (t ∷ ts)
        ≡ append_tokens transform text_of (after ti t) ts
  unfolding append_tokens add_term
  append_tokens-cons ti t ts h = ground arith

  doc_count-after : (ti : TextIndex) (t : Token) → (after ti t).doc_count ≡ ti.doc_count
  unfolding set_term_vector
  doc_count-after ti t = ground arith

  after-IsStored :
      (ti : TextIndex) (t : Token) (ts : List Token)
      → IsStored (append_tokens transform text_of (after ti t) ts).0 ti.doc_count t
  after-IsStored ti t ts =
      let term = transform (text_of t) in
      let place : Vector = record { doc_id = ti.doc_count; location = t.term_vector } in
      let ti' = set_term_vector ti term t.term_vector in
      ground (
        arith,
        stands-set_term_vector ti term term t.term_vector place,
        stands-append_tokens ti' ts term place,
      )

  append_tokens-IsStored :
      (ti : TextIndex) (ts : List Token)
      → lacks_text ts ≡ false
      → All (IsStored (append_tokens transform text_of ti ts).0 ti.doc_count) ts
  append_tokens-IsStored ti [] h = tt
  append_tokens-IsStored ti (t ∷ ts) h =
      subst (λ r. All (IsStored r.0 ti.doc_count) (t ∷ ts)) (sym (append_tokens-cons ti t ts h))
        (
          after-IsStored ti t ts,
          subst (λ n. All (IsStored (append_tokens transform text_of (after ti t) ts).0 n) ts)
              (doc_count-after ti t) (append_tokens-IsStored (after ti t) ts (ground arith)),
        )

doc_count-set_doc_id :
    (ti : TextIndex) (doc : Option ℕ) → (set_doc_id ti doc).0.doc_count ≡ (set_doc_id ti doc).1
unfolding set_doc_id next_doc_id
doc_count-set_doc_id ti none = refl
doc_count-set_doc_id ti (some zero) = refl
doc_count-set_doc_id ti (some (suc n)) = refl

terms-set_doc_id : (ti : TextIndex) (doc : Option ℕ) → (set_doc_id ti doc).0.terms ≡ ti.terms
unfolding set_doc_id next_doc_id
terms-set_doc_id ti none = refl
terms-set_doc_id ti (some zero) = refl
terms-set_doc_id ti (some (suc n)) = refl

module _ (transform : Text → Text) (ti : TextIndex) (doc : Option ℕ) (tokens : ℕ → List Token) where
  -- The number that the document gets.
  abbrev pub id_of : ℕ
  id_of = (set_doc_id ti doc).1

  -- Indexing a text fails exactly if a token that is not ignored has an empty text, with one error.
  append_string-error :
      (append_string transform ti doc tokens).1
      ≡ (if lacks_text transform (λ t. t.raw_text) (tokens id_of) then some empty_string else none)
  unfolding append_string
  append_string-error =
      append_tokens-error transform (λ t. t.raw_text) (set_doc_id ti doc).0 (tokens id_of)

  -- `AppendBytes` returns the error about an empty string exactly if some token that is not
  -- ignored has an empty normal form, and no error otherwise.
  pub append_bytes-error :
      (append_bytes transform ti doc tokens).1
      ≡ (if lacks_text transform (λ t. t.normal) (tokens id_of) then some empty_string else none)
  unfolding append_bytes
  append_bytes-error =
      append_tokens-error transform (λ t. t.normal) (set_doc_id ti doc).0 (tokens id_of)

  -- Behind a call without error every token stands in the index, at its own place in the document.
  pub append_string-IsStored :
      (append_string transform ti doc tokens).1 ≡ none
      → All
          (IsStored transform (λ t. t.raw_text) (append_string transform ti doc tokens).0 id_of)
          (tokens id_of)
  unfolding append_string
  append_string-IsStored e =
      let ti' = (set_doc_id ti doc).0 in
      let raw : Token → Text = λ t. t.raw_text in
      subst
        (λ n.
          All (IsStored transform raw (append_tokens transform raw ti' (tokens id_of)).0 n)
            (tokens id_of))
        (doc_count-set_doc_id ti doc)
        (append_tokens-IsStored transform raw ti' (tokens id_of)
          (ground (arith, append_tokens-error transform raw ti' (tokens id_of), e)))

  -- `AppendString` takes nothing out of the index: a term that stood at a place stands there
  -- afterwards, also where the call fails.
  pub stands-append_string :
      (w : Text) (v : Vector)
      → stands ti w v ≡ true
      → stands (append_string transform ti doc tokens).0 w v ≡ true
  unfolding append_string
  stands-append_string w v h =
      stands-append_tokens transform (λ t. t.raw_text) (set_doc_id ti doc).0 (tokens id_of) w v
        (rw (terms-set_doc_id ti doc, stands) h)
