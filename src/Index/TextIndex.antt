-- ===== src/Index/TextIndex.antt =====
-- ikuzo/storage/x/memory/index_full_text.go: filling the index. `transform` stands for
-- `Analyzer.Transform`; a document comes as the tokens that the tokenizer made of it.
pub mod Laws
pub mod Valid
use hub.Prelude.{
  ℕ, zero, suc, ◌+◌, Bool, true, false, Option, none, some, List, [], ◌∷◌, length, Text,
  text_discrete, ℕ_discrete, get, put, has, insert, is_blank, if◌then◌else◌,
}
use hub.Search.Vector
use hub.Search.Vector.{Vectors, new_vectors}
use hub.Search.Token.{Token}

pub record TextIndex : Type 0 where
  pub terms : List (Text × Vectors)
  pub doc_count : ℕ
  pub docs : List ℕ

unfoldable pub new_text_index : TextIndex
new_text_index = record { terms = []; doc_count = 0; docs = [] }

unfoldable pub reset : TextIndex → TextIndex
reset ti = record ti { terms = []; docs = []; doc_count = 0 }

unfoldable pub next_doc_id : TextIndex → TextIndex × ℕ
next_doc_id ti =
    let id = ti.doc_count + 1 in
    (record ti { doc_count = id; docs = insert ℕ_discrete id ti.docs }, id)

-- The optional document number is absent, or 0 for the next free one, or given.
unfoldable pub set_doc_id : TextIndex → Option ℕ → TextIndex × ℕ
set_doc_id ti none = next_doc_id ti
set_doc_id ti (some zero) = next_doc_id ti
set_doc_id ti (some (suc n)) =
    (record ti { doc_count = suc n; docs = insert ℕ_discrete (suc n) ti.docs }, suc n)

unfoldable pub has_doc_id : TextIndex → ℕ → Bool
has_doc_id ti doc = has ℕ_discrete doc ti.docs

unfoldable pub size : TextIndex → ℕ
size ti = length ti.terms

-- `ti.Terms[term]`, made anew where it is missing.
abbrev pub vectors_or_new : Option Vectors → Vectors
vectors_or_new (some tv) = tv
vectors_or_new none = new_vectors

unfoldable pub set_term_vector : TextIndex → Text → ℕ → TextIndex
set_term_vector ti term pos = record ti {
  terms =
      put text_discrete term
        (Vector.add (vectors_or_new (get text_discrete term ti.terms)) ti.doc_count pos) ti.terms;
}

pub data IndexError : Type 0 where
  empty_string : IndexError

module _ (transform : Text → Text) where
  unfoldable pub add_term : TextIndex → Text → ℕ → TextIndex × Option IndexError
  add_term ti word pos =
      if is_blank word
      then (ti, some empty_string)
      else if is_blank (transform word)
      then (ti, none)
      else (set_term_vector ti (transform word) pos, none)

  -- The loop over the tokens; `text_of` is the field that is indexed. An error stops it.
  unfoldable pub append_tokens :
      (Token → Text) → TextIndex → List Token → TextIndex × Option IndexError
  append_tokens text_of ti [] = (ti, none)
  append_tokens text_of ti (t ∷ ts) = elim t.ignored [
    | true ↦ append_tokens text_of ti ts
    | false ↦
        let (ti', failed) = add_term ti (text_of t) t.term_vector in
        elim failed [ none ↦ append_tokens text_of ti' ts | some e ↦ (ti', some e) ]
  ]

  unfoldable pub append_bytes :
      TextIndex → Option ℕ → (ℕ → List Token) → TextIndex × Option IndexError
  append_bytes ti doc tokens =
      let (ti', id) = set_doc_id ti doc in append_tokens (λ t. t.normal) ti' (tokens id)

  unfoldable pub append_string :
      TextIndex → Option ℕ → (ℕ → List Token) → TextIndex × Option IndexError
  append_string ti doc tokens =
      let (ti', id) = set_doc_id ti doc in append_tokens (λ t. t.raw_text) ti' (tokens id)
