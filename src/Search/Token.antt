-- ===== src/Search/Token.antt =====
-- ikuzo/service/x/search/tokenizer.go: the token, as the tokenizer makes it and the index reads it.
use hub.Prelude.{ℕ, Bool, ◌&&◌, not, Text}
use hub.Search.Vector.{Vector}

pub record Token : Type 0 where
  pub vector : ℕ
  pub term_vector : ℕ
  pub offset_start : ℕ
  pub offset_end : ℕ
  pub ignored : Bool
  pub raw_text : Text
  pub normal : Text
  pub trailing_space : Bool
  pub punctuation : Bool
  pub doc_id : ℕ

unfoldable pub is_term_vector : Token → Bool
is_term_vector t = not t.punctuation && not t.ignored

unfoldable pub get_term_vector : Token → Vector
get_term_vector t = record { location = t.term_vector; doc_id = t.doc_id }
