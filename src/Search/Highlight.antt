-- ===== src/Search/Highlight.antt =====
-- ikuzo/service/x/search/tokenizer.go: `Highlight` over the tokens of a stream. What is written to the
-- string builder is a list of pieces, and `render` gives the text.
pub mod Laws
use hub.Prelude.{
  ℕ, zero, suc, Bool, true, false, ◌&&◌, not, List, [], ◌∷◌, ◌++◌, Text, codes, is_blank, ℤ, pos,
  negsuc, if◌then◌else◌,
}
use hub.Search.Vector
use hub.Search.Vector.{Vectors, has_vector}
use hub.Search.Token.{Token, get_term_vector}

pub data Piece : Type 0 where
  start_tag start_styled end_tag space : Piece
  raw : Text → Piece

-- The flags `inHighlight`, `insertSpace` and `splitHightlight`.
pub record Flags : Type 0 where
  pub in_highlight : Bool
  pub insert_space : Bool
  pub split_highlight : Bool

abbrev pub write_if : Bool → Piece → List Piece
write_if true p = p ∷ []
write_if false p = []

-- The first test of the loop. `ts.next(idx)` is the token at `idx`, so `next` is the token itself.
unfoldable pub close_before : Token → Flags → List Piece × Flags
close_before t f =
    if t.ignored && (not t.punctuation && f.in_highlight)
    then (
      end_tag ∷ [],
      record { in_highlight = false; insert_space = false; split_highlight = true },
    )
    else ([], f)

-- The rest of a round, from the answer of `HasVector`.
unfoldable pub write_token : Bool → Token → Flags → List Piece × Flags
write_token ok t f =
    let leaves = not ok && (f.in_highlight && not t.ignored) in
    let enters = ok && not f.in_highlight in
    (
      write_if leaves end_tag
          ++ (write_if f.insert_space space
              ++ (write_if enters (if f.split_highlight then start_tag else start_styled)
                  ++ raw t.raw_text ∷ [])),
      record {
        in_highlight = if leaves then false else if enters then true else f.in_highlight;
        insert_space = t.trailing_space;
        split_highlight = f.split_highlight;
      },
    )

unfoldable pub highlight_round : Vectors → Token → Flags → List Piece × Flags
highlight_round vectors t f =
    let (before, f') = close_before t f in
    let (written, f'') = write_token (has_vector vectors (get_term_vector t)) t f' in
    (before ++ written, f'')

unfoldable pub highlight_tokens : Vectors → List Token → Flags → List Piece
highlight_tokens vectors [] f = write_if f.in_highlight end_tag
highlight_tokens vectors (t ∷ ts) f =
    let (written, f') = highlight_round vectors t f in written ++ highlight_tokens vectors ts f'

-- `TokenStream.String`
unfoldable pub string : List Token → List Piece
string [] = []
string (t ∷ ts) = raw t.raw_text ∷ (write_if t.trailing_space space ++ string ts)

abbrev pub is_zero : ℤ → Bool
is_zero (pos zero) = true
is_zero (pos (suc n)) = false
is_zero (negsuc n) = false

unfoldable pub highlight : Vectors → List Token → List Piece
highlight vectors ts =
    if is_zero (Vector.size vectors)
    then string ts
    else highlight_tokens vectors ts
        (record { in_highlight = false; insert_space = false; split_highlight = false })

-- `setDefaultTags`: the start tag, the one with the class, and the end tag.
unfoldable pub set_default_tags : Text → Text → Text × Text × Text
set_default_tags tag css_class =
    let tag' = if is_blank tag then codes "em" else tag in
    let start = b'<' ∷ (tag' ++ b'>' ∷ []) in
    (
      start,
      if is_blank css_class
          then start
          else b'<' ∷ (tag' ++ (codes " class=\"" ++ (css_class ++ codes "\">"))),
      codes "</" ++ (tag' ++ b'>' ∷ []),
    )

-- The text of the pieces.
unfoldable pub render : Text × Text × Text → List Piece → Text
render tags [] = []
render tags (start_tag ∷ ps) = tags.0 ++ render tags ps
render tags (start_styled ∷ ps) = tags.1 ++ render tags ps
render tags (end_tag ∷ ps) = tags.2 ++ render tags ps
render tags (space ∷ ps) = b' ' ∷ render tags ps
render tags (raw s ∷ ps) = s ++ render tags ps
