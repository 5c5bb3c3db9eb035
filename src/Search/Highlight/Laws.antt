-- ===== src/Search/Highlight/Laws.antt =====
-- ikuzo/service/x/search/tokenizer.go: tags are balanced, and no token is lost.
use hub.Prelude.{
  ◌≡◌, refl, Bool, true, false, List, [], ◌∷◌, ◌++◌, Text, map, arith, Option, none, some, ◌∙◌,
}
use hub.Search.Vector.{Vectors, has_vector}
use hub.Search.Token.{Token, get_term_vector}
use hub.Search.Highlight.{
  Piece, start_tag, start_styled, end_tag, space, raw, Flags, close_before, write_token,
  highlight_round, highlight_tokens, string, highlight,
}

-- Tags open and close in turn: the flag tells whether one is open, and the result whether one is open
-- at the end; a tag that opens twice or closes twice gives no result.
abbrev pub track : Bool → List Piece → Option Bool
track is_open [] = some is_open
track is_open (raw s ∷ ps) = track is_open ps
track is_open (space ∷ ps) = track is_open ps
track false (start_tag ∷ ps) = track true ps
track false (start_styled ∷ ps) = track true ps
track false (end_tag ∷ ps) = none
track true (start_tag ∷ ps) = none
track true (start_styled ∷ ps) = none
track true (end_tag ∷ ps) = track false ps

track-append :
    (b c : Bool) (ps qs : List Piece) → track b ps ≡ some c → track b (ps ++ qs) ≡ track c qs
track-append b c [] qs h = ground arith
track-append b c (raw s ∷ ps) qs h = track-append b c ps qs h
track-append b c (space ∷ ps) qs h = track-append b c ps qs h
track-append false c (start_tag ∷ ps) qs h = track-append true c ps qs h
track-append false c (start_styled ∷ ps) qs h = track-append true c ps qs h
track-append false c (end_tag ∷ ps) qs h = absurd (cc)
track-append true c (start_tag ∷ ps) qs h = absurd (cc)
track-append true c (start_styled ∷ ps) qs h = absurd (cc)
track-append true c (end_tag ∷ ps) qs h = track-append false c ps qs h

track-close_before :
    (t : Token) (f : Flags)
    → track f.in_highlight (close_before t f).0 ≡ some (close_before t f).1.in_highlight
unfolding close_before
track-close_before t f = ground arith

track-write_token :
    (ok : Bool) (t : Token) (f : Flags)
    → track f.in_highlight (write_token ok t f).0 ≡ some (write_token ok t f).1.in_highlight
unfolding write_token
track-write_token ok t f = ground arith

track-highlight_round :
    (vectors : Vectors) (t : Token) (f : Flags)
    → track f.in_highlight (highlight_round vectors t f).0
      ≡ some (highlight_round vectors t f).1.in_highlight
unfolding highlight_round
track-highlight_round vectors t f =
    let (before, f') = close_before t f in
    let ok = has_vector vectors (get_term_vector t) in
    track-append f.in_highlight (close_before t f).1.in_highlight (close_before t f).0
      (write_token ok t (close_before t f).1).0 (track-close_before t f)
    ∙ track-write_token ok t (close_before t f).1

track-highlight_tokens :
    (vectors : Vectors) (ts : List Token) (f : Flags)
    → track f.in_highlight (highlight_tokens vectors ts f) ≡ some false
unfolding highlight_tokens
track-highlight_tokens vectors [] f = ground arith
track-highlight_tokens vectors (t ∷ ts) f =
    let r = highlight_round vectors t f in
    track-append f.in_highlight r.1.in_highlight r.0 (highlight_tokens vectors ts r.1)
      (track-highlight_round vectors t f)
    ∙ track-highlight_tokens vectors ts r.1

track-string : (ts : List Token) → track false (string ts) ≡ some false
unfolding string
track-string [] = refl
track-string (t ∷ ts) = ground (arith, track-string ts)

-- The texts of the tokens that were written.
abbrev pub raws : List Piece → List Text
raws [] = []
raws (raw s ∷ ps) = s ∷ raws ps
raws (_ ∷ ps) = raws ps

raws-append : (ps qs : List Piece) → raws (ps ++ qs) ≡ raws ps ++ raws qs
raws-append [] qs = refl
raws-append (raw s ∷ ps) qs = rw (raws-append ps qs) refl
raws-append (start_tag ∷ ps) qs = raws-append ps qs
raws-append (start_styled ∷ ps) qs = raws-append ps qs
raws-append (end_tag ∷ ps) qs = raws-append ps qs
raws-append (space ∷ ps) qs = raws-append ps qs

raws-highlight_round :
    (vectors : Vectors) (t : Token) (f : Flags)
    → raws (highlight_round vectors t f).0 ≡ t.raw_text ∷ []
unfolding highlight_round close_before write_token
raws-highlight_round vectors t f = ground arith

raws-highlight_tokens :
    (vectors : Vectors) (ts : List Token) (f : Flags)
    → raws (highlight_tokens vectors ts f) ≡ map (λ t. t.raw_text) ts
unfolding highlight_tokens
raws-highlight_tokens vectors [] f = ground arith
raws-highlight_tokens vectors (t ∷ ts) f =
    let r = highlight_round vectors t f in
    rw
      (
        raws-append r.0 (highlight_tokens vectors ts r.1),
        raws-highlight_round vectors t f,
        raws-highlight_tokens vectors ts r.1,
      )
      refl

raws-string : (ts : List Token) → raws (string ts) ≡ map (λ t. t.raw_text) ts
unfolding string
raws-string [] = refl
raws-string (t ∷ ts) = ground (arith, raws-string ts)

-- What `Highlight` writes opens and closes its tags in turn and leaves none open, and holds the texts
-- of all tokens in their order.
pub highlight_lem :
    (vectors : Vectors) (ts : List Token)
    → (track false (highlight vectors ts) ≡ some false)
      × (raws (highlight vectors ts) ≡ map (λ t. t.raw_text) ts)
unfolding highlight
highlight_lem vectors ts =
    let f : Flags = record {
      in_highlight = false;
      insert_space = false;
      split_highlight = false;
    } in
    ground (
      arith,
      track-string ts,
      raws-string ts,
      track-highlight_tokens vectors ts f,
      raws-highlight_tokens vectors ts f,
    )
