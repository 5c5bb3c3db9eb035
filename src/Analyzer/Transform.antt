-- ===== src/Analyzer/Transform.antt =====
-- ikuzo/service/x/search/analyzer.go: what `Transform` makes of a text that can be folded.
use hub.Prelude.{
  ℕ, ◌≡◌, refl, Bool, true, ◌&&◌, not, [], ◌∷◌, Text, leb, trim, trim_left, trim_right, arith, ap,
  ◌∙◌,
}
use hub.Analyzer.{lucene_ascii_folding, trim_characters, lower_rune, to_lower, transform}
use hub.Analyzer.Laws.{
  all, is_ascii, is_foldable, lucene_ascii_folding-ascii, all-lucene_ascii_folding,
}

all-trim_left :
    (p : ℕ → Bool) (cutset s : Text) → all p s ≡ true → all p (trim_left s cutset) ≡ true
unfolding trim_left
all-trim_left p cutset [] h = refl
all-trim_left p cutset (r ∷ s) h = ground (arith, all-trim_left p cutset s)

all-trim_right :
    (p : ℕ → Bool) (cutset s : Text) → all p s ≡ true → all p (trim_right s cutset) ≡ true
unfolding trim_right
all-trim_right p cutset [] h = refl
all-trim_right p cutset (r ∷ s) h = ground (arith, all-trim_right p cutset s)

trim_left_idem : (cutset s : Text) → trim_left (trim_left s cutset) cutset ≡ trim_left s cutset
unfolding trim_left
trim_left_idem cutset [] = refl
trim_left_idem cutset (c ∷ s) = ground (arith, trim_left_idem cutset s)

trim_right_idem : (cutset s : Text) → trim_right (trim_right s cutset) cutset ≡ trim_right s cutset
unfolding trim_right
trim_right_idem cutset [] = refl
trim_right_idem cutset (c ∷ s) = ground (arith, trim_right_idem cutset s)

trim_left-trim_right :
    (cutset s : Text)
    → trim_left (trim_right (trim_left s cutset) cutset) cutset
      ≡ trim_right (trim_left s cutset) cutset
unfolding trim_left trim_right
trim_left-trim_right cutset [] = refl
trim_left-trim_right cutset (c ∷ s) = ground (arith, trim_left-trim_right cutset s)

trim_idem : (cutset s : Text) → trim (trim s cutset) cutset ≡ trim s cutset
unfolding trim
trim_idem cutset s =
    ap (λ t. trim_right t cutset) (trim_left-trim_right cutset s)
    ∙ trim_right_idem cutset (trim_left s cutset)

module _ (unicode_lower : ℕ → ℕ) where
  -- ASCII and not an upper-case letter.
  abbrev pub is_plain : ℕ → Bool
  is_plain r = is_ascii r && not (leb b'A' r && leb r b'Z')

  plain-lower_rune : (r : ℕ) → is_ascii r ≡ true → is_plain (lower_rune unicode_lower r) ≡ true
  unfolding lower_rune
  plain-lower_rune r h = ground arith

  all-to_lower : (s : Text) → all is_ascii s ≡ true → all is_plain (to_lower unicode_lower s) ≡ true
  unfolding to_lower
  all-to_lower [] h = refl
  all-to_lower (r ∷ s) h = ground (arith, plain-lower_rune r, all-to_lower s)

  to_lower-plain : (s : Text) → all is_plain s ≡ true → to_lower unicode_lower s ≡ s
  unfolding to_lower lower_rune
  to_lower-plain [] h = refl
  to_lower-plain (r ∷ s) h = let rest = to_lower-plain s (ground arith) in ground (arith, rest)

  all_ascii-plain : (s : Text) → all is_plain s ≡ true → all is_ascii s ≡ true
  all_ascii-plain [] h = refl
  all_ascii-plain (r ∷ s) h = ground (arith, all_ascii-plain s)

  all-trim : (p : ℕ → Bool) (s : Text) → all p s ≡ true → all p (trim s trim_characters) ≡ true
  unfolding trim
  all-trim p s h =
      all-trim_right p trim_characters (trim_left s trim_characters)
        (all-trim_left p trim_characters s h)

  -- `Transform` of a text whose characters all have an ASCII form is in ASCII, below 128, without an
  -- upper-case letter, and a second `Transform` leaves it as it is.
  pub transform_lem :
      (s : Text)
      → all is_foldable s ≡ true
      → (all is_plain (transform unicode_lower s) ≡ true)
        × (transform unicode_lower (transform unicode_lower s) ≡ transform unicode_lower s)
  unfolding transform
  transform_lem s h =
      let lowered = to_lower unicode_lower (lucene_ascii_folding s) in
      let t = trim lowered trim_characters in
      let plain : all is_plain t ≡ true =
        all-trim is_plain lowered
          (all-to_lower (lucene_ascii_folding s) (all-lucene_ascii_folding s h)) in
      (
        plain,
        rw (lucene_ascii_folding-ascii t (all_ascii-plain t plain), to_lower-plain t plain)
            (trim_idem trim_characters lowered),
      )
