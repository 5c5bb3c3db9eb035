-- ===== src/Analyzer.antt =====
-- ikuzo/service/x/search/analyzer.go and asciifold.go. `unicode_lower` stands for `unicode.ToLower`
-- behind ASCII.
pub mod Cases
pub mod Laws
pub mod Transform
mod Tests
use hub.Prelude.{
  ℕ, ◌+◌, Bool, true, false, ◌&&◌, ◌||◌, Option, none, some, List, [], ◌∷◌, ◌++◌, map, Text, codes,
  ltb, leb, has, ℕ_discrete, trim, fields, join, if◌then◌else◌,
}
use hub.Analyzer.Cases.{cases}

-- The first case of the switch that lists the rune.
unfoldable pub find_case : ℕ → List (List ℕ × Text) → Option Text
find_case r [] = none
find_case r ((runes, text) ∷ rest) =
    let later = find_case r rest in if has ℕ_discrete r runes then some text else later

-- A rune below 128 has no case, and the default writes the rune.
unfoldable pub fold_rune : ℕ → Text
fold_rune r =
    if ltb r 128 then r ∷ [] else elim (find_case r cases) [ none ↦ r ∷ [] | some text ↦ text ]

unfoldable pub lucene_ascii_folding : Text → Text
lucene_ascii_folding [] = []
lucene_ascii_folding (r ∷ s) = fold_rune r ++ lucene_ascii_folding s

abbrev pub trim_characters : Text
trim_characters = codes "\".,;:[]()?'`"

module _ (unicode_lower : ℕ → ℕ) where
  unfoldable pub lower_rune : ℕ → ℕ
  lower_rune r =
      if ltb r 128 then (if leb b'A' r && leb r b'Z' then r + 32 else r) else unicode_lower r

  -- `strings.ToLower`
  unfoldable pub to_lower : Text → Text
  to_lower s = map lower_rune s

  unfoldable pub transform : Text → Text
  transform text = trim (to_lower (lucene_ascii_folding text)) trim_characters

  -- The loop over the words of `TransformPhrase`.
  unfoldable pub clean_words : List Text → List Text
  clean_words [] = []
  clean_words (word ∷ words) = transform word ∷ clean_words words

  unfoldable pub transform_phrase : Text → Text
  transform_phrase text = join (clean_words (fields text)) (b' ' ∷ [])
