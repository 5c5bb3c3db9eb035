-- ===== src/Analyzer/Tests.antt =====
-- Runs of ikuzo/service/x/search/analyzer.go and asciifold.go, and the theorems at inputs that exercise
-- the code.
use hub.Prelude.{
  ℕ, ◌≡◌, refl, true, [], ◌∷◌, Text, codes, has, ℕ_discrete, trim, trim_left, trim_right, fields,
  fields_from, is_space, join, if◌then◌else◌, ◌==◌,
}
use hub.Analyzer.{
  find_case, fold_rune, lucene_ascii_folding, lower_rune, to_lower, transform, clean_words,
  transform_phrase,
}
use hub.Analyzer.Cases.{cases}
use hub.Analyzer.Laws.{all, is_foldable}
use hub.Analyzer.Transform.{is_plain, transform_lem}

fold_run : Unit {0}
unfolding cases find_case fold_rune lucene_ascii_folding lower_rune to_lower transform clean_words
    transform_phrase has ℕ_discrete trim trim_left trim_right fields fields_from is_space join
fold_run = tt

-- The angstrom sign has the letter å as its lower case.
abbrev lower : ℕ → ℕ
lower r = if r == 0x212b then 0xe5 else r

-- `Één (ﬀ)`
abbrev sample : Text
sample = 0xc9 ∷ 0xe9 ∷ b'n' ∷ b' ' ∷ b'(' ∷ 0xfb00 ∷ b')' ∷ []

folding_test : lucene_ascii_folding sample ≡ codes "Een (ff)"
unfolding fold_run
folding_test = refl

phrase_test : transform_phrase lower sample ≡ codes "een ff"
unfolding fold_run
phrase_test = refl

sample_foldable : all is_foldable sample ≡ true
unfolding fold_run
sample_foldable = refl

transform_example :
    (all (is_plain lower) (transform lower sample) ≡ true)
    × (transform lower (transform lower sample) ≡ transform lower sample)
transform_example = transform_lem lower sample sample_foldable

-- Two calls of `Transform` differ from one where a character has no ASCII form but its lower case has.
once_test : transform lower (0x212b ∷ []) ≡ 0xe5 ∷ []
unfolding fold_run
once_test = refl

twice_test : transform lower (transform lower (0x212b ∷ [])) ≡ codes "a"
unfolding fold_run
twice_test = refl
