-- ===== src/Analyzer/Laws.antt =====
-- ikuzo/service/x/search/analyzer.go and asciifold.go: folding and the ASCII characters.
use hub.Prelude.{
  ℕ, ◌≡◌, refl, Bool, true, false, ◌&&◌, none, some, List, [], ◌∷◌, ◌++◌, Text, ltb, arith, sym,
  subst, ◌∙◌, Option-cases, Bool-cases, inl, inr,
}
use mathlib.Core.List.{append_assoc, append-nil}
use hub.Analyzer.{find_case, fold_rune, lucene_ascii_folding}
use hub.Analyzer.Cases.{cases}

abbrev pub all : (ℕ → Bool) → Text → Bool
all p [] = true
all p (r ∷ s) = p r && all p s

abbrev pub is_ascii : ℕ → Bool
is_ascii r = ltb r 128

-- Every case is written in ASCII.
abbrev all_ascii : List (List ℕ × Text) → Bool
all_ascii [] = true
all_ascii ((_, text) ∷ rest) = all is_ascii text && all_ascii rest

cases-all_ascii : all_ascii cases ≡ true
unfolding cases
cases-all_ascii = refl

find_case-all_ascii :
    (r : ℕ) (table : List (List ℕ × Text)) (text : Text)
    → all_ascii table ≡ true
    → find_case r table ≡ some text
    → all is_ascii text ≡ true
unfolding find_case
find_case-all_ascii r [] text h e = absurd (cc)
find_case-all_ascii r ((runes, t) ∷ table) text h e =
    ground (arith, find_case-all_ascii r table text)

lucene_ascii_folding-append :
    (s t : Text) → lucene_ascii_folding (s ++ t) ≡ lucene_ascii_folding s ++ lucene_ascii_folding t
unfolding lucene_ascii_folding
lucene_ascii_folding-append [] t = refl
lucene_ascii_folding-append (r ∷ s) t =
    rw
      (
        lucene_ascii_folding-append s t,
        append_assoc (fold_rune r) (lucene_ascii_folding s) (lucene_ascii_folding t),
      )
      refl

pub lucene_ascii_folding-ascii : (s : Text) → all is_ascii s ≡ true → lucene_ascii_folding s ≡ s
unfolding lucene_ascii_folding fold_rune
lucene_ascii_folding-ascii [] h = refl
lucene_ascii_folding-ascii (r ∷ s) h =
    let rest = lucene_ascii_folding-ascii s (ground arith) in ground (arith, rest)

fold_rune-none : (r : ℕ) → ltb r 128 ≡ false → find_case r cases ≡ none → fold_rune r ≡ r ∷ []
unfolding fold_rune
fold_rune-none r h e = ground (arith, h, e)

fold_rune-some :
    (r : ℕ) (text : Text) → ltb r 128 ≡ false → find_case r cases ≡ some text → fold_rune r ≡ text
unfolding fold_rune
fold_rune-some r text h e = ground (arith, h, e)

fold_rune-ascii : (r : ℕ) → ltb r 128 ≡ true → fold_rune r ≡ r ∷ []
unfolding fold_rune
fold_rune-ascii r h = ground (arith, h)

-- The runes that end up in ASCII.
abbrev pub is_foldable : ℕ → Bool
is_foldable r = all is_ascii (fold_rune r)

fold_rune-stable : (r : ℕ) → lucene_ascii_folding (fold_rune r) ≡ fold_rune r
fold_rune-stable r = elim (Bool-cases (ltb r 128)) [
  | inl y ↦
      subst (λ s. lucene_ascii_folding s ≡ s) (sym (fold_rune-ascii r y))
        (lucene_ascii_folding-ascii (r ∷ []) (ground (arith, y)))
  | inr big ↦ elim (Option-cases (find_case r cases)) [
    | inl e ↦
        let once = fold_rune-none r big e in
        subst (λ s. lucene_ascii_folding s ≡ s) (sym once)
          (unfold lucene_ascii_folding in append-nil (fold_rune r) ∙ once)
    | inr found ↦
        subst (λ s. lucene_ascii_folding s ≡ s) (sym (fold_rune-some r found.0 big found.1))
          (lucene_ascii_folding-ascii found.0
            (find_case-all_ascii r cases found.0 cases-all_ascii found.1))
  ]
]

-- Folding a folded text leaves it as it is.
lucene_ascii_folding_idem :
    (s : Text) → lucene_ascii_folding (lucene_ascii_folding s) ≡ lucene_ascii_folding s
unfolding lucene_ascii_folding
lucene_ascii_folding_idem [] = refl
lucene_ascii_folding_idem (r ∷ s) =
    lucene_ascii_folding-append (fold_rune r) (lucene_ascii_folding s)
    ∙ rw (fold_rune-stable r, lucene_ascii_folding_idem s) refl

all-append : (p : ℕ → Bool) (s t : Text) → all p (s ++ t) ≡ (all p s && all p t)
all-append p [] t = refl
all-append p (r ∷ s) t = ground (arith, all-append p s t)

pub all-lucene_ascii_folding :
    (s : Text) → all is_foldable s ≡ true → all is_ascii (lucene_ascii_folding s) ≡ true
unfolding lucene_ascii_folding
all-lucene_ascii_folding [] h = refl
all-lucene_ascii_folding (r ∷ s) h =
    ground (
      arith,
      all-append is_ascii (fold_rune r) (lucene_ascii_folding s),
      all-lucene_ascii_folding s,
    )
