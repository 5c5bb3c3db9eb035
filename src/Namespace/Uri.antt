-- ===== src/Namespace/Uri.antt =====
-- `SplitURI` of ikuzo/domain/namespace.go, which config/namespace.go repeats word for word.
use hub.Prelude.{
  ℕ, suc, ◌≡◌, refl, false, [], ◌∷◌, ◌++◌, length, take, drop, ltb, ◌==◌, if◌then◌else◌, Text, has,
  ℕ_discrete, take-append-drop, arith,
}

-- `strings.LastIndex(s, c) + 1` for a separator of one byte: 0 where it is missing.
unfoldable pub after_last : ℕ → Text → ℕ
after_last c [] = 0
after_last c (x ∷ s) =
    let rest = after_last c s in if ltb 0 rest then suc rest else if x == c then 1 else 0

unfoldable pub split_at : ℕ → Text → Text × Text
split_at n uri = (take n uri, drop n uri)

unfoldable pub split_uri : Text → Text × Text
split_uri uri =
    if ltb 0 (after_last (b'#') uri)
    then split_at (after_last (b'#') uri) uri
    else if ltb 0 (after_last (b'/') uri)
    then split_at (after_last (b'/') uri) uri
    else ([], uri)

-- The base and the name, one behind the other, are the URI.
split_uri-append : (uri : Text) → (split_uri uri).0 ++ (split_uri uri).1 ≡ uri
unfolding split_uri split_at
split_uri-append uri = ground (
  arith,
  take-append-drop (after_last (b'#') uri) uri,
  take-append-drop (after_last (b'/') uri) uri,
)

after_last-absent : (c : ℕ) (s : Text) → has ℕ_discrete c s ≡ false → after_last c s ≡ 0
unfolding after_last has ℕ_discrete
after_last-absent c [] h = refl
after_last-absent c (x ∷ s) h = ground (arith, after_last-absent c s)

after_last-append :
    (c : ℕ) (b n : Text) → has ℕ_discrete c n ≡ false → after_last c (b ++ c ∷ n) ≡ suc (length b)
unfolding after_last
after_last-append c [] n h = ground (arith, after_last-absent c n)
after_last-append c (x ∷ b) n h = ground (arith, after_last-append c b n)

split_at-append : (c : ℕ) (b n : Text) → split_at (suc (length b)) (b ++ c ∷ n) ≡ (b ++ c ∷ [], n)
unfolding split_at
split_at-append c [] n = refl
split_at-append c (x ∷ b) n = let rest = split_at-append c b n in cc

has-append_mid :
    (d c : ℕ) (b n : Text)
    → has ℕ_discrete d b ≡ false
    → has ℕ_discrete d (c ∷ n) ≡ false
    → has ℕ_discrete d (b ++ c ∷ n) ≡ false
unfolding has
has-append_mid d c [] n hb hn = hn
has-append_mid d c (x ∷ b) n hb hn = ground (arith, has-append_mid d c b n)

-- A URI is split behind its last `#`.
split_uri-hash :
    (b n : Text) → has ℕ_discrete (b'#') n ≡ false → split_uri (b ++ b'#' ∷ n) ≡ (b ++ b'#' ∷ [], n)
unfolding split_uri
split_uri-hash b n h = ground (arith, after_last-append (b'#') b n, split_at-append (b'#') b n)

-- A URI without `#` is split behind its last `/`.
split_uri-slash :
    (b n : Text)
    → has ℕ_discrete (b'#') b ≡ false
    → has ℕ_discrete (b'#') n ≡ false
    → has ℕ_discrete (b'/') n ≡ false
    → split_uri (b ++ b'/' ∷ n) ≡ (b ++ b'/' ∷ [], n)
unfolding split_uri
split_uri-slash b n hb hn h =
    let none_left : has ℕ_discrete (b'#') (b ++ b'/' ∷ n) ≡ false =
      has-append_mid (b'#') (b'/') b n hb (unfold has ℕ_discrete in hn) in
    ground (
      arith,
      after_last-absent (b'#') (b ++ b'/' ∷ n) none_left,
      after_last-append (b'/') b n,
      split_at-append (b'/') b n,
    )
