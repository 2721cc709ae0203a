-- ===== src/Util/Below.antt =====
-- Paths below a path.
use mathlib.Core.Logic.{if_pos, if_neg}
use lixs.Base.{
  ◌≡◌, ◌⊎◌, true, false, Bool, ◌&&◌, [], ◌∷◌, arith, refl, inl, inr, ◌==◌, ite, some, none,
  Bool-cases,
}
use lixs.Base.Text.{Text, text_dec}
use lixs.Util.{slash, basename, join, IsName}
use lixs.Util.Basename.{join-basename, basename-none}

-- `j` is `path`, a slash and more.
abbrev pub below : Text → Text → Bool
below [] [] = false
below [] (c ∷ s) = c == slash
below (d ∷ p) [] = false
below (d ∷ p) (c ∷ s) = d == c && below p s

pub below-join : (p n : Text) → below p (join p n) ≡ true
unfolding join
below-join [] n = refl
below-join (d ∷ p) n = ground (arith, below-join p n)

pub below_irrefl : (p : Text) → below p p ≡ false
below_irrefl [] = refl
below_irrefl (d ∷ p) = ground (arith, below_irrefl p)

pub below-of_join : (p n j : Text) → below (join p n) j ≡ true → below p j ≡ true
unfolding join
below-of_join [] n [] h = h
below-of_join [] n (c ∷ s) h = ground arith
below-of_join (d ∷ p) n [] h = h
below-of_join (d ∷ p) n (c ∷ s) h = ground (arith, below-of_join p n s)

pub below-IsName : (p n : Text) → IsName n → below p n ≡ false
below-IsName [] [] name = refl
below-IsName [] (c ∷ s) name = name.0
below-IsName (d ∷ p) [] name = refl
below-IsName (d ∷ p) (c ∷ s) name = ground (arith, below-IsName p s name.1)

-- A child of `q` that is below `p` is a child of `p`, or `q` is below `p` too.
pub below-split :
    (p q n : Text) → IsName n → below p (join q n) ≡ true → (q ≡ p) ⊎ (below p q ≡ true)
unfolding join
below-split [] [] n name h = inl refl
below-split [] (c ∷ q) n name h = inr h
below-split (d ∷ p) [] n name h = absurd (ground (arith, below-IsName p n name))
below-split (d ∷ p) (c ∷ q) n name h = elim (below-split p q n name (ground arith)) [
  | inl e ↦ inl (ground arith)
  | inr b ↦ inr (ground arith)
]

pub below_of_below : (k p n : Text) → below k p ≡ true → below k (join p n) ≡ true
unfolding join
below_of_below [] [] n h = cc
below_of_below [] (c ∷ p) n h = h
below_of_below (d ∷ k) [] n h = cc
below_of_below (d ∷ k) (c ∷ p) n h = ground (arith, below_of_below k p n)

-- What lies above a path: its parent, and what lies above that.
pub below-parent :
    (k path : Text) {p n : Text}
    → basename path ≡ some (p, n)
    → below k path ≡ ite (text_dec p k) true (below k p)
below-parent k path {p} {n} up = elim (text_dec p k) [
  | yes e ↦ rw (if_pos _ e, split.0, ← e) (below-join p n)
  | no ne ↦ elim (Bool-cases (below k path)) [
    | inl b ↦ elim (below-split k p n split.1 (rw split.0 at b)) [
      | inl here ↦ absurd (ne here)
      | inr above ↦ rw (if_neg _ ne, above) b
    ]
    | inr off ↦ elim (Bool-cases (below k p)) [
      | inl b ↦ cc (off, below_of_below k p n b, split.0)
      | inr off' ↦ rw (if_neg _ ne, off') off
    ]
  ]
]
  where
    split : (path ≡ join p n) × IsName n
    split = join-basename path up

pub below-root : (k path : Text) → basename path ≡ none → below k path ≡ false
below-root k path up = below-IsName k path ((basename-none path).0 up)
