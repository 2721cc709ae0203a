-- ===== src/Util/Basename.antt =====
-- `basename` undoes `join`, and only `join`.
use native.Mathlib.Numerals.{add-one}
use lixs.Base.{
  ℕ, zero, suc, ◌+◌, ◌<◌, ◌≡◌, refl, none, some, [], ◌∷◌, ◌++◌, arith, inl, inr, ◌↔◌, ap,
  Option-cases,
}
use lixs.Base.Text.{Text, length}
use lixs.Util.{slash, rfind, take, drop, basename, join, IsName}

rfind-IsName : (s : Text) → IsName s → rfind slash s ≡ none
unfolding rfind
rfind-IsName [] h = refl
rfind-IsName (c ∷ s) h = rw (rfind-IsName s h.1) (ground arith)

IsName-rfind : (s : Text) → rfind slash s ≡ none → IsName s
unfolding rfind
IsName-rfind [] h = tt
IsName-rfind (c ∷ s) h = (ground arith, IsName-rfind s (ground arith))

rfind-append : (p n : Text) → IsName n → rfind slash (p ++ slash ∷ n) ≡ some (length p)
unfolding rfind
rfind-append [] n h = rw (rfind-IsName n h)
rfind-append (c ∷ p) n h = rw (rfind-append p n h)

take-append : (p s : Text) → take (length p) (p ++ s) ≡ p
unfolding take
take-append [] s = refl
take-append (c ∷ p) s = ap (◌∷◌ c) (take-append p s)

drop-append : (p : Text) (c : ℕ) (s : Text) → drop (length p + 1) (p ++ c ∷ s) ≡ s
unfolding drop
drop-append [] c s = refl
drop-append (d ∷ p) c s = rw add-one (rw add-one at (drop-append p c s))

-- `basename` splits a path that was joined with a name that has no slash into the two again.
pub basename-join : (p n : Text) → IsName n → basename (join p n) ≡ some (p, n)
unfolding basename join
basename-join p n h =
    ground (arith, rfind-append p n h, take-append p (slash ∷ n), drop-append p slash n)

rfind-split :
    (s : Text) (pos : ℕ)
    → rfind slash s ≡ some pos
    → (s ≡ take pos s ++ slash ∷ drop (suc pos) s) × IsName (drop (suc pos) s)
unfolding rfind take drop
rfind-split [] pos h = cc
rfind-split (c ∷ s) zero h = elim (Option-cases (rfind slash s)) [
  | inl e ↦ (ground arith, IsName-rfind s e)
  | inr (q, e) ↦ absurd (ground arith)
]
rfind-split (c ∷ s) (suc pos) h =
    let (e, plain) = rfind-split s pos (ground arith) in (ap (◌∷◌ c) e, plain)

-- When `basename` splits a path, the parts join to it again, and the name has no slash.
pub join-basename :
    (path : Text) {p n : Text} → basename path ≡ some (p, n) → (path ≡ join p n) × IsName n
unfolding basename join
join-basename path {p} {n} h = elim (Option-cases (rfind slash path)) [
  | inl e ↦ absurd (ground arith)
  | inr (pos, e) ↦
      let (split, plain) = rfind-split path pos e in
      let hn : n ≡ drop (suc pos) path = rw (← add-one) (ground arith) in
      let hp : p ≡ take pos path = ground arith in (rw (hp, hn) split, rw hn plain)
]

pub length-join : (p n : Text) → length p < length (join p n)
unfolding join
length-join [] n = omega arith
length-join (c ∷ p) n = omega (arith, length-join p n)

-- The walk to the root ends: a parent is shorter than its path.
pub parent-lt : (path : Text) {p n : Text} → basename path ≡ some (p, n) → length p < length path
parent-lt path {p} {n} h = rw (join-basename path h).0 (length-join p n)

pub basename-none : (path : Text) → (basename path ≡ none) ↔ IsName path
unfolding basename
basename-none path =
    (λ h. IsName-rfind path (ground arith), λ h. rw (basename, rfind-IsName path h))

pub join_injective :
    (p q m n : Text) → IsName m → IsName n → join p m ≡ join q n → (p ≡ q) × (m ≡ n)
join_injective p q m n hm hn e = ground (arith, basename-join p m hm, basename-join q n hn)
