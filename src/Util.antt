-- ===== src/Util.antt =====
-- lib/lixs/util.cc: `basename`, which splits a path at its last slash. The calls `rfind` and
-- `substr` of `std::string` are written out; `none` stands for `npos`, and for the result `false`.
pub mod Basename
pub mod Below
use lixs.Base.{
  ℕ, zero, suc, ◌+◌, ◌≡◌, false, Option, none, some, [], ◌∷◌, ◌++◌, ◌==◌, if◌then◌else◌,
}
use lixs.Base.Text.{Text}

abbrev pub slash : ℕ
slash = b'/'

rfind : ℕ → Text → Option ℕ
rfind c [] = none
rfind c (d ∷ s) = elim (rfind c s) [
  | some pos ↦ some (suc pos)
  | none ↦ if d == c then some 0 else none
]

take : ℕ → Text → Text
take zero s = []
take (suc n) [] = []
take (suc n) (c ∷ s) = c ∷ take n s

drop : ℕ → Text → Text
drop zero s = s
drop (suc n) [] = []
drop (suc n) (c ∷ s) = drop n s

unfoldable pub basename : Text → Option (Text × Text)
unfolding rfind take drop
basename path = elim (rfind slash path) [
  | none ↦ none
  | some pos ↦ some (take pos path, drop (pos + 1) path)
]

-- `path + "/" + name`
unfoldable pub join : Text → Text → Text
join path name = path ++ slash ∷ name

-- A name is a text with no slash.
abbrev pub IsName : Text → Type 0
IsName [] = Unit
IsName (c ∷ s) = ((c == slash) ≡ false) × IsName s
