-- ===== src/Errno.antt =====
-- The `int` that the operations return: 0 is `ok`, with what the call writes through its reference
-- parameter, and the codes of <cerrno> are `err`.
use lixs.Base.{◌≡◌, ◌⊎◌, refl, inl, inr}

pub data Errno : Type 0 where
  enoent eacces einval eagain eexist ecanceled enosys e2big : Errno

pub data Result {ℓ} (A : Type ℓ) : Type ℓ where
  ok : A → Result A
  err : Errno → Result A

-- A call with nothing to write but its code.
abbrev pub Status : Type 0
Status = Result (Unit {0})

pub Result-cases {ℓ} :
    {A : Type ℓ} (r : Result A) → ((a : A) × (r ≡ ok a)) ⊎ ((e : Errno) × (r ≡ err e))
Result-cases (ok a) = inl (a, refl)
Result-cases (err e) = inr (e, refl)
