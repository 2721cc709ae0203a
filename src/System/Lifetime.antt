-- ===== src/System/Lifetime.antt =====
-- What is left of an object after its lifetime.
use lixs.Base.{ℕ, ◌≡◌, refl, false, not, List, ◌∷◌, arith}
use lixs.System.{System, Built, built, throws, release, escapes, is_built}

-- What the destructor leaves of what a constructor has made, or what one that throws leaves.
unfoldable pub lifetime : {A : Type 0} → (A → System → System) → Built A × System → System
lifetime close (built a, s) = close a s
lifetime close (throws e, s) = s

pub release-head : (n : ℕ) (ms : List ℕ) → release n (n ∷ ms) ≡ ms
unfolding release
release-head n ms = ground arith

-- Nothing of an object is left.
pub record Clean {A : Type 0} (make : System → Built A × System) (close : A → System → System)
    : Type 0 where
  pub leaves_none : (s : System) → lifetime close (make s) ≡ s

pub release-below : (n m : ℕ) (ms : List ℕ) → release n (m ∷ n ∷ ms) ≡ m ∷ ms
unfolding release
release-below n m ms = ground arith

-- A constructor makes its object where not even a handler of nothing sees an exception.
pub is_built-escapes : {A : Type 0} (r : Built A) → is_built r ≡ not (escapes (λ e. false) r)
unfolding escapes
is_built-escapes (built a) = refl
is_built-escapes (throws e) = refl
