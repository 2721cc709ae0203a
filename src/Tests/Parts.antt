-- ===== src/Tests/Parts.antt =====
-- Paths, permissions, the event queue, and the ids of transactions.
use lixs.Base.{ℕ, ◌≡◌, Bool, true, false, some, List, [], ◌∷◌, if◌then◌else◌, arith, ◌==◌}
use lixs.Base.Key.{nat_key}
use lixs.Base.Text.{Text, codes}
use lixs.LixsConf.Options.{}
use lixs.Mstore.Store.{Store, init, branch, read}
use lixs.Mstore.Store.Dispatch.{updates, step, read-step}

abbrev parent : Text
parent = codes "/a"

abbrev name : Text
name = codes "b"

-- A callback notes its number; 2 disables the manager.
abbrev note : ℕ → List ℕ → Bool × List ℕ
note n seen = (if n == 2 then false else true, n ∷ seen)

abbrev numbers : List ℕ
numbers = 1 ∷ 2 ∷ 3 ∷ []

-- A second transaction beside one that is open.
abbrev opened : Store
opened = (branch init).1

read-step_example :
    (st' : Store) × (step 1 (updates 0 parent name) opened ≡ some st')
    × ((cid : ℕ) (j : Text) → (read cid 0 j st').0 ≡ (read cid 0 j opened).0)
read-step_example = read-step 1 (updates 0 parent name) opened (λ e. ground arith)
