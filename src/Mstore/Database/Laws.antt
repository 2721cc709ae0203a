-- ===== src/Mstore/Database/Laws.antt =====
-- What is at a path after a change of the database.
use lixs.Base.{
  ◌≡◌, ◌≢◌, ite, some, arith, Option-cases, inl, inr, true, List, [], ◌∷◌, suc, ap, refl,
}
use lixs.Base.Map
use lixs.Base.Set
use lixs.Base.Text.{Text, length, text_dec, text_key}
use lixs.Mstore.Database.{Record, Database, new_record, at, modify, touch, is_valid}

pub at-modify :
    (k j : Text) (f : Record → Record) (db : Database)
    → at j (modify k f db) ≡ ite (text_dec k j) (f (at k db)) (at j db)
unfolding at modify
at-modify k j f db = ground (arith, Map.find-put k j (f (at k db)) db)

pub at-modify_self :
    (k : Text) (f : Record → Record) (db : Database) → at k (modify k f db) ≡ f (at k db)
at-modify_self k f db = ground (arith, at-modify k k f db)

pub at-modify_ne :
    {k j : Text} → k ≢ j → (f : Record → Record) (db : Database) → at j (modify k f db) ≡ at j db
at-modify_ne {k} {j} ne f db = ground (arith, at-modify k j f db)

pub at-touch : (k j : Text) (db : Database) → at j (touch k db) ≡ at j db
unfolding touch
at-touch k j db = ground (arith, at-modify k j (λ r. r) db)

pub at-erase :
    (k j : Text) (db : Database) → at j (Map.erase k db) ≡ ite (text_dec k j) new_record (at j db)
unfolding at
at-erase k j db = ground (arith, Map.find-erase k j db)

-- A valid path is in the map.
pub find-some : (k : Text) (db : Database) → is_valid k db ≡ true → Map.find k db ≡ some (at k db)
unfolding at
find-some k db v = elim (Option-cases (Map.find k db)) [
  | inl e ↦ absurd (ground arith)
  | inr (r, e) ↦ rw e
]

-- The keys of the map cover the valid paths.
abbrev pub keys : Database → List Text
keys [] = []
keys ((k, r) ∷ db) = k ∷ keys db

has-keys :
    (k : Text) (db : Database) {r : Record} → Map.find k db ≡ some r → Set.has k (keys db) ≡ true
unfolding Map.find Set.has
has-keys k [] e = cc
has-keys k ((j, q) ∷ db) {r} e = ground (arith, has-keys k db {r = r})

pub has-keys_valid : (k : Text) (db : Database) → is_valid k db ≡ true → Set.has k (keys db) ≡ true
has-keys_valid k db v = has-keys k db (find-some k db v)

pub length-keys : (db : Database) → length (keys db) ≡ length db
length-keys [] = refl
length-keys (e ∷ db) = ap suc (length-keys db)
