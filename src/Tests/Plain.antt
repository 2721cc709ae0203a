-- ===== src/Tests/Plain.antt =====
-- Operations outside of transactions, on a database with the root, `/a` and `/a/b`.
use lixs.Base.{
  ℕ, ◌≡◌, ◌≢◌, Bool, true, false, ◌||◌, not, some, List, [], ◌∷◌, refl, if◌then◌else◌, ite, arith,
  inl, inr, Bool-cases,
}
use lixs.Base.Text.{Text, codes, text_dec}
use lixs.Errno.{ok, err, enoent}
use lixs.Permissions.{has_write_access, root_perms}
use lixs.Mstore.Database.{Database, at, is_valid}
use lixs.Mstore.Database.Sound.{IsSound, IsSound-nil}
use lixs.Mstore.SimpleAccess.{create, read, update, del}
use lixs.Mstore.SimpleAccess.Create.{create-Created, Created}
use lixs.Mstore.SimpleAccess.Creation.{create-valid}
use lixs.Mstore.SimpleAccess.Pruned.{within, dom0_writes}
use lixs.Mstore.SimpleAccess.Reads.{may_write, read-del, read-update}
use lixs.Mstore.SimpleAccess.Run.{Call, creates, updates, dels, sets_perms, run, run-IsSound}

abbrev upper : Text
upper = codes "/a"

abbrev lower : Text
lower = codes "/a/b"

abbrev calls : List Call
calls =
    creates 0 lower
    ∷ updates 3 upper (codes "x")
    ∷ sets_perms 0 lower root_perms
    ∷ dels 0 upper
    ∷ []

run-IsSound_example : (db' : Database) × (run calls [] ≡ some db') × IsSound db'
run-IsSound_example = run-IsSound calls [] IsSound-nil

abbrev two : Database
two = (create 0 lower []).1

two-Created : Created lower [] (create 0 lower [])
two-Created = create-Created 0 lower [] IsSound-nil

read-del_example :
    (db' : Database) × (del 0 lower two ≡ some (ok tt, db'))
    × ((c : ℕ) (j : Text) → read c j db' ≡ (if within lower j then err enoent else read c j two))
read-del_example =
    read-del 0 lower two two-Created.grown.sound two-Created.grown.here (dom0_writes _)

upper-valid : is_valid upper two ≡ true
unfolding at lixs.Base.Map.find text_dec
upper-valid = (create-valid 0 lower [] IsSound-nil upper).1

create-valid_example :
    ((create 0 lower []).0 ≡ not (is_valid lower []))
    × (is_valid upper two ≡ (is_valid upper [] || within upper lower))
    × (read 0 lower two ≡ (if is_valid lower [] then read 0 lower [] else ok []))
create-valid_example = create-valid 0 lower [] IsSound-nil upper

dom0-may_write : (path : Text) (db : Database) → may_write 0 path db ≡ true
unfolding has_write_access
dom0-may_write path db = elim (Bool-cases (is_valid path db)) [ inl v ↦ rw v | inr off ↦ rw off ]

upper≢lower : upper ≢ lower
upper≢lower e = ground arith

read-update_example :
    ((update 0 lower (codes "v") two).0 ≡ ok tt)
    × (read 0 lower (update 0 lower (codes "v") two).1 ≡ ok (codes "v"))
    × (read 5 upper (update 0 lower (codes "v") two).1 ≡ read 5 upper two)
read-update_example =
    read-update 0 lower (codes "v") two two-Created.grown.sound (dom0-may_write lower two) 5 upper
      upper≢lower upper-valid

absent : is_valid upper [] ≡ false
unfolding at lixs.Base.Map.find
absent = refl

-- An entry that client 4 may not write.
abbrev locked : Database
locked =
    (
      upper,
      record {
        e = record {
          value = [];
          perms = record { cid = 3; read = true; write = false } ∷ [];
          children = [];
          write_seq = 1;
          delete_seq = 0;
          write_children_seq = 0;
        };
        te = [];
        next_seq = 2;
      },
    )
    ∷ []

locked-valid : is_valid upper locked ≡ true
unfolding at lixs.Base.Map.find text_dec
locked-valid = refl

locked-denied : has_write_access 4 (at upper locked).e.perms ≡ false
unfolding has_write_access at lixs.Base.Map.find text_dec
locked-denied = refl
