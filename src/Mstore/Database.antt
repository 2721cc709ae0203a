-- ===== src/Mstore/Database.antt =====
-- inc/lixs/mstore/database.hh: the records of the database. A `record&` or `tentry&` that the
-- source holds is the key of that record here, read and written through the database: the nodes of
-- a `std::map` stay where they are until they are erased. Sequence numbers (`long int`) are plain
-- numbers: the source counts them up from 1 and does not treat their overflow.
pub mod Laws
pub mod Sound
use lixs.Base.{ℕ, suc, ◌+◌, ◌≡◌, Bool, true, false, Option, none, some, List, [], ◌∷◌, ltb}
use lixs.Base.Map
use lixs.Base.Map.{Map}
use lixs.Base.Set.{Set}
use lixs.Base.Text.{Text, text_key}
use lixs.Permissions.{PermissionList}

pub record Entry : Type 0 where
  pub value : Text
  pub perms : PermissionList
  pub children : Set Text
  pub write_seq : ℕ
  pub delete_seq : ℕ
  pub write_children_seq : ℕ

pub record TEntry : Type 0 where
  pub value : Text
  pub perms : PermissionList
  pub children : Set Text
  pub children_add : Set Text
  pub children_rem : Set Text
  pub init_seq : ℕ
  pub init_valid : Bool
  pub read_seq : ℕ
  pub write_seq : ℕ
  pub delete_seq : ℕ
  pub read_children_seq : ℕ

abbrev pub TEntryMap : Type 0
TEntryMap = Map ℕ TEntry

pub record Record : Type 0 where
  pub e : Entry
  pub te : TEntryMap
  pub next_seq : ℕ

abbrev pub Database : Type 0
Database = Map Text Record

abbrev pub new_entry : Entry
new_entry = record {
  value = [];
  perms = [];
  children = [];
  write_seq = 0;
  delete_seq = 0;
  write_children_seq = 0;
}

abbrev pub new_tentry : TEntry
new_tentry = record {
  value = [];
  perms = [];
  children = [];
  children_add = [];
  children_rem = [];
  init_seq = 0;
  init_valid = false;
  read_seq = 0;
  write_seq = 0;
  delete_seq = 0;
  read_children_seq = 0;
}

abbrev pub new_record : Record
new_record = record { e = new_entry; te = []; next_seq = 1 }

-- `rec.e.write_seq > rec.e.delete_seq`
abbrev pub valid : Entry → Bool
valid e = ltb e.delete_seq e.write_seq

abbrev or_new : Option Record → Record
or_new none = new_record
or_new (some r) = r

-- The record that `db[path]` refers to.
unfoldable pub at : Text → Database → Record
at path db = or_new (Map.find path db)

-- The record reached by `db[path]`, changed: the array operator creates a missing record.
unfoldable pub modify : Text → (Record → Record) → Database → Database
modify path f db = Map.put path (f (at path db)) db

-- `db[path]`, for its effect of creating a missing record.
unfoldable pub touch : Text → Database → Database
touch path db = modify path (λ r. r) db

abbrev pub is_valid : Text → Database → Bool
is_valid path db = valid (at path db).e
