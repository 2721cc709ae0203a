-- ===== src/Permissions/Access.antt =====
-- Who has access, stated without the code: an inductive relation.
use lixs.Base.{ℕ, Bool, true, ◌&&◌, ◌≡◌, ◌↔◌, [], ◌∷◌, ◌==◌, arith, Bool-cases, inl, inr}
use lixs.Permissions.{
  Permission, PermissionList, grants_read, grants_write, has_read_access, has_write_access,
}

pub data Right : Type 0 where
  reading writing : Right

abbrev pub allows : Right → Permission → Bool
allows reading p = p.read
allows writing p = p.write

-- Some permission of the list is this client's and carries the right.
pub data Listed (r : Right) (cid : ℕ) : PermissionList → Type 0 where
  here :
      (p : Permission) (ps : PermissionList)
      → p.cid ≡ cid
      → allows r p ≡ true
      → Listed r cid (p ∷ ps)
  later : (p : Permission) (ps : PermissionList) → Listed r cid ps → Listed r cid (p ∷ ps)

pub data MayAccess (r : Right) (cid : ℕ) : PermissionList → Type 0 where
  dom0 : (ps : PermissionList) → cid ≡ 0 → MayAccess r cid ps
  unrestricted : MayAccess r cid []
  owner : (p : Permission) (ps : PermissionList) → p.cid ≡ cid → MayAccess r cid (p ∷ ps)
  everybody : (p : Permission) (ps : PermissionList) → allows r p ≡ true → MayAccess r cid (p ∷ ps)
  listed : (ps : PermissionList) → Listed r cid ps → MayAccess r cid ps

grants_read-Listed :
    (cid : ℕ) (ps : PermissionList) → grants_read cid ps ≡ true → Listed reading cid ps
grants_read-Listed cid [] h = absurd (ground arith)
grants_read-Listed cid (p ∷ ps) h = elim (Bool-cases (p.cid == cid && p.read)) [
  | inl e ↦ here p ps (ground arith) (ground arith)
  | inr e ↦ later p ps (grants_read-Listed cid ps (ground arith))
]

Listed-grants_read :
    (cid : ℕ) {ps : PermissionList} → Listed reading cid ps → grants_read cid ps ≡ true
Listed-grants_read cid (here p ps c a) = ground arith
Listed-grants_read cid (later p ps l) = ground (arith, Listed-grants_read cid l)

read_sound :
    (cid : ℕ) (ps : PermissionList) → has_read_access cid ps ≡ true → MayAccess reading cid ps
unfolding has_read_access
read_sound cid [] h = unrestricted
read_sound cid (p ∷ ps) h = elim (Bool-cases (cid == 0)) [
  | inl z ↦ dom0 (p ∷ ps) (ground arith)
  | inr nz ↦ elim (Bool-cases (p.cid == cid)) [
    | inl o ↦ owner p ps (ground arith)
    | inr no_owner ↦ elim (Bool-cases p.read) [
      | inl e ↦ everybody p ps e
      | inr e ↦ listed (p ∷ ps) (grants_read-Listed cid (p ∷ ps) (ground arith))
    ]
  ]
]

read_complete :
    (cid : ℕ) {ps : PermissionList} → MayAccess reading cid ps → has_read_access cid ps ≡ true
unfolding has_read_access
read_complete cid (dom0 ps z) = ground arith
read_complete cid unrestricted = ground arith
read_complete cid (owner p ps o) = ground arith
read_complete cid (everybody p ps a) = ground arith
read_complete cid (listed ps l) = ground (arith, Listed-grants_read cid l)

grants_write-Listed :
    (cid : ℕ) (ps : PermissionList) → grants_write cid ps ≡ true → Listed writing cid ps
grants_write-Listed cid [] h = absurd (ground arith)
grants_write-Listed cid (p ∷ ps) h = elim (Bool-cases (p.cid == cid && p.write)) [
  | inl e ↦ here p ps (ground arith) (ground arith)
  | inr e ↦ later p ps (grants_write-Listed cid ps (ground arith))
]

Listed-grants_write :
    (cid : ℕ) {ps : PermissionList} → Listed writing cid ps → grants_write cid ps ≡ true
Listed-grants_write cid (here p ps c a) = ground arith
Listed-grants_write cid (later p ps l) = ground (arith, Listed-grants_write cid l)

write_sound :
    (cid : ℕ) (ps : PermissionList) → has_write_access cid ps ≡ true → MayAccess writing cid ps
unfolding has_write_access
write_sound cid [] h = unrestricted
write_sound cid (p ∷ ps) h = elim (Bool-cases (cid == 0)) [
  | inl z ↦ dom0 (p ∷ ps) (ground arith)
  | inr nz ↦ elim (Bool-cases (p.cid == cid)) [
    | inl o ↦ owner p ps (ground arith)
    | inr no_owner ↦ elim (Bool-cases p.write) [
      | inl e ↦ everybody p ps e
      | inr e ↦ listed (p ∷ ps) (grants_write-Listed cid (p ∷ ps) (ground arith))
    ]
  ]
]

write_complete :
    (cid : ℕ) {ps : PermissionList} → MayAccess writing cid ps → has_write_access cid ps ≡ true
unfolding has_write_access
write_complete cid (dom0 ps z) = ground arith
write_complete cid unrestricted = ground arith
write_complete cid (owner p ps o) = ground arith
write_complete cid (everybody p ps a) = ground arith
write_complete cid (listed ps l) = ground (arith, Listed-grants_write cid l)

-- A client has read access exactly when it is domain 0, or the list is empty, or it owns the node,
-- or everybody may read, or some permission of the list lets it read.
pub has_read_access_iff :
    (cid : ℕ) (ps : PermissionList) → (has_read_access cid ps ≡ true) ↔ MayAccess reading cid ps
has_read_access_iff cid ps = (read_sound cid ps, read_complete cid)

-- A client has write access exactly when it is domain 0, or the list is empty, or it owns the node,
-- or everybody may write, or some permission of the list lets it write.
pub has_write_access_iff :
    (cid : ℕ) (ps : PermissionList) → (has_write_access cid ps ≡ true) ↔ MayAccess writing cid ps
has_write_access_iff cid ps = (write_sound cid ps, write_complete cid)
