-- ===== src/XsProto/Perms.antt =====
-- lib/lixs/xs_proto_v1/xs_proto.cc: permissions and error codes as texts.
pub mod RoundTrip
use lixs.Base.{
  ℕ, zero, suc, Bool, true, false, Option, none, some, List, [], ◌∷◌, ◌==◌, if◌then◌else◌,
}
use lixs.Base.Text.{Text, codes}
use lixs.Base.Decimal.{to_string}
use lixs.Errno.{
  Errno, Result, ok, err, enoent, eacces, einval, eagain, eexist, ecanceled, enosys, e2big,
}
use lixs.Permissions.{Permission, PermissionList}
use lixs.XsProto.{Proto, XsWire}
use lixs.XsProto.Args.{get_int, domid_max, get_next_arg, arg_at}

abbrev pub letter : Bool → Bool → ℕ
letter true true = b'b'
letter true false = b'r'
letter false true = b'w'
letter false false = b'n'

unfoldable pub perm2str : Permission → Text
perm2str perm = letter perm.read perm.write ∷ to_string perm.cid

-- `switch (str[0])`: what everybody may read, and write.
unfoldable pub access_of : ℕ → Option (Bool × Bool)
access_of c =
    if c == b'b'
    then some (true, true)
    else if c == b'r'
    then some (true, false)
    else if c == b'w'
    then some (false, true)
    else if c == b'n'
    then some (false, false)
    else none

abbrev pub with_cid : Option (Bool × Bool) → Result ℕ → Option Permission
with_cid (some (read, write)) (ok domid) = some (record { cid = domid; read = read; write = write })
with_cid (some access) (err e) = none
with_cid none r = none

-- `none` is `false`.
unfoldable pub str2perm : Text → Option Permission
str2perm [] = none
str2perm (c ∷ []) = none
str2perm (c ∷ d ∷ s) = with_cid (access_of c) (get_int domid_max (d ∷ s))

-- `while ((arg = get_next_arg(arg)) && (perms_ok = str2perm(arg, perm)))`; `none` is `!perms_ok`.
-- The fuel bounds the arguments of a message.
unfoldable pub collect_perms : ℕ → ℕ → Proto → Option PermissionList
collect_perms zero arg p = some []
collect_perms (suc fuel) arg p = elim (get_next_arg arg p) [
  | none ↦ some []
  | some next ↦ elim (str2perm (arg_at next p.rx_body)) [
    | none ↦ none
    | some perm ↦ elim (collect_perms fuel next p) [
      | none ↦ none
      | some perms ↦ some (perm ∷ perms)
    ]
  ]
]

-- `err == xsd_errors[i].errnum`
unfoldable pub same_err : Errno → Errno → Bool
same_err enoent enoent = true
same_err eacces eacces = true
same_err einval einval = true
same_err eagain eagain = true
same_err eexist eexist = true
same_err ecanceled ecanceled = true
same_err enosys enosys = true
same_err e2big e2big = true
same_err a b = false

-- The loop over `xsd_errors`, which falls back to `EINVAL`.
unfoldable pub find_err : Errno → List (Errno × Text) → Text
find_err e [] = codes "EINVAL"
find_err e ((num, str) ∷ errors) = if same_err e num then str else find_err e errors

-- At an error; `err2str(0)` is `ok_str`.
abbrev pub err2str : XsWire → Errno → Text
err2str w e = find_err e w.xsd_errors

abbrev pub ok_str : Text
ok_str = codes "OK"
