-- ===== src/XsProto/Perms/RoundTrip.antt =====
-- A permission that is printed is read back.
use lixs.Base.{
  ℕ, ◌≤◌, ◌<◌, ◌≡◌, ◌∙◌, ◌^◌, Bool, true, false, some, ◌∷◌, refl, sym, ap, ltb, if_false, arith,
}
use lixs.Base.Decimal.{to_string}
use lixs.Base.Decimal.RoundTrip.{stoll-to_string, to_string_first}
use lixs.Errno.{ok}
use lixs.Permissions.{Permission}
use lixs.XsProto.Args.{domid_max, check_range, get_int}
use lixs.XsProto.Perms.{letter, perm2str, access_of, with_cid, str2perm}

get_int-to_string : (max n : ℕ) → n ≤ max → max < 2 ^ 63 → get_int max (to_string n) ≡ ok n
unfolding get_int
get_int-to_string max n fits range =
    let e : ltb max n ≡ false = ground arith in
    ap (check_range max) (stoll-to_string n (omega arith)) ∙ if_false _ _ e

access_of-letter : (read write : Bool) → access_of (letter read write) ≡ some (read, write)
unfolding access_of
access_of-letter true true = refl
access_of-letter true false = refl
access_of-letter false true = refl
access_of-letter false false = refl

-- The text of a permission whose client is a domain that `domid_t` can name is read back as that
-- permission, whatever it allows.
pub str2perm-perm2str :
    (perm : Permission) → perm.cid ≤ domid_max → str2perm (perm2str perm) ≡ some perm
unfolding perm2str str2perm
str2perm-perm2str perm fits =
    let (c, s, first) = to_string_first perm.cid in
    ap (λ t. str2perm (letter perm.read perm.write ∷ t)) first
    ∙ ap (λ t. with_cid (access_of (letter perm.read perm.write)) (get_int domid_max t)) (sym first)
    ∙ ap (λ a. with_cid a (get_int domid_max (to_string perm.cid)))
        (access_of-letter perm.read perm.write)
    ∙ ap (with_cid (some (perm.read, perm.write)))
        (get_int-to_string domid_max perm.cid fits (omega arith))
