-- ===== src/XsProto/Args.antt =====
-- lib/lixs/xs_proto_v1/xs_proto.cc: the arguments of a request, which are C strings one after the
-- other in the memory of `rx_msg.body`. A `char*` into it is its offset.
use lixs.Base.{
  ℕ, zero, suc, ◌+◌, Bool, true, false, ◌||◌, Option, none, some, [], ◌∷◌, ◌++◌, ltb, leb, ◌==◌,
  if◌then◌else◌,
}
use lixs.Base.Text.{Text, length, drop}
use lixs.Base.Decimal.{stoll}
use lixs.Errno.{Result, ok, err, einval}
use lixs.Util.{slash}
use lixs.XsProto.{Proto}

-- The C string at the front of a memory.
unfoldable pub cstr : Text → Text
cstr [] = []
cstr (c ∷ m) = if c == 0 then [] else c ∷ cstr m

-- The offset behind the string at an offset: `curr + strlen(curr) + 1`.
unfoldable pub past : ℕ → Text → ℕ
past off m = off + length (cstr (drop off m)) + 1

unfoldable pub arg_at : ℕ → Text → Text
arg_at off m = cstr (drop off m)

abbrev pub get_arg1 : Proto → Text
get_arg1 p = arg_at 0 p.rx_body

abbrev pub get_arg2 : Proto → Text
get_arg2 p = arg_at (past 0 p.rx_body) p.rx_body

abbrev pub get_arg3 : Proto → Text
get_arg3 p = arg_at (past (past 0 p.rx_body) p.rx_body) p.rx_body

-- `none` is the null pointer. Where `curr` is `abs_path`, which ends with the first argument, the
-- next argument is where it is for `curr` at offset 0.
unfoldable pub get_next_arg : ℕ → Proto → Option ℕ
get_next_arg curr p =
    let next = past curr p.rx_body in if leb p.rx_hdr.len next then none else some next

abbrev first_char : Text → ℕ
first_char [] = 0
first_char (c ∷ m) = c

-- `body[0] == '/' || body[0] == '@'`
abbrev pub is_absolute : Proto → Bool
is_absolute p = first_char p.rx_body == slash || first_char p.rx_body == b'@'

-- The body, or from the path of the domain on, which stands before it.
unfoldable pub get_path : Proto → Text
get_path p = if is_absolute p then get_arg1 p else p.dom_path ++ slash ∷ get_arg1 p

abbrev pub check_range : ℕ → Option (Bool × ℕ) → Result ℕ
check_range max none = err einval
check_range max (some (true, zero)) = ok 0
check_range max (some (true, suc n)) = err einval
check_range max (some (false, n)) = if ltb max n then err einval else ok n

-- At an unsigned type whose largest number is `max`.
unfoldable pub get_int : ℕ → Text → Result ℕ
get_int max arg = check_range max (stoll arg)

-- `domid_t`, and `unsigned int` with `evtchn_port_t`
abbrev pub domid_max : ℕ
domid_max = 65535

abbrev pub uint_max : ℕ
uint_max = 4294967295
