-- ===== src/XsProto/Rx.antt =====
-- inc/lixs/xs_proto_v1/xs_proto.hh: `process_rx`, which takes messages out of a connection. The
-- connection's `read` and the handling of a message are parameters. A write behind the end of the
-- memory of `rx_msg` is a result of its own, and so is a length that `rx_bytes`, an `int`, cannot hold.
pub mod Laws
pub mod Bounds
pub mod Frames
pub mod Tape
pub mod Delivered
pub mod Requests
pub mod Recorded
use lixs.Base.{
  ℕ, zero, suc, ◌+◌, ◌-◌, ◌^◌, Bool, true, false, Option, none, some, List, [], ◌∷◌, ◌++◌, ltb,
  if◌then◌else◌,
}
use lixs.Base.Text.{Text, length, splice}
use lixs.XsProto.{XsWire, Hdr, Proto}

-- `dom_path_length_max`
abbrev pub dom_path_length_max : ℕ
dom_path_length_max = 35

-- The constructor of `wire`: how much of `buff` there is from `body` on.
unfoldable pub body_size : XsWire → Text → ℕ
body_size w dom_path = dom_path_length_max + w.payload_max + 1 - (length dom_path + 1)

pub data IoState : Type 0 where
  at_start at_hdr at_body : IoState

-- `rx_state`, `rx_bytes`, and `rx_buff` as what has been read since it was set to the header, and as
-- an offset into the body.
pub record Rx : Type 0 where
  pub state : IoState
  pub hdr : Text
  pub off : ℕ
  pub bytes : ℕ

-- What a call of the connection's `read` leaves.
pub record Given (S : Type 0) : Type 0 where
  pub done : Bool
  pub chunk : Text
  pub bytes : ℕ
  pub next : S

-- `INT_MAX`
abbrev pub int_max : ℕ
int_max = 2 ^ 31 - 1

-- Another turn of the loop, a `return`, a write out of bounds or a length that is no `int`, with the
-- header in the memory, or a message whose handling does not come back.
pub data Turn (S : Type 0) : Type 0 where
  again stop : Rx → Proto → S → Turn S
  overflow : Hdr → Turn S
  endless : Proto → S → Turn S

-- `rx_msg.body[rx_msg.hdr.len] = '\0'`
unfoldable pub sanitize_input : Proto → Proto
sanitize_input p = record p { rx_body = splice p.rx_hdr.len (0 ∷ []) p.rx_body }

module _ {S : Type 0} (w : XsWire) (read : ℕ → S → Given S)
    (handle : Proto → S → Option (Proto × S)) where
  abbrev handled : Rx → Proto → S → Option (Proto × S) → Turn S
  handled rx p s none = endless p s
  handled rx p s (some (p', s')) = again (record rx { state = at_start }) p' s'

  -- A message whose body is complete.
  unfoldable pub complete : Rx → Proto → S → Turn S
  complete rx p s =
      if ltb p.rx_hdr.len (body_size w p.dom_path)
      then handled rx (sanitize_input p) s (handle (sanitize_input p) s)
      else overflow p.rx_hdr

  unfoldable pub turn : IoState → Rx → Proto → S → Turn S
  turn at_start rx p s =
      again (record { state = at_hdr; hdr = []; off = 0; bytes = w.hdr_size }) p s
  turn at_hdr rx p s =
      let o = read rx.bytes s in
      let hdr = rx.hdr ++ o.chunk in
      if o.done
      then (let p' = record p { rx_hdr = w.decode_hdr hdr } in
          if ltb int_max p'.rx_hdr.len
          then overflow p'.rx_hdr
          else again (record { state = at_body; hdr = hdr; off = 0; bytes = p'.rx_hdr.len }) p'
              o.next)
      else stop (record rx { hdr = hdr; bytes = o.bytes }) p o.next
  turn at_body rx p s =
      let o = read rx.bytes s in
      let p' = record p { rx_body = splice rx.off o.chunk p.rx_body } in
      let rx' = record rx { off = rx.off + length o.chunk; bytes = o.bytes } in
      if ltb (body_size w p.dom_path) (rx.off + length o.chunk)
      then overflow p.rx_hdr
      else if o.done
      then complete rx' p' o.next
      else stop rx' p' o.next

  -- The loop, as long as the fuel lasts: `none` is spent fuel.
  unfoldable pub process_rx : ℕ → Rx → Proto → S → Option (Turn S)
  process_rx zero rx p s = none
  process_rx (suc n) rx p s = elim (turn rx.state rx p s) [
    | again rx' p' s' ↦ process_rx n rx' p' s'
    | stop rx' p' s' ↦ some (stop rx' p' s')
    | overflow hdr ↦ some (overflow hdr)
    | endless p' s' ↦ some (endless p' s')
  ]
