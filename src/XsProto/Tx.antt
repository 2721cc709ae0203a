-- ===== src/XsProto/Tx.antt =====
-- inc/lixs/xs_proto_v1/xs_proto.hh: `process_tx`, which puts the messages of the queue onto a
-- connection. The connection's `write` is a parameter.
pub mod Laws
pub mod Owed
pub mod Order
use lixs.Base.{
  ℕ, zero, suc, Bool, true, false, Option, none, some, List, [], ◌∷◌, ◌++◌, if◌then◌else◌,
}
use lixs.Base.Text.{Text, length, drop, take}
use lixs.XsProto.{XsWire, Proto, Message}
use lixs.XsProto.Body.{Wire, prepare_tx, lay_out}
use lixs.XsProto.Rx.{IoState, at_start, at_hdr, at_body}

-- `tx_state`, `tx_msg`, the memory from `tx_buff` on, and `tx_bytes`.
pub record Tx : Type 0 where
  pub state : IoState
  pub wire : Wire
  pub buff : Text
  pub bytes : ℕ

-- What a call of the connection's `write` leaves.
pub record Sent (S : Type 0) : Type 0 where
  pub done : Bool
  pub chunk : Text
  pub bytes : ℕ
  pub next : S

-- Another turn of the loop, or a `return`.
pub data Turn (S : Type 0) : Type 0 where
  again stop : Tx → Proto → S → Turn S

module _ {S : Type 0} (w : XsWire) (write : Text → ℕ → S → Sent S) where
  abbrev pub started : Tx → Proto → S → Option (Proto × Wire) → Turn S
  started tx p s none = stop tx p s
  started tx p s (some (p', wire)) =
      again
        (record { state = at_hdr; wire = wire; buff = w.encode_hdr wire.hdr; bytes = w.hdr_size })
        p' s

  -- Where `write` is not done: it moved `tx_buff` and `tx_bytes`.
  abbrev pub moved : Tx → Sent S → Tx
  moved tx o = record tx { buff = drop (length o.chunk) tx.buff; bytes = o.bytes }

  unfoldable pub turn : IoState → Tx → Proto → S → Turn S
  turn at_start tx p s = started tx p s (prepare_tx w p tx.wire)
  turn at_hdr tx p s =
      let o = write tx.buff tx.bytes s in
      if o.done
      then again (record tx { state = at_body; buff = tx.wire.body; bytes = tx.wire.hdr.len }) p
          o.next
      else stop (moved tx o) p o.next
  turn at_body tx p s =
      let o = write tx.buff tx.bytes s in
      if o.done
      then again (record (moved tx o) { state = at_start }) p o.next
      else stop (moved tx o) p o.next

  -- The loop, as long as the fuel lasts: `none` is spent fuel.
  unfoldable pub process_tx : ℕ → Tx → Proto → S → Option (Tx × Proto × S)
  process_tx zero tx p s = none
  process_tx (suc n) tx p s = elim (turn tx.state tx p s) [
    | again tx' p' s' ↦ process_tx n tx' p' s'
    | stop tx' p' s' ↦ some (tx', p', s')
  ]
