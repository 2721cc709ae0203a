-- ===== src/XsProto/Body.antt =====
-- lib/lixs/xs_proto_v1/xs_proto.cc: how a message of the queue is laid out in `tx_msg`.
use lixs.Base.{
  ℕ, ◌+◌, ◌-◌, ◌%◌, ◌^◌, Bool, true, false, Option, none, some, List, [], ◌∷◌, ◌++◌, ltb,
  if◌then◌else◌,
}
use lixs.Base.Text.{Text, length}
use lixs.Errno.{e2big}
use lixs.XsProto.{XsWire, Hdr, Message, MsgType, xs_error, Proto}
use lixs.XsProto.Perms.{err2str}

-- `wire`, where `body` is what has been written from the front of the memory on.
pub record Wire : Type 0 where
  pub hdr : Hdr
  pub body : Text

module _ (w : XsWire) where
  unfoldable pub build_hdr : MsgType → ℕ → ℕ → Wire → Wire
  build_hdr type req_id tx_id tx = record tx {
    hdr = record { type = w.code_of type; req_id = req_id; tx_id = tx_id; len = 0 };
  }

  -- The result says whether the payload fits.
  unfoldable pub build_elem : Text → Bool → Wire → Bool × Wire
  build_elem [] terminator tx =
      (true, record { hdr = record tx.hdr { len = if terminator then 1 else 0 }; body = 0 ∷ [] })
  build_elem (c ∷ s) terminator tx = if ltb w.payload_max (length (c ∷ s)) then (false, tx) else (
    true,
    record {
      hdr = record tx.hdr { len = length (c ∷ s) + (if terminator then 1 else 0) };
      body = (c ∷ s) ++ 0 ∷ [];
    },
  )

  -- Each element with its null character.
  unfoldable pub joined : List Text → Text
  joined [] = []
  joined (e ∷ es) = e ++ 0 ∷ joined es

  -- `length`, which is of 32 bits.
  abbrev pub body_length : List Text → Bool → ℕ
  body_length es true = length (joined es) % 2 ^ 32
  body_length es false = (length (joined es) % 2 ^ 32 + (2 ^ 32 - 1)) % 2 ^ 32

  unfoldable pub build_body : List Text → Bool → Wire → Bool × Wire
  build_body [] terminator tx =
      (true, record { hdr = record tx.hdr { len = if terminator then 1 else 0 }; body = 0 ∷ [] })
  build_body (e ∷ es) terminator tx =
      if ltb w.payload_max (body_length (e ∷ es) terminator) then (false, tx) else (
        true,
        record {
          hdr = record tx.hdr { len = body_length (e ∷ es) terminator };
          body = joined (e ∷ es);
        },
      )

  abbrev pub too_big : Message → Bool × Wire → Wire
  too_big msg (true, tx) = tx
  too_big msg (false, tx) =
      (build_elem (err2str w e2big) false (build_hdr xs_error msg.req_id msg.tx_id tx)).1

  unfoldable pub lay_out : Message → Wire → Wire
  lay_out msg tx =
      too_big msg (build_body msg.body msg.terminator (build_hdr msg.type msg.req_id msg.tx_id tx))

  abbrev prepare : List Message → Proto → Wire → Option (Proto × Wire)
  prepare [] p tx = none
  prepare (msg ∷ msgs) p tx = some (record p { tx_queue = msgs }, lay_out msg tx)

  -- `none` is `false`, where the queue is empty.
  unfoldable pub prepare_tx : Proto → Wire → Option (Proto × Wire)
  prepare_tx p tx = prepare p.tx_queue p tx
