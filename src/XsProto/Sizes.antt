-- ===== src/XsProto/Sizes.antt =====
-- How long a message that is sent can be.
use lixs.Base.{
  ◌+◌, ◌-◌, ◌%◌, ◌^◌, ◌<◌, ◌≤◌, ◌≡◌, ◌⊎◌, Bool, true, false, some, List, [], ◌∷◌, ltb-cases, refl,
  inl, inr, arith,
}
use lixs.Base.Text.{Text, length, length-++}
use lixs.Errno.{e2big}
use lixs.XsProto.{XsWire, Hdr, Message, Proto}
use lixs.XsProto.Perms.{err2str}
use lixs.XsProto.Body.{
  Wire, build_hdr, build_elem, joined, body_length, build_body, lay_out, prepare_tx,
}

-- A message in the memory of `tx_msg`: the payload is not above its maximum, the bytes that were
-- written fit with the null character behind them, and those that will be sent are among them.
pub record Fits (w : XsWire) (tx : Wire) : Type 0 where
  pub payload : tx.hdr.len ≤ w.payload_max
  pub written : length tx.body ≤ w.payload_max + 1
  pub sent : tx.hdr.len ≤ length tx.body

module _ (w : XsWire) (room : 1 ≤ w.payload_max) where
  build_elem-Fits :
      (e : Text) (tx : Wire) → length e ≤ w.payload_max → Fits w (build_elem w e false tx).1
  unfolding build_elem
  build_elem-Fits [] tx fits = record {
    payload = omega arith;
    written = omega arith;
    sent = omega arith;
  }
  build_elem-Fits (c ∷ s) tx fits = elim (ltb-cases w.payload_max (length (c ∷ s))) [
    | inl (e, over) ↦ record { payload = omega arith; written = omega arith; sent = omega arith }
    | inr (e, under) ↦
        rw (e, build_elem)
          (record {
            payload = omega arith;
            written = rw (length-++ (c ∷ s) (0 ∷ [])) (omega arith);
            sent = rw (length-++ (c ∷ s) (0 ∷ [])) (omega arith);
          })
  ]

  joined_some : (e : Text) (es : List Text) → 1 ≤ length (joined w (e ∷ es))
  unfolding joined
  joined_some e es = (let both = length-++ e (0 ∷ joined w es) in omega arith)

  -- The elements of a body that is not empty, at the length that its check was made for.
  joined-Fits :
      (e : Text) (es : List Text) (t : Bool) (hdr : Hdr)
      → length (joined w (e ∷ es)) < 2 ^ 32
      → body_length w (e ∷ es) t ≤ w.payload_max
      → Fits w
          (record { hdr = record hdr { len = body_length w (e ∷ es) t }; body = joined w (e ∷ es) })
  joined-Fits e es true hdr small fits =
      let whole : length (joined w (e ∷ es)) % 2 ^ 32 ≡ length (joined w (e ∷ es)) = omega arith in
      record { payload = fits; written = omega arith; sent = omega arith }
  joined-Fits e es false hdr small fits =
      let some_byte = joined_some e es in
      let whole : (length (joined w (e ∷ es)) % 2 ^ 32 + (2 ^ 32 - 1)) % 2 ^ 32 + 1
          ≡ length (joined w (e ∷ es)) =
        omega arith in
      record { payload = fits; written = omega arith; sent = omega arith }

  build_body-cases :
      (es : List Text) (t : Bool) (tx : Wire)
      → length (joined w es) < 2 ^ 32
      → (build_body w es t tx ≡ (false, tx))
        ⊎ ((tx' : Wire) × (build_body w es t tx ≡ (true, tx')) × Fits w tx')
  unfolding build_body
  build_body-cases [] true tx small =
      inr (_, refl, record { payload = room; written = omega arith; sent = omega arith })
  build_body-cases [] false tx small =
      inr (_, refl, record { payload = omega arith; written = omega arith; sent = omega arith })
  build_body-cases (e ∷ es) t tx small = elim (ltb-cases w.payload_max (body_length w (e ∷ es) t)) [
    | inl (over, _) ↦ inl (rw (over, build_body) refl)
    | inr (e', under) ↦ inr (
      record { hdr = record tx.hdr { len = body_length w (e ∷ es) t }; body = joined w (e ∷ es) },
      rw (e', build_body) refl,
      joined-Fits e es t tx.hdr small under,
    )
  ]

  pub lay_out-Fits :
      (msg : Message) (tx : Wire)
      → length (joined w msg.body) < 2 ^ 32
      → length (err2str w e2big) ≤ w.payload_max
      → Fits w (lay_out w msg tx)
  unfolding lay_out
  lay_out-Fits msg tx small told =
      elim (build_body-cases msg.body msg.terminator (build_hdr w msg.type msg.req_id msg.tx_id tx)
        small) [
          | inl e ↦ rw (e, lay_out) (build_elem-Fits _ _ told)
          | inr (tx', e, fits) ↦ rw (e, lay_out) fits
        ]

  -- Where the largest payload has room for one byte and for the name of `E2BIG`, whatever message is
  -- at the front of the queue, whose elements have less than 2 ^ 32 bytes with a null character behind
  -- each, is laid out in `tx_msg` within the largest payload and one null character, no byte is sent that was not written for this message,
  -- and exactly this message leaves the queue.
  pub prepare_tx-Fits :
      (msg : Message) (msgs : List Message) (p : Proto) (tx : Wire)
      → p.tx_queue ≡ msg ∷ msgs
      → length (joined w msg.body) < 2 ^ 32
      → length (err2str w e2big) ≤ w.payload_max
      → (tx' : Wire) × (prepare_tx w p tx ≡ some (record p { tx_queue = msgs }, tx')) × Fits w tx'
  unfolding prepare_tx
  prepare_tx-Fits msg msgs p tx front small told =
      (lay_out w msg tx, rw (front, prepare_tx) refl, lay_out-Fits msg tx small told)
