-- ===== src/XsProto/Tx/Owed.antt =====
-- What is owed to a connection: the bytes of the message in flight and of those of the queue.
use lixs.Base.{
  ◌≤◌, ◌≡◌, ◌∙◌, ◌⊎◌, Bool, false, List, [], ◌∷◌, ◌++◌, refl, sym, ap, inl, inr, ltb-cases, arith,
}
use lixs.Base.Text.{Text, length, take}
use lixs.Errno.{e2big}
use lixs.XsProto.{XsWire, Hdr, Proto, Message}
use lixs.XsProto.Perms.{err2str}
use lixs.XsProto.Body.{Wire, build_hdr, build_elem, build_body, body_length, too_big, lay_out}
use lixs.XsProto.Rx.{IoState, at_start, at_hdr, at_body}
use lixs.XsProto.Tx.{Tx}

module _ (w : XsWire) where
  unfoldable pub payload : Wire → Text
  payload tx = take tx.hdr.len tx.body

  unfoldable pub bytes_of : Wire → Text
  bytes_of tx = take w.hdr_size (w.encode_hdr tx.hdr) ++ payload tx

  -- The bytes of a message on the wire, laid out in a memory that holds nothing.
  unfoldable pub frame : Message → Text
  frame msg = bytes_of (
      lay_out w msg
        (record { hdr = record { type = 0; req_id = 0; tx_id = 0; len = 0 }; body = [] }))

  unfoldable pub frames : List Message → Text
  frames [] = []
  frames (msg ∷ msgs) = frame msg ++ frames msgs

  -- What is still to be sent of a message that was started.
  unfoldable pub unsent : IoState → Tx → Text
  unsent at_start tx = []
  unsent at_hdr tx = take tx.bytes tx.buff ++ payload tx.wire
  unsent at_body tx = take tx.bytes tx.buff

  unfoldable pub owed : Tx → Proto → Text
  owed tx p = unsent tx.state tx ++ frames p.tx_queue

  -- The memory before a message leaves no trace in it.
  build_elem_any :
      (e : Text) (h : Hdr) (b b' : Text)
      → length e ≤ w.payload_max
      → build_elem w e false (record { hdr = h; body = b })
        ≡ build_elem w e false (record { hdr = h; body = b' })
  unfolding build_elem
  build_elem_any [] h b b' fits = refl
  build_elem_any (c ∷ s) h b b' fits = elim (ltb-cases w.payload_max (length (c ∷ s))) [
    | inl (e, over) ↦ absurd (omega arith)
    | inr (e, under) ↦ rw (e, build_elem) refl
  ]

  build_body_any :
      (es : List Text) (t : Bool) (h : Hdr) (b b' : Text)
      → ((build_body w es t (record { hdr = h; body = b }) ≡ (false, record { hdr = h; body = b }))
          × (build_body w es t (record { hdr = h; body = b' })
              ≡ (false, record { hdr = h; body = b' })))
        ⊎ (build_body w es t (record { hdr = h; body = b })
            ≡ build_body w es t (record { hdr = h; body = b' }))
  unfolding build_body
  build_body_any [] t h b b' = inr refl
  build_body_any (e ∷ es) t h b b' = elim (ltb-cases w.payload_max (body_length w (e ∷ es) t)) [
    | inl (over, _) ↦ inl (rw (over, build_body) refl, rw (over, build_body) refl)
    | inr (under, _) ↦ inr (rw (under, build_body) refl)
  ]

  pub lay_out_any :
      (msg : Message) (tx tx' : Wire)
      → length (err2str w e2big) ≤ w.payload_max
      → lay_out w msg tx ≡ lay_out w msg tx'
  unfolding lay_out build_hdr
  lay_out_any msg tx tx' told =
      let start = build_hdr w msg.type msg.req_id msg.tx_id tx in
      elim (build_body_any msg.body msg.terminator start.hdr tx.body tx'.body) [
        | inl (e, e') ↦
            ap (too_big w msg) e
            ∙ ap (λ (r : Bool × Wire). r.1)
                (build_elem_any (err2str w e2big) _ tx.body tx'.body told)
            ∙ sym (ap (too_big w msg) e')
        | inr e ↦ ap (too_big w msg) e
      ]
