-- ===== src/XsProto/Tx/Order.antt =====
-- Sending messages ends, and the bytes of the messages go out in the order of the queue.
use mathlib.Core.Path.{subst}
use mathlib.Core.List.{append_assoc}
use lixs.Base.{
  ℕ, zero, suc, ◌+◌, ◌*◌, ◌≤◌, ◌<◌, ◌≡◌, ◌∙◌, true, some, none, Option, List, [], ◌∷◌, ◌++◌, refl,
  sym, ap, if_kept, arith,
}
use lixs.Base.Memory.{take_split, take_past}
use lixs.Base.Text.{Text, length, drop, take}
use lixs.Errno.{e2big}
use lixs.XsProto.{XsWire, Hdr, Proto, Message}
use lixs.XsProto.Perms.{err2str}
use lixs.XsProto.Body.{lay_out, prepare_tx}
use lixs.XsProto.Sizes.{lay_out-Fits}
use lixs.XsProto.Rx.{IoState, at_start, at_hdr, at_body}
use lixs.XsProto.Tx.{Tx, Sent, Turn, again, stop, started, moved, turn, process_tx}
use lixs.XsProto.Tx.Laws.{Sends, Sink, Ready, Small}
use lixs.XsProto.Tx.Owed.{payload, bytes_of, frame, frames, unsent, owed, lay_out_any}

-- What is left of the buffer behind a call.
left_over :
    {S : Type 0} {Good : S → Type 0} {out : S → Text} {buff : Text} {n : ℕ} {s : S} {o : Sent S}
    → Sends Good out buff n s o
    → n ≤ length buff
    → o.bytes ≤ length (drop (length o.chunk) buff)
left_over {buff = buff} {o = o} f given =
    let count = f.count in let past = take_past (length o.chunk) buff (omega arith) in omega arith

-- A call moves bytes from what is owed to what is written.
wrote :
    {S : Type 0} {Good : S → Type 0} {out : S → Text} {buff : Text} {n : ℕ} {s : S} {o : Sent S}
    (rest : Text)
    → Sends Good out buff n s o
    → out o.next ++ (take o.bytes (drop (length o.chunk) buff) ++ rest)
      ≡ out s ++ (take n buff ++ rest)
wrote {out = out} {buff = buff} {n = n} {s = s} {o = o} rest f =
    let left = take o.bytes (drop (length o.chunk) buff) in
    let split = take_split (length o.chunk) o.bytes buff in
    let whole = ap (λ k. take k buff) f.count in
    let puts = f.puts in
    let front = f.front in
    let a = append_assoc (out s) o.chunk (left ++ rest) in
    let b = append_assoc o.chunk left rest in cc

wrote_all :
    {S : Type 0} {Good : S → Type 0} {out : S → Text} {buff : Text} {n : ℕ} {s : S} {o : Sent S}
    (rest : Text)
    → Sends Good out buff n s o
    → o.done ≡ true
    → out o.next ++ rest ≡ out s ++ (take n buff ++ rest)
unfolding take
wrote_all {out = out} {buff = buff} {o = o} rest f done =
    ap (λ k. out o.next ++ (take k (drop (length o.chunk) buff) ++ rest)) (sym (f.ends done))
    ∙ wrote rest f

module _ {S : Type 0} (w : XsWire) (write : Text → ℕ → S → Sent S) (most : ℕ) (Good : S → Type 0)
    (out : S → Text) (sink : Sink most Good out write) (some_room : 1 ≤ w.payload_max)
    (told : length (err2str w e2big) ≤ w.payload_max) (hdr_most : w.hdr_size ≤ most)
    (payload_most : w.payload_max ≤ most)
    (whole_hdr : (h : Hdr) → w.hdr_size ≤ length (w.encode_hdr h)) where
  -- All that has been written and is owed.
  line : Tx → Proto → S → Text
  line tx p s = out s ++ owed w tx p

  turns : IoState → Proto → ℕ
  turns at_start p = 3 * length p.tx_queue + 1
  turns at_hdr p = 3 * length p.tx_queue + 3
  turns at_body p = 3 * length p.tx_queue + 2

  -- From which state the loop can go on.
  record CanSend (tx : Tx) (p : Proto) (s : S) : Type 0 where
    pub ready : Ready most tx.state tx
    pub small : Small w p.tx_queue
    pub good : Good s

  Kept : ℕ → Text → Turn S → Type 0
  Kept n t (again tx p s) = (line tx p s ≡ t) × (turns tx.state p < n) × CanSend tx p s
  Kept n t (stop tx p s) = (line tx p s ≡ t) × CanSend tx p s

  start-Kept :
      (q : List Message) (tx : Tx) (p : Proto) (s : S)
      → p.tx_queue ≡ q
      → tx.state ≡ at_start
      → CanSend tx p s
      → Kept (turns at_start p) (out s ++ frames w p.tx_queue) (turn w write at_start tx p s)
  unfolding turn Kept turns line owed unsent frames frame bytes_of prepare_tx Ready Small
  start-Kept [] tx p s e st can =
      let empty : prepare_tx w p tx.wire ≡ none = rw (e, prepare_tx) refl in
      subst (λ r. Kept (turns at_start p) (out s ++ frames w p.tx_queue) (started w write tx p s r))
        (sym empty) (ap (λ state. out s ++ (unsent w state tx ++ frames w p.tx_queue)) st, can)
  start-Kept (msg ∷ msgs) tx p s e st can =
      let first : prepare_tx w p tx.wire
          ≡ some (record p { tx_queue = msgs }, lay_out w msg tx.wire) =
        rw (e, prepare_tx) refl in
      let shorter = ap length e in
      let same = lay_out_any w msg tx.wire _ told in
      let (small, later) : Small w (msg ∷ msgs) = subst (Small w) e can.small in
      let fits = lay_out-Fits w some_room msg tx.wire small told in
      let payload_fits = fits.payload in
      subst (λ r. Kept (turns at_start p) (out s ++ frames w p.tx_queue) (started w write tx p s r))
        (sym first)
        (
          ap (λ m. out s ++ (bytes_of w m ++ frames w msgs)) same
              ∙ sym (ap (λ q. out s ++ frames w q) e),
          omega arith,
          record {
            ready = (hdr_most, whole_hdr (lay_out w msg tx.wire).hdr, omega arith, fits.sent);
            small = later;
            good = can.good;
          },
        )

  turn-Kept :
      (state : IoState) (tx : Tx) (p : Proto) (s : S)
      → tx.state ≡ state
      → CanSend tx p s
      → Kept
          (turns state p)
          (out s ++ (unsent w state tx ++ frames w p.tx_queue))
          (turn w write state tx p s)
  unfolding turn Kept turns line owed unsent payload Ready
  turn-Kept at_start tx p s e can = start-Kept p.tx_queue tx p s refl e can
  turn-Kept at_hdr tx p s e can =
      let o = write tx.buff tx.bytes s in
      let (few, held, body_few, body_held) = subst (λ st. Ready most st tx) e can.ready in
      let f = sink.sends tx.buff tx.bytes s can.good few held in
      let count = f.count in
      if_kept (Kept (turns at_hdr p) (out s ++ (unsent w at_hdr tx ++ frames w p.tx_queue))) o.done
        _ _
        (λ done. (
          wrote_all (payload w tx.wire ++ frames w p.tx_queue) f done
              ∙ ap (λ t. out s ++ t)
                  (sym (
                    append_assoc (take tx.bytes tx.buff) (payload w tx.wire)
                      (frames w p.tx_queue))),
          omega arith,
          record { ready = (body_few, body_held); small = can.small; good = f.good },
        ))
        (λ _. (
          ap (λ st. out o.next ++ (unsent w st (moved w write tx o) ++ frames w p.tx_queue)) e
              ∙ ap (λ t. out o.next ++ t)
                  (append_assoc (take o.bytes (drop (length o.chunk) tx.buff)) (payload w tx.wire)
                    (frames w p.tx_queue))
              ∙ wrote (payload w tx.wire ++ frames w p.tx_queue) f
              ∙ ap (λ t. out s ++ t)
                  (sym (
                    append_assoc (take tx.bytes tx.buff) (payload w tx.wire)
                      (frames w p.tx_queue))),
          record {
            ready =
                subst (λ st. Ready most st (moved w write tx o)) (sym e)
                  (omega arith, left_over f held, body_few, body_held);
            small = can.small;
            good = f.good;
          },
        ))
  turn-Kept at_body tx p s e can =
      let o = write tx.buff tx.bytes s in
      let (few, held) = subst (λ st. Ready most st tx) e can.ready in
      let f = sink.sends tx.buff tx.bytes s can.good few held in
      let count = f.count in
      if_kept (Kept (turns at_body p) (out s ++ (unsent w at_body tx ++ frames w p.tx_queue)))
        o.done _ _
        (λ done. (
          wrote_all (frames w p.tx_queue) f done,
          omega arith,
          record { ready = omega arith; small = can.small; good = f.good },
        ))
        (λ _. (
          ap (λ st. out o.next ++ (unsent w st (moved w write tx o) ++ frames w p.tx_queue)) e
              ∙ wrote (frames w p.tx_queue) f,
          record {
            ready =
                subst (λ st. Ready most st (moved w write tx o)) (sym e)
                  (omega arith, left_over f held);
            small = can.small;
            good = f.good;
          },
        ))

  abbrev Returns : Text → Option (Tx × Proto × S) → Type 0
  Returns t r =
      (tx' : Tx) × (p' : Proto) × (s' : S) × (r ≡ some (tx', p', s'))
      × (line tx' p' s' ≡ t)
      × CanSend tx' p' s'

  turn-Returns :
      (n : ℕ) (tx : Tx) (p : Proto) (s : S) (r : Turn S)
      → turn w write tx.state tx p s ≡ r
      → Kept n (line tx p s) r
      → ((tx' : Tx) (p' : Proto) (s' : S)
          → CanSend tx' p' s'
          → turns tx'.state p' < n
          → Returns (line tx' p' s') (process_tx w write n tx' p' s'))
      → Returns (line tx p s) (process_tx w write (suc n) tx p s)
  unfolding process_tx Kept
  turn-Returns n tx p s (again tx' p' s') e (same, fewer, can) rest =
      let (tx'', p'', s'', returns, kept, can') = rest tx' p' s' can fewer in
      (tx'', p'', s'', rw (e, process_tx) returns, kept ∙ same, can')
  turn-Returns n tx p s (stop tx' p' s') e (same, can) rest =
      (tx', p', s', rw (e, process_tx) refl, same, can)

  Kept-weaken : (m n : ℕ) (t : Text) (r : Turn S) → m ≤ n → Kept m t r → Kept n t r
  unfolding Kept
  Kept-weaken m n t (again tx p s) le (same, fewer, can) = (same, omega arith, can)
  Kept-weaken m n t (stop tx p s) le same = same

  process_tx-Returns :
      (n : ℕ) (tx : Tx) (p : Proto) (s : S)
      → CanSend tx p s
      → turns tx.state p < n
      → Returns (line tx p s) (process_tx w write n tx p s)
  unfolding line owed
  process_tx-Returns zero tx p s can enough = absurd (omega arith)
  process_tx-Returns (suc n) tx p s can enough =
      turn-Returns n tx p s (turn w write tx.state tx p s) refl
        (Kept-weaken (turns tx.state p) n (line tx p s) _ (omega arith)
          (turn-Kept tx.state tx p s refl can))
        (λ tx' p' s' can' enough'. process_tx-Returns n tx' p' s' can' enough')

  turns_most : (state : IoState) (p : Proto) → turns state p < 3 * length p.tx_queue + 4
  unfolding turns
  turns_most at_start p = omega arith
  turns_most at_hdr p = omega arith
  turns_most at_body p = omega arith

  -- Over a connection that writes, of at most `most` bytes that its buffer holds, a part from the front
  -- and counts it, where a header and the largest payload are no longer than that, the largest
  -- payload has room for one byte and for the name of `E2BIG`, headers are encoded in at least their
  -- size, the messages have less than 2 ^ 32 bytes, and the buffer in flight holds what is to be
  -- sent of it: the loop returns after at most three turns for each message of the queue and four
  -- more; what has been written by then, with what is still owed of the message that was started and
  -- of the queue in its order, is what was written and owed before: no byte is lost, sent twice or
  -- out of order. The same can be said of the next call.
  pub owed-process_tx :
      (n : ℕ) (tx : Tx) (p : Proto) (s : S)
      → Ready most tx.state tx
      → Small w p.tx_queue
      → Good s
      → 3 * length p.tx_queue + 4 ≤ n
      → (tx' : Tx) × (p' : Proto) × (s' : S) × (process_tx w write n tx p s ≡ some (tx', p', s'))
        × (out s' ++ owed w tx' p' ≡ out s ++ owed w tx p)
        × Ready most tx'.state tx'
        × Small w p'.tx_queue
        × Good s'
  unfolding line
  owed-process_tx n tx p s ready small good enough =
      let most = turns_most tx.state p in
      let can : CanSend tx p s = record { ready = ready; small = small; good = good } in
      let (tx', p', s', returns, kept, can') = process_tx-Returns n tx p s can (omega arith) in
      (tx', p', s', returns, kept, can'.ready, can'.small, can'.good)
