-- ===== src/XsProto/Rx/Delivered.antt =====
-- The messages that are handled are those that the bytes of the connection frame.
use mathlib.Core.Path.{subst}
use mathlib.Core.List.{append_assoc, append-nil}
use lixs.Base.{
  ℕ, zero, suc, ◌+◌, ◌*◌, ◌≤◌, ◌≡◌, ◌∙◌, Option, none, some, List, [], ◌∷◌, ◌++◌, refl, sym, ap,
  ltb, if_kept, less, not_less, ◌<◌, Option-cases, inl, inr, arith,
}
use lixs.Base.Memory.{take-splice, take_before-splice}
use lixs.Base.Text.{Text, length, length-++, length-take, length-splice, splice, take}
use lixs.XsProto.{XsWire, Hdr, Proto}
use lixs.XsProto.Rx.{
  int_max, body_size, IoState, at_start, at_hdr, at_body, Rx, Given, Turn, again, stop, overflow,
  endless, sanitize_input, handled, complete, turn, process_rx,
}
use lixs.XsProto.Rx.Laws.{Source, Handler}
use lixs.XsProto.Rx.Bounds.{Within, IsRx, turns, Fine, turn-Fine, Ended, process_rx-IsRx}
use lixs.XsProto.Rx.Frames.{Frames, one_more, parse, parse-Frames}
use lixs.XsProto.Rx.Tape.{Records, partial, Begun, Delivered}

module _ {S : Type 0} (w : XsWire) (read : ℕ → S → Given S)
    (handle : Proto → S → Option (Proto × S)) (most : ℕ) (avail : S → ℕ) (Good : S → Type 0)
    (src : Source most avail Good read) (hdl : Handler avail Good handle)
    (some_hdr : 1 ≤ w.hdr_size) (hdr_most : w.hdr_size ≤ most) (int_most : int_max ≤ most)
    (payload_int : w.payload_max ≤ int_max) (taken : S → Text) (log : S → List (Hdr × Text))
    (rec : Records taken log read handle) where
  -- The message is framed, or the loop has not come to its end.
  Told : Turn S → Type 0
  Told (again rx p s) = Delivered w rx p (taken s) (log s)
  Told (stop rx p s) = Delivered w rx p (taken s) (log s)
  Told (overflow hdr) = 0 ≤ 0
  Told (endless p s) = 0 ≤ 0

  handled-Told :
      (rx : Rx) (p : Proto) (s : S) (bytes body : Text)
      → Frames w bytes (log s)
      → taken s ≡ bytes ++ (rx.hdr ++ body)
      → length rx.hdr ≡ w.hdr_size
      → w.decode_hdr rx.hdr ≡ p.rx_hdr
      → length body ≡ p.rx_hdr.len
      → take p.rx_hdr.len p.rx_body ≡ body
      → Told (handled w read handle rx p s (handle p s))
  unfolding Told Begun partial
  handled-Told rx p s bytes body frames all whole decoded full here =
      elim (Option-cases (handle p s)) [
        | inl e ↦ subst (λ r. Told (handled w read handle rx p s r)) (sym e) (omega arith)
        | inr ((q, s'), e) ↦
            subst (λ r. Told (handled w read handle rx p s r)) (sym e)
              (record {
                bytes = bytes ++ (rx.hdr ++ body);
                frames =
                    subst (Frames w (bytes ++ (rx.hdr ++ body)))
                      (ap (λ d. log s ++ (d, body) ∷ []) decoded
                        ∙ ap (λ b. log s ++ (p.rx_hdr, b) ∷ []) (sym here)
                        ∙ sym (rec.handles p q s s' e))
                      (one_more rx.hdr body frames whole
                        (full ∙ sym (ap (λ (h : Hdr). h.len) decoded)));
                all =
                    rec.takes_none p q s s' e ∙ all ∙ sym (append-nil (bytes ++ (rx.hdr ++ body)));
                begun = omega arith;
              })
      ]

  complete-Told :
      (rx : Rx) (p : Proto) (s : S) (bytes : Text)
      → length p.rx_body ≡ body_size w p.dom_path
      → Frames w bytes (log s)
      → taken s ≡ bytes ++ (rx.hdr ++ take p.rx_hdr.len p.rx_body)
      → length rx.hdr ≡ w.hdr_size
      → w.decode_hdr rx.hdr ≡ p.rx_hdr
      → Told (complete w read handle rx p s)
  unfolding complete sanitize_input Told
  complete-Told rx p s bytes memory frames all whole decoded =
      if_kept Told (ltb p.rx_hdr.len (body_size w p.dom_path)) _ _
        (λ room.
          (let fits = less room in
            handled-Told rx (sanitize_input p) s bytes (take p.rx_hdr.len p.rx_body) frames all
              whole decoded (length-take p.rx_hdr.len p.rx_body (omega arith))
              (take_before-splice p.rx_hdr.len (0 ∷ []) p.rx_body (omega arith))))
        (λ over. omega arith)

  turn-Told :
      (state : IoState) (rx : Rx) (p : Proto) (s : S)
      → rx.state ≡ state
      → IsRx w rx p
      → Good s
      → Delivered w rx p (taken s) (log s)
      → Told (turn w read handle state rx p s)
  unfolding turn Told Within Begun partial take
  turn-Told at_start rx p s e i good d = record {
    bytes = d.bytes;
    frames = d.frames;
    all = subst (λ st. taken s ≡ d.bytes ++ partial st rx p) e d.all;
    begun = omega arith;
  }
  turn-Told at_hdr rx p s e i good d =
      let o = read rx.bytes s in
      let few : rx.bytes ≤ w.hdr_size = subst (λ st. Within w st rx p) e i.within in
      let begun : length rx.hdr + rx.bytes ≡ w.hdr_size = subst (λ st. Begun w st rx p) e d.begun in
      let counts = src.counts rx.bytes s good (omega arith) in
      let more : taken o.next ≡ d.bytes ++ (rx.hdr ++ o.chunk) =
        rec.gives rx.bytes s
        ∙ ap (λ t. t ++ o.chunk) (subst (λ st. taken s ≡ d.bytes ++ partial st rx p) e d.all)
        ∙ append_assoc d.bytes rx.hdr o.chunk in
      let frames = subst (Frames w d.bytes) (sym (rec.handles_none rx.bytes s)) d.frames in
      let both = length-++ rx.hdr o.chunk in
      if_kept Told o.done _ _
        (λ done.
          (let given = src.gives rx.bytes s good (omega arith) done in
            if_kept Told (ltb int_max (w.decode_hdr (rx.hdr ++ o.chunk)).len) _ _
              (λ over. omega arith)
              (λ fits. record {
                bytes = d.bytes;
                frames = frames;
                all = more ∙ ap (λ t. d.bytes ++ t) (sym (append-nil (rx.hdr ++ o.chunk)));
                begun = (omega arith, refl);
              })))
        (λ _. record {
          bytes = d.bytes;
          frames = frames;
          all =
              subst
                (λ st.
                  taken o.next
                  ≡ d.bytes
                    ++ partial st (record rx { hdr = rx.hdr ++ o.chunk; bytes = o.bytes }) p)
                (sym e) more;
          begun =
              subst (λ st. Begun w st (record rx { hdr = rx.hdr ++ o.chunk; bytes = o.bytes }) p)
                (sym e) (omega arith);
        })
  turn-Told at_body rx p s e i good d =
      let o = read rx.bytes s in
      let (sum, small) = subst (λ st. Within w st rx p) e i.within in
      let (whole, decoded) = subst (λ st. Begun w st rx p) e d.begun in
      let counts = src.counts rx.bytes s good (omega arith) in
      let kept = src.good rx.bytes s good (omega arith) in
      let frames = subst (Frames w d.bytes) (sym (rec.handles_none rx.bytes s)) d.frames in
      let body = splice rx.off o.chunk p.rx_body in
      if_kept Told (ltb (body_size w p.dom_path) (rx.off + length o.chunk)) _ _
        (λ over. omega arith)
        (λ inside.
          (let room : rx.off + length o.chunk ≤ length p.rx_body =
              subst (λ n. rx.off + length o.chunk ≤ n) (sym i.memory) (not_less inside) in
            let more : taken o.next ≡ d.bytes ++ (rx.hdr ++ take (rx.off + length o.chunk) body) =
              rec.gives rx.bytes s
              ∙ ap (λ t. t ++ o.chunk) (subst (λ st. taken s ≡ d.bytes ++ partial st rx p) e d.all)
              ∙ append_assoc d.bytes (rx.hdr ++ take rx.off p.rx_body) o.chunk
              ∙ ap (λ t. d.bytes ++ t)
                  (append_assoc rx.hdr (take rx.off p.rx_body) o.chunk
                    ∙ ap (λ t. rx.hdr ++ t) (sym (take-splice rx.off o.chunk p.rx_body room))) in
            let rx' : Rx = record rx { off = rx.off + length o.chunk; bytes = o.bytes } in
            let p' : Proto = record p { rx_body = body } in
            if_kept Told o.done _ _
              (λ done.
                (let given = src.gives rx.bytes s good (omega arith) done in
                  complete-Told rx' p' o.next d.bytes
                    (length-splice rx.off o.chunk p.rx_body room ∙ i.memory) frames
                    (more
                      ∙ ap (λ n. d.bytes ++ (rx.hdr ++ take n body))
                          (ap (λ n. rx.off + n) given ∙ sum))
                    whole decoded))
              (λ _. record {
                bytes = d.bytes;
                frames = frames;
                all = subst (λ st. taken o.next ≡ d.bytes ++ partial st rx' p') (sym e) more;
                begun = subst (λ st. Begun w st rx' p') (sym e) (whole, decoded);
              })))

  -- A call of the loop.
  Result : Option (Turn S) → Type 0
  Result none = 0 ≤ 0
  Result (some t) = Told t

  turn-Result :
      (n m : ℕ) (rx : Rx) (p : Proto) (s : S) (t : Turn S)
      → turn w read handle rx.state rx p s ≡ t
      → Fine w read handle most avail Good src hdl some_hdr hdr_most int_most payload_int m t
      → Told t
      → ((rx' : Rx) (p' : Proto) (s' : S)
          → IsRx w rx' p'
          → Good s'
          → Told (again rx' p' s')
          → Result (process_rx w read handle n rx' p' s'))
      → Result (process_rx w read handle (suc n) rx p s)
  unfolding process_rx Fine Result Told
  turn-Result n m rx p s (again rx' p' s') e (i, good, fewer) told rest =
      rw (e, process_rx) (rest rx' p' s' i good told)
  turn-Result n m rx p s (stop rx' p' s') e fine told rest = rw (e, process_rx) told
  turn-Result n m rx p s (overflow hdr) e fine told rest = rw (e, process_rx) told
  turn-Result n m rx p s (endless p' s') e fine told rest = rw (e, process_rx) told

  process_rx-Result :
      (n : ℕ) (rx : Rx) (p : Proto) (s : S)
      → IsRx w rx p
      → Good s
      → Delivered w rx p (taken s) (log s)
      → Result (process_rx w read handle n rx p s)
  unfolding Result Told process_rx
  process_rx-Result zero rx p s i good d = omega arith
  process_rx-Result (suc n) rx p s i good d =
      turn-Result n
        (turns w read handle most avail Good src hdl some_hdr hdr_most int_most payload_int rx.state
          rx s)
        rx p s (turn w read handle rx.state rx p s) refl
        (turn-Fine w read handle most avail Good src hdl some_hdr hdr_most int_most payload_int
          rx.state rx p s refl i good)
        (turn-Told rx.state rx p s refl i good d)
        (λ rx' p' s' i' good' d'. process_rx-Result n rx' p' s' i' good' d')

  -- How a call may end: the bytes that were taken are framed, and `parse` finds what was handled in
  -- them, or the call has not come back, or has met with a header that announces too much.
  unfoldable pub Parsed : ℕ → Turn S → Type 0
  Parsed m (again rx p s) = 1 ≤ 0
  Parsed m (stop rx p s) =
      Delivered w rx p (taken s) (log s)
      × (parse w (length (log s) + m) (taken s) ≡ log s ++ parse w m (partial rx.state rx p))
  Parsed m (overflow hdr) = w.payload_max < hdr.len
  Parsed m (endless p s) = handle p s ≡ none

  parsed :
      (m : ℕ) (t : Turn S)
      → Ended w read handle most avail Good src hdl some_hdr hdr_most int_most payload_int t
      → Told t
      → Parsed m t
  unfolding Ended Told Parsed
  parsed m (again rx p s) e d = e
  parsed m (stop rx p s) e d = (
    d,
    ap (parse w (length (log s) + m)) d.all ∙ parse-Frames w d.frames m (partial rx.state rx p),
  )
  parsed m (overflow hdr) e d = e
  parsed m (endless p s) e d = e

  -- Over a connection and a handling of messages as for `process_rx-IsRx`, which record the bytes that
  -- were given and the messages that were handled, under its conditions: where the bytes so far are those
  -- of the messages so far and of what has come of the next one, the loop comes to an end. Where it
  -- returns, the same holds again, and `parse`, which reads all the bytes at once, finds the messages
  -- that were handled, in their order, before it goes on with what has come of the next one: which
  -- messages are handled does not depend on the pieces in which the bytes arrive. Otherwise the handling
  -- of a message does not come back, or the header at hand announces more than the largest payload.
  pub process_rx-Delivered :
      (n m : ℕ) (rx : Rx) (p : Proto) (s : S)
      → IsRx w rx p
      → Good s
      → Delivered w rx p (taken s) (log s)
      → 3 * avail s + 6 ≤ n
      → (t : Turn S) × (process_rx w read handle n rx p s ≡ some t) × Parsed m t
  unfolding Result Told
  process_rx-Delivered n m rx p s i good d enough =
      let (t, returns, ended) =
        process_rx-IsRx w read handle most avail Good src hdl some_hdr hdr_most int_most payload_int
          n rx p s i good enough in
      (t, returns, parsed m t ended (subst Result returns (process_rx-Result n rx p s i good d)))
