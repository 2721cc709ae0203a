-- ===== src/XsProto/Rx/Bounds.antt =====
-- Reading messages ends, and stays within the memory of `rx_msg`.
use mathlib.Core.Path.{subst}
use lixs.Base.{
  ℕ, zero, suc, ◌+◌, ◌*◌, ◌≤◌, ◌<◌, ◌≡◌, ◌∙◌, Option, none, some, [], ◌∷◌, ◌++◌, refl, sym, ap, ltb,
  if_kept, less, not_less, Option-cases, inl, inr, if◌then◌else◌, arith,
}
use lixs.Base.Text.{Text, length, splice, length-splice}
use lixs.XsProto.{XsWire, Proto}
use lixs.XsProto.Rx.{
  int_max, body_size, IoState, at_start, at_hdr, at_body, Rx, Given, Turn, again, stop, overflow,
  endless, sanitize_input, handled, complete, turn, process_rx,
}
use lixs.XsProto.Rx.Laws.{Source, Handler}

-- What is in flight of a message.
unfoldable pub Within : XsWire → IoState → Rx → Proto → Type 0
Within w at_start rx p = rx.off ≤ rx.off
Within w at_hdr rx p = rx.bytes ≤ w.hdr_size
Within w at_body rx p = (rx.off + rx.bytes ≡ p.rx_hdr.len) × (p.rx_hdr.len ≤ int_max)

-- The memory has its size, the domain's path leaves room for the largest payload, and what is still to
-- come of a body fits.
pub record IsRx (w : XsWire) (rx : Rx) (p : Proto) : Type 0 where
  pub memory : length p.rx_body ≡ body_size w p.dom_path
  pub path : length p.dom_path ≤ 34
  pub within : Within w rx.state rx p

module _ {S : Type 0} (w : XsWire) (read : ℕ → S → Given S)
    (handle : Proto → S → Option (Proto × S)) (most : ℕ) (avail : S → ℕ) (Good : S → Type 0)
    (src : Source most avail Good read) (hdl : Handler avail Good handle)
    (some_hdr : 1 ≤ w.hdr_size) (hdr_most : w.hdr_size ≤ most) (int_most : int_max ≤ most)
    (payload_int : w.payload_max ≤ int_max) where
  -- How many turns there may be.
  pub turns : IoState → Rx → S → ℕ
  turns at_start rx s = 3 * avail s + 3
  turns at_hdr rx s = if ltb 0 rx.bytes then 3 * avail s + 2 else 3 * avail s + 5
  turns at_body rx s = 3 * avail s + 4

  -- A turn that leaves fewer to come, or a return, without a fault.
  unfoldable pub Fine : ℕ → Turn S → Type 0
  Fine n (again rx p s) = IsRx w rx p × Good s × (turns rx.state rx s < n)
  Fine n (stop rx p s) = IsRx w rx p × Good s
  Fine n (overflow hdr) = w.payload_max < hdr.len
  Fine n (endless p s) = handle p s ≡ none

  body_size-room : (d : Text) → length d ≤ 34 → w.payload_max < body_size w d
  unfolding body_size
  body_size-room d path = omega arith

  handled-Fine :
      (n : ℕ) (rx : Rx) (p : Proto) (s : S)
      → length p.rx_body ≡ body_size w p.dom_path
      → length p.dom_path ≤ 34
      → Good s
      → 3 * avail s + 3 < n
      → Fine n (handled w read handle rx p s (handle p s))
  unfolding Fine turns Within
  handled-Fine n rx p s memory path good less = elim (Option-cases (handle p s)) [
    | inl e ↦ subst (λ r. Fine n (handled w read handle rx p s r)) (sym e) e
    | inr ((q, s'), e) ↦
        let h = hdl.handles p q s s' good e in
        subst (λ r. Fine n (handled w read handle rx p s r)) (sym e)
          (
            record {
              memory = ap length h.body ∙ memory ∙ ap (body_size w) (sym h.dom_path);
              path = subst (λ d. length d ≤ 34) (sym h.dom_path) path;
              within = omega arith;
            },
            h.good,
            (let less_left = h.avails in omega arith),
          )
  ]

  complete-Fine :
      (n : ℕ) (rx : Rx) (p : Proto) (s : S)
      → length p.rx_body ≡ body_size w p.dom_path
      → length p.dom_path ≤ 34
      → Good s
      → 3 * avail s + 3 < n
      → Fine n (complete w read handle rx p s)
  unfolding complete Fine sanitize_input
  complete-Fine n rx p s memory path good less =
      if_kept (Fine n) (ltb p.rx_hdr.len (body_size w p.dom_path)) _ _
        (λ inside.
          (let room = lixs.Base.less inside in
            let kept = length-splice p.rx_hdr.len (0 ∷ []) p.rx_body (omega arith) in
            handled-Fine n rx (sanitize_input p) s (kept ∙ memory) path good less))
        (λ over.
          (let bad = not_less over in let room = body_size-room p.dom_path path in omega arith))

  pub turn-Fine :
      (state : IoState) (rx : Rx) (p : Proto) (s : S)
      → rx.state ≡ state
      → IsRx w rx p
      → Good s
      → Fine (turns state rx s) (turn w read handle state rx p s)
  unfolding turn turns Fine Within
  turn-Fine at_start rx p s e i good = (
    record { memory = i.memory; path = i.path; within = omega arith },
    good,
    if_kept (λ n. n < 3 * avail s + 3) (ltb 0 w.hdr_size) _ _ (λ _. omega arith)
        (λ none_left. (let bad = not_less none_left in omega arith)),
  )
  turn-Fine at_hdr rx p s e i good =
      let o = read rx.bytes s in
      let few : rx.bytes ≤ w.hdr_size = subst (λ st. Within w st rx p) e i.within in
      let takes = src.takes rx.bytes s good (omega arith) in
      let counts = src.counts rx.bytes s good (omega arith) in
      let kept = src.good rx.bytes s good (omega arith) in
      if_kept (Fine (turns at_hdr rx s)) o.done _ _
        (λ done.
          (let gives = src.gives rx.bytes s good (omega arith) done in
            if_kept (Fine (turns at_hdr rx s)) (ltb int_max (w.decode_hdr (rx.hdr ++ o.chunk)).len)
              _ _ (λ over. (let bad = less over in omega arith))
              (λ fits. (
                record {
                  memory = i.memory;
                  path = i.path;
                  within = (let small = not_less fits in (omega arith, omega arith));
                },
                kept,
                if_kept (λ n. 3 * avail o.next + 4 < n) (ltb 0 rx.bytes) _ _
                    (λ positive. (let more = less positive in omega arith)) (λ _. omega arith),
              ))))
        (λ _. (
          record {
            memory = i.memory;
            path = i.path;
            within =
                subst (λ st. Within w st (record rx { hdr = rx.hdr ++ o.chunk; bytes = o.bytes }) p)
                  (sym e) (omega arith);
          },
          kept,
        ))
  turn-Fine at_body rx p s e i good =
      let o = read rx.bytes s in
      let (sum, small) = subst (λ st. Within w st rx p) e i.within in
      let takes = src.takes rx.bytes s good (omega arith) in
      let counts = src.counts rx.bytes s good (omega arith) in
      let kept = src.good rx.bytes s good (omega arith) in
      let room = body_size-room p.dom_path i.path in
      if_kept (Fine (turns at_body rx s)) (ltb (body_size w p.dom_path) (rx.off + length o.chunk)) _
        _ (λ over. (let bad = less over in omega arith))
        (λ inside.
          (let ends = not_less inside in
            let at_most : rx.off + length o.chunk ≤ length p.rx_body =
              subst (λ n. rx.off + length o.chunk ≤ n) (sym i.memory) ends in
            let spliced = length-splice rx.off o.chunk p.rx_body at_most ∙ i.memory in
            if_kept (Fine (turns at_body rx s)) o.done _ _
              (λ done.
                complete-Fine (turns at_body rx s) _ _ o.next spliced i.path kept (omega arith))
              (λ _. (
                record {
                  memory = spliced;
                  path = i.path;
                  within =
                      subst
                        (λ st.
                          Within w st (record rx { off = rx.off + length o.chunk; bytes = o.bytes })
                            (record p { rx_body = splice rx.off o.chunk p.rx_body }))
                        (sym e) (omega arith, small);
                },
                kept,
              ))))

  -- How a call of the loop may end.
  unfoldable pub Ended : Turn S → Type 0
  Ended (again rx p s) = 1 ≤ 0
  Ended (stop rx p s) = IsRx w rx p × Good s
  Ended (overflow hdr) = w.payload_max < hdr.len
  Ended (endless p s) = handle p s ≡ none

  abbrev Returns : Option (Turn S) → Type 0
  Returns r = (t : Turn S) × (r ≡ some t) × Ended t

  -- What a turn leads to, given what the rest of the loop does.
  turn-Returns :
      (n : ℕ) (rx : Rx) (p : Proto) (s : S) (t : Turn S)
      → turn w read handle rx.state rx p s ≡ t
      → Fine n t
      → ((rx' : Rx) (p' : Proto) (s' : S)
          → IsRx w rx' p'
          → Good s'
          → turns rx'.state rx' s' < n
          → Returns (process_rx w read handle n rx' p' s'))
      → Returns (process_rx w read handle (suc n) rx p s)
  unfolding process_rx Fine Ended
  turn-Returns n rx p s (again rx' p' s') e (i, good, less_left) rest =
      let (t, returns, ended) = rest rx' p' s' i good less_left in
      (t, rw (e, process_rx) returns, ended)
  turn-Returns n rx p s (stop rx' p' s') e fine rest =
      (stop rx' p' s', rw (e, process_rx) refl, fine)
  turn-Returns n rx p s (overflow hdr) e fine rest = (overflow hdr, rw (e, process_rx) refl, fine)
  turn-Returns n rx p s (endless p' s') e fine rest = (endless p' s', rw (e, process_rx) refl, fine)

  pub Fine-weaken : (m n : ℕ) (t : Turn S) → m ≤ n → Fine m t → Fine n t
  unfolding Fine
  Fine-weaken m n (again rx p s) le (i, good, fewer) = (i, good, omega arith)
  Fine-weaken m n (stop rx p s) le fine = fine
  Fine-weaken m n (overflow hdr) le fine = fine
  Fine-weaken m n (endless p s) le fine = fine

  process_rx-Returns :
      (n : ℕ) (rx : Rx) (p : Proto) (s : S)
      → IsRx w rx p
      → Good s
      → turns rx.state rx s < n
      → Returns (process_rx w read handle n rx p s)
  process_rx-Returns zero rx p s i good enough = absurd (omega arith)
  process_rx-Returns (suc n) rx p s i good enough =
      turn-Returns n rx p s (turn w read handle rx.state rx p s) refl
        (Fine-weaken (turns rx.state rx s) n _ (omega arith)
          (turn-Fine rx.state rx p s refl i good))
        (λ rx' p' s' i' good' enough'. process_rx-Returns n rx' p' s' i' good' enough')

  pub turns_most : (state : IoState) (rx : Rx) (s : S) → turns state rx s < 3 * avail s + 6
  unfolding turns
  turns_most at_start rx s = omega arith
  turns_most at_hdr rx s =
      if_kept (λ n. n < 3 * avail s + 6) (ltb 0 rx.bytes) _ _ (λ _. omega arith) (λ _. omega arith)
  turns_most at_body rx s = omega arith

  -- Over a connection that counts what it gives, for requests as long as the header, which is not
  -- empty, and up to `INT_MAX`, where the path of the domain has at most 34 bytes, and messages
  -- that are handled to their end are only read: the loop comes to an end after at most three turns for
  -- each byte that has arrived and six more. Either it returns, without a write outside of the memory of
  -- the message, and leaves a state from which the same holds of the next call; or the handling of a
  -- message does not come back; or it writes outside of that memory or reads a length that is no `int`,
  -- and the header at hand announces more than the largest payload.
  pub process_rx-IsRx :
      (n : ℕ) (rx : Rx) (p : Proto) (s : S)
      → IsRx w rx p
      → Good s
      → 3 * avail s + 6 ≤ n
      → (t : Turn S) × (process_rx w read handle n rx p s ≡ some t) × Ended t
  process_rx-IsRx n rx p s i good enough =
      let most = turns_most rx.state rx s in process_rx-Returns n rx p s i good (omega arith)
