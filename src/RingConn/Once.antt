-- ===== src/RingConn/Once.antt =====
-- Whatever is called on a connection over rings, it is said to be dead at most once.
use lixs.Base.{
  if_kept, not-not, ℕ, ◌≡◌, ◌∙◌, Bool, true, false, not, ◌&&◌, some, List, [], ◌∷◌, refl, ◌==◌,
  Bool-cases, inl, inr, if◌then◌else◌, arith,
}
use lixs.Base.Text.{Text}
use lixs.Conn.{Link}
use lixs.Conn.Once.{IsOnce, set_read-IsOnce, set_write-IsOnce, die-IsOnce}
use lixs.RingConn.{
  XsRing, Interface, RingConn, positive, want_read, want_write, notified, read_chunks, write_chunks,
  read, write, need_rx, need_tx, called, callback, Outcome,
}

want_read-IsOnce : (bytes : ℕ) (c : Link) → IsOnce c → IsOnce (want_read bytes c)
unfolding want_read
want_read-IsOnce bytes c once = elim (Bool-cases (positive bytes && not c.ev_read)) [
  | inl e ↦ rw (e, want_read) (set_read-IsOnce true c once)
  | inr e ↦ elim (Bool-cases (bytes == 0 && c.ev_read)) [
    | inl e' ↦ rw (e, want_read) (rw (e', want_read) (set_read-IsOnce false c once))
    | inr e' ↦ rw (e, want_read) (rw (e', want_read) once)
  ]
]

want_write-IsOnce : (bytes : ℕ) (c : Link) → IsOnce c → IsOnce (want_write bytes c)
unfolding want_write
want_write-IsOnce bytes c once = elim (Bool-cases (positive bytes && not c.ev_write)) [
  | inl e ↦ rw (e, want_write) (set_write-IsOnce true c once)
  | inr e ↦ elim (Bool-cases (bytes == 0 && c.ev_write)) [
    | inl e' ↦ rw (e, want_write) (rw (e', want_write) (set_write-IsOnce false c once))
    | inr e' ↦ rw (e, want_write) (rw (e', want_write) once)
  ]
]

want_read-alive : (bytes : ℕ) (c : Link) → (want_read bytes c).alive ≡ c.alive
unfolding want_read
want_read-alive bytes c = ground arith

want_write-alive : (bytes : ℕ) (c : Link) → (want_write bytes c).alive ≡ c.alive
unfolding want_write
want_write-alive bytes c = ground arith

notified-IsOnce :
    (notify sent : Bool) (c : Link) → c.alive ≡ true → IsOnce c → IsOnce (notified notify sent c)
notified-IsOnce notify sent c live once = elim (Bool-cases (notify && not sent)) [
  | inl e ↦ rw e (die-IsOnce c live once)
  | inr e ↦ rw e once
]

read-IsOnce :
    (x : XsRing) (peer : Interface → Interface) (sent : Bool) (bytes : ℕ) (c : RingConn)
    → IsOnce c.link
    → IsOnce (read x peer sent bytes c).conn.link
unfolding read
read-IsOnce x peer sent bytes c once =
    let m = read_chunks x peer bytes c.shared in
    if_kept (λ (o : Outcome). IsOnce o.conn.link) c.link.alive _ _
      (λ live.
        notified-IsOnce m.notify sent (want_read m.bytes c.link)
          (want_read-alive m.bytes c.link ∙ live) (want_read-IsOnce m.bytes c.link once))
      (λ _. once)

write-IsOnce :
    (x : XsRing) (peer : Interface → Interface) (sent : Bool) (buff : Text) (bytes : ℕ)
    (c : RingConn)
    → IsOnce c.link
    → IsOnce (write x peer sent buff bytes c).conn.link
unfolding write
write-IsOnce x peer sent buff bytes c once =
    let m = write_chunks x peer buff bytes c.shared in
    if_kept (λ (o : Outcome). IsOnce o.conn.link) c.link.alive _ _
      (λ live.
        notified-IsOnce m.notify sent (want_write m.bytes c.link)
          (want_write-alive m.bytes c.link ∙ live) (want_write-IsOnce m.bytes c.link once))
      (λ _. once)

need_rx-IsOnce : (c : Link) → IsOnce c → IsOnce (need_rx c)
unfolding need_rx
need_rx-IsOnce c once =
    if_kept IsOnce c.alive _ c
      (λ _. if_kept IsOnce (not c.ev_read) _ c (λ _. set_read-IsOnce true c once) (λ _. once))
      (λ _. once)

need_tx-IsOnce : (c : Link) → IsOnce c → IsOnce (need_tx c)
unfolding need_tx
need_tx-IsOnce c once =
    if_kept IsOnce c.alive _ c
      (λ _. if_kept IsOnce (not c.ev_write) _ c (λ _. set_write-IsOnce true c once) (λ _. once))
      (λ _. once)

-- What the processing of a callback may call.
pub data Call : Type 0 where
  reads : (Interface → Interface) → Bool → ℕ → Call
  writes : (Interface → Interface) → Bool → Text → ℕ → Call
  needs_rx needs_tx : Call

pub run : XsRing → List Call → RingConn → RingConn
run x [] c = c
run x (reads peer sent bytes ∷ calls) c = run x calls (read x peer sent bytes c).conn
run x (writes peer sent buff bytes ∷ calls) c = run x calls (write x peer sent buff bytes c).conn
run x (needs_rx ∷ calls) c = run x calls (record c { link = need_rx c.link })
run x (needs_tx ∷ calls) c = run x calls (record c { link = need_tx c.link })

run-IsOnce :
    (x : XsRing) (calls : List Call) (c : RingConn) → IsOnce c.link → IsOnce (run x calls c).link
unfolding run
run-IsOnce x [] c once = once
run-IsOnce x (reads peer sent bytes ∷ calls) c once =
    run-IsOnce x calls _ (read-IsOnce x peer sent bytes c once)
run-IsOnce x (writes peer sent buff bytes ∷ calls) c once =
    run-IsOnce x calls _ (write-IsOnce x peer sent buff bytes c once)
run-IsOnce x (needs_rx ∷ calls) c once = run-IsOnce x calls _ (need_rx-IsOnce c.link once)
run-IsOnce x (needs_tx ∷ calls) c once = run-IsOnce x calls _ (need_tx-IsOnce c.link once)

-- An event of a connection that is alive and has not been said to be dead, or is not and has been so
-- once, keeps it so, whatever reads and writes its processing makes, whatever the domain does
-- meanwhile, and whichever calls of the event channel fail: `conn_dead` and `io.rem` are called
-- exactly once, when `alive` becomes false.
pub callback-IsOnce :
    (x : XsRing) (rx tx : List Call) (pending unmasked rd wr error : Bool) (c : RingConn)
    → IsOnce c.link
    → (c' : RingConn) × (callback (run x rx) (run x tx) pending unmasked rd wr error (some c)
        ≡ some c')
      × IsOnce c'.link
unfolding callback called
callback-IsOnce x rx tx pending unmasked rd wr error c once =
    let c1 = if rd then run x rx c else c in
    let once1 =
      if_kept (λ (d : RingConn). IsOnce d.link) rd (run x rx c) c (λ _. run-IsOnce x rx c once)
        (λ _. once) in
    let once2 =
      if_kept (λ (d : RingConn). IsOnce d.link) wr (run x tx c1) c1 (λ _. run-IsOnce x tx c1 once1)
        (λ _. once1) in
    let c2 = if wr then run x tx c1 else c1 in
    (
      _,
      refl,
      if_kept (λ (d : RingConn). IsOnce d.link) (not c.link.alive) c _ (λ _. once)
          (λ live.
            if_kept (λ (d : RingConn). IsOnce d.link) error _ _
              (λ _. die-IsOnce c.link (not-not live) once)
              (λ _.
                if_kept (λ (d : RingConn). IsOnce d.link) (not c2.link.alive) c2 _ (λ _. once2)
                  (λ live2.
                    if_kept (λ (d : RingConn). IsOnce d.link) (pending && unmasked) c2 _
                      (λ _. once2) (λ _. die-IsOnce c2.link (not-not live2) once2)))),
    )
