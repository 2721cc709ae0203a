-- ===== src/Epoll/Mirror.antt =====
-- The descriptors that the system watches are those that have a callback.
use mathlib.Core.List.{append_assoc, append-nil}
use lixs.Base.{
  ℕ, ◌≡◌, ◌∙◌, Bool, true, Option, none, some, List, [], ◌∷◌, ◌++◌, refl, sym, ap, inl, inr,
  Option-cases, ite, is_some,
}
use lixs.Base.Key.{nat_key}
use lixs.Base.Map
use lixs.Base.Map.{Map, find-put, find-erase}
use lixs.EventMgr
use lixs.EventMgr.{EventMgr}
use lixs.Epoll.{
  epoll, Ctl, ctl_add, ctl_mod, ctl_del, Epoll, Event, calls, handles, Ready, add, set, rem,
  enqueue_ready, handle, once_more,
}

-- The list of interest of `epoll_ctl`, as its manual has it: what is watched for at a descriptor.
unfoldable pub interest : List Ctl → Map ℕ (Bool × Bool)
interest [] = []
interest (ctl_add fd read write ∷ ctl) = Map.put fd (read, write) (interest ctl)
interest (ctl_mod fd read write ∷ ctl) = Map.put fd (read, write) (interest ctl)
interest (ctl_del fd ∷ ctl) = Map.erase fd (interest ctl)

unfoldable pub Mirrors : {CB : Type 0} → Epoll CB → Type 0
Mirrors e = (fd : ℕ) → is_some (Map.find fd e.callbacks) ≡ is_some (Map.find fd (interest e.ctl))

-- The calls of the connections.
pub data Call (CB : Type 0) : Type 0 where
  adds : ℕ → Bool → Bool → CB → Call CB
  sets : ℕ → Bool → Bool → Call CB
  rems : ℕ → Call CB

put_alike :
    {A B P : Type 0} (d : Dec P) (a : A) (b : B) (o : Option A) (o' : Option B)
    → is_some o ≡ is_some o'
    → is_some (ite d (some a) o) ≡ is_some (ite d (some b) o')
put_alike (yes p) a b o o' same = refl
put_alike (no p) a b o o' same = same

erase_alike :
    {A B P : Type 0} (d : Dec P) (o : Option A) (o' : Option B)
    → is_some o ≡ is_some o'
    → is_some (ite d none o) ≡ is_some (ite d none o')
erase_alike (yes p) o o' same = refl
erase_alike (no p) o o' same = same

-- What is put where something already is changes nothing of this.
over_alike :
    {A B P : Type 0} (d : Dec P) (b : B) (o : Option A) (o' : Option B)
    → (P → is_some o ≡ true)
    → is_some o ≡ is_some o'
    → is_some o ≡ is_some (ite d (some b) o')
over_alike (yes p) b o o' on same = on p
over_alike (no p) b o o' on same = same

is_some_found : {A : Type 0} (o : Option A) → is_some o ≡ true → (a : A) × (o ≡ some a)
is_some_found none e = absurd cc
is_some_found (some a) e = (a, refl)

module _ {CB : Type 0} where
  unfoldable pub run : List (Call CB) → Epoll CB → Epoll CB
  run [] e = e
  run (adds fd read write cb ∷ cs) e = run cs (add fd read write cb e)
  run (sets fd read write ∷ cs) e = run cs (set fd read write e)
  run (rems fd ∷ cs) e = run cs (rem fd e)

  add-Mirrors :
      (fd : ℕ) (read write : Bool) (cb : CB) (e : Epoll CB)
      → Mirrors e
      → Mirrors (add fd read write cb e)
  unfolding add Mirrors interest
  add-Mirrors fd read write cb e m j = elim (Option-cases (Map.find fd e.callbacks)) [
    | inl off ↦
        rw (off, add)
          (ap is_some (find-put fd j cb e.callbacks)
            ∙ put_alike (nat_key.dec fd j) cb (read, write) _ _ (m j)
            ∙ sym (ap is_some (find-put fd j (read, write) (interest e.ctl))))
    | inr (old, on) ↦ rw (on, add) (m j)
  ]

  set-Mirrors :
      (fd : ℕ) (read write : Bool) (e : Epoll CB) → Mirrors e → Mirrors (set fd read write e)
  unfolding set Mirrors interest
  set-Mirrors fd read write e m j = elim (Option-cases (Map.find fd e.callbacks)) [
    | inl off ↦ rw (off, set) (m j)
    | inr (cb, on) ↦
        rw (on, set)
          (over_alike (nat_key.dec fd j) (read, write) _ _
              (λ p. ap (λ k. is_some (Map.find k e.callbacks)) (sym p) ∙ ap is_some on) (m j)
            ∙ sym (ap is_some (find-put fd j (read, write) (interest e.ctl))))
  ]

  rem-Mirrors : (fd : ℕ) (e : Epoll CB) → Mirrors e → Mirrors (rem fd e)
  unfolding rem Mirrors interest
  rem-Mirrors fd e m j = elim (Option-cases (Map.find fd e.callbacks)) [
    | inl off ↦ rw (off, rem) (m j)
    | inr (cb, on) ↦
        rw (on, rem)
          (ap is_some (find-erase fd j e.callbacks)
            ∙ erase_alike (nat_key.dec fd j) _ _ (m j)
            ∙ sym (ap is_some (find-erase fd j (interest e.ctl))))
  ]

  run-keeps : (cs : List (Call CB)) (e : Epoll CB) → Mirrors e → Mirrors (run cs e)
  unfolding run
  run-keeps [] e m = m
  run-keeps (adds fd read write cb ∷ cs) e m = run-keeps cs _ (add-Mirrors fd read write cb e m)
  run-keeps (sets fd read write ∷ cs) e m = run-keeps cs _ (set-Mirrors fd read write e m)
  run-keeps (rems fd ∷ cs) e m = run-keeps cs _ (rem-Mirrors fd e m)

  -- From the constructor on, whatever descriptors are added, set and removed, in any order and with
  -- repetitions, the descriptors that the system's list of interest watches are exactly those that
  -- have a callback in the map.
  pub run-Mirrors :
      (emgr : EventMgr (Event CB)) (cs : List (Call CB)) → Mirrors (run cs (epoll emgr).0)
  unfolding epoll Mirrors interest Map.find
  run-Mirrors emgr cs = run-keeps cs (record { callbacks = []; ctl = [] }) (λ fd. refl)

  -- The descriptors that `epoll_wait` returns are in the list of interest.
  unfoldable pub Watched : List Ready → Epoll CB → Type 0
  Watched [] e = Unit
  Watched (r ∷ rs) e = (is_some (Map.find r.fd (interest e.ctl)) ≡ true) × Watched rs e

  -- The event of each of them, for the callback that its descriptor has.
  unfoldable pub due : List Ready → Epoll CB → List (Event CB)
  due [] e = []
  due (r ∷ rs) e = elim (Map.find r.fd e.callbacks) [
    | none ↦ due rs e
    | some cb ↦ calls cb r.read r.write r.error ∷ due rs e
  ]

  enqueue_ready-due :
      (rs : List Ready) (e : Epoll CB) (emgr : EventMgr (Event CB))
      → Mirrors e
      → Watched rs e
      → enqueue_ready rs e emgr ≡ some (record emgr { events = emgr.events ++ due rs e })
  unfolding enqueue_ready due Mirrors Watched EventMgr.enqueue_event
  enqueue_ready-due [] e emgr m on =
      ap (λ es. some (record emgr { events = es })) (sym (append-nil emgr.events))
  enqueue_ready-due (r ∷ rs) e emgr m (here, on) =
      let (cb, found) = is_some_found (Map.find r.fd e.callbacks) (m r.fd ∙ here) in
      let told = calls cb r.read r.write r.error in
      rw (found, enqueue_ready, due)
        (enqueue_ready-due rs e (EventMgr.enqueue_event told emgr) m on
          ∙ ap (λ es. some (record emgr { events = es }))
              (append_assoc emgr.events (told ∷ []) (due rs e)))

  -- After any calls of the connections, where the system returns only descriptors that it was told to
  -- watch, the loop over them never uses a callback that is gone: it puts one event for each of them
  -- into the queue, in their order, and itself behind them.
  pub handle-Mirrors :
      (emgr start : EventMgr (Event CB)) (cs : List (Call CB)) (rs : List Ready)
      → Watched rs (run cs (epoll start).0)
      → handle rs (run cs (epoll start).0) emgr
        ≡ some (record emgr {
          events = emgr.events ++ due rs (run cs (epoll start).0) ++ handles ∷ [];
        })
  unfolding handle EventMgr.enqueue_event
  handle-Mirrors emgr start cs rs on =
      ap once_more (enqueue_ready-due rs (run cs (epoll start).0) emgr (run-Mirrors start cs) on)
