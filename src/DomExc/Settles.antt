-- ===== src/DomExc/Settles.antt =====
-- A second call of the handler, about the same state of the domains.
use mathlib.Core.Path.{subst}
use lixs.Base.{
  ℕ, ◌≡◌, ◌∙◌, refl, sym, ap, Bool, true, false, not, ◌&&◌, none, some, [], ◌∷◌, ◌==◌, if_kept,
  if_false, arith,
}
use lixs.Base.Key.{nat_key}
use lixs.Base.Map
use lixs.Base.Map.{Map}
use lixs.Domain.{Domain}
use lixs.DomExc.{Info, DomExc, callback}
use lixs.Xenstore.{Xenstore}
use lixs.XsProto.Ops.{World}
use lixs.DomExc.News.{is_gone, has_stopped, seen, survivors, news, Answers, Keyed, releases, ends}
use lixs.DomExc.Survivors.{callback-survivors}

stays : (a b : Bool) → ((a && b) && b) ≡ (a && b)
stays a b = ground arith

module _ {E : Type 0} (ended : Domain E → Xenstore → Xenstore) (getinfo : ℕ → Info) where
  -- What is known of the domains holds of those that are left, about which there is no news.
  find-past :
      (j k : ℕ) (d : Domain E) (m : Map ℕ (Domain E))
      → (j == k) ≡ false
      → Map.find k m ≡ none
      → Map.find k ((j, d) ∷ m) ≡ none
  unfolding Map.find
  find-past j k d m e f = ground (arith, e, f)

  find-survivors :
      (k : ℕ) (m : Map ℕ (Domain E)) → Map.find k m ≡ none → Map.find k (survivors getinfo m) ≡ none
  unfolding survivors Map.find
  find-survivors k [] e = refl
  find-survivors k ((j, d) ∷ m) e =
      if_kept (λ (m : Map ℕ (Domain E)). Map.find k m ≡ none) (is_gone d.domid (getinfo d.domid)) _
        _ (λ g. find-survivors k m (ground (arith, e)))
        (λ g.
          (let later = find-survivors k m (ground (arith, e)) in
            find-past j k (seen getinfo d) (survivors getinfo m) (ground (arith, e)) later))

  Settled : Map ℕ (Domain E) → Type 0
  Settled m =
      Keyed m
      × Answers getinfo m
      × (news getinfo m ≡ 0)
      × (survivors getinfo m ≡ m)
      × ((xs : Xenstore) → ends ended getinfo m xs ≡ xs)

  survivors-Settled :
      (m : Map ℕ (Domain E)) → Keyed m → Answers getinfo m → Settled (survivors getinfo m)
  unfolding survivors news ends Answers Keyed Settled
  survivors-Settled [] i a = (tt, tt, refl, refl, λ xs. refl)
  survivors-Settled ((k, d) ∷ m) (key, fresh, i) (known, a) =
      let (keyed, answers, none_new, same, quiet) = survivors-Settled m i a in
      if_kept Settled (is_gone d.domid (getinfo d.domid)) _ _
        (λ g. (keyed, answers, none_new, same, quiet))
        (λ g. (
          (key, find-survivors k m fresh, keyed),
          (known, answers),
          ground (arith, g, none_new),
          if_false _ _ g
              ∙ ap (λ b. (k, record d { active = b }) ∷ survivors getinfo (survivors getinfo m))
                  (stays d.active (not (has_stopped (getinfo d.domid))))
              ∙ ap (λ m. (k, seen getinfo d) ∷ m) same,
          λ xs. if_false _ _ g ∙ quiet xs,
        ))

  -- Under the same conditions, with an acknowledged event: a second call of the handler, about which the
  -- hypervisor answers the same, changes nothing and tells nothing.
  pub callback_settles :
      (port : ℕ) (read write : Bool) (x : DomExc) (w : World (Domain E))
      → x.alive ≡ true
      → Keyed w.dmgr
      → Answers getinfo w.dmgr
      → (let once = callback ended getinfo (some port) true read write false x w in
          callback ended getinfo (some port) true read write false once.0 once.1 ≡ once)
  unfolding Settled releases
  callback_settles port read write x w e i a =
      let (keyed, answers, none_new, same, quiet) = survivors-Settled w.dmgr i a in
      let after = survivors getinfo w.dmgr in
      let told = releases (news getinfo w.dmgr) (ends ended getinfo w.dmgr w.xs) in
      let w' : World (Domain E) = record { xs = told; dmgr = after } in
      subst
        (λ (o : DomExc × World (Domain E)).
          callback ended getinfo (some port) true read write false o.0 o.1 ≡ o)
        (sym (callback-survivors ended getinfo (some port) true read write x w e i a))
        (callback-survivors ended getinfo (some port) true read write x w' e keyed answers
          ∙ ap
              (λ n. (
                x,
                record {
                  xs = releases n (ends ended getinfo after told);
                  dmgr = survivors getinfo after;
                },
              ))
              none_new
          ∙ ap (λ xs. (x, record { xs = xs; dmgr = survivors getinfo after })) (quiet told)
          ∙ ap (λ m. (x, record { xs = told; dmgr = m })) same)
