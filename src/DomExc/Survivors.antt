-- ===== src/DomExc/Survivors.antt =====
-- Which domains the handler leaves, and how often it tells that one has stopped.
use mathlib.Core.Path.{subst}
use lixs.Base.{
  ℕ, ◌≡◌, ◌∙◌, refl, sym, ap, Bool, true, false, not, ◌&&◌, Option, none, List, [], ◌∷◌, if_kept,
  if_true, if_false, arith,
}
use lixs.Base.Key.{nat_key}
use lixs.Base.Map
use lixs.Base.Map.{Map}
use lixs.Base.Set
use lixs.Base.Text.{length}
use lixs.Domain
use lixs.Domain.{Domain}
use lixs.DomExc.{
  Info, DomExc, Scan, keep, dead, dying, look, scan, bury, announce, callback, acknowledged,
}
use lixs.Xenstore
use lixs.Xenstore.{Xenstore}
use lixs.XsProto.Ops.{World}
use lixs.DomExc.News.{
  is_gone, has_stopped, is_error, survivors, news, Answers, Keyed, releases, ends,
}
use lixs.DomExc.Bury.{destroyed-here, bury-past, look-is}

abbrev both : {D : Type 0} → Xenstore → Map ℕ D → World D
both x m = record { xs = x; dmgr = m }

over : {D : Type 0} {x x' : Xenstore} {m m' : Map ℕ D} → x ≡ x' → m ≡ m' → both x m ≡ both x' m'
over {x' = x'} {m = m} p q = ap (λ x. both x m) p ∙ ap (λ m. both x' m) q

module _ {E : Type 0} (getinfo : ℕ → Info) where
  -- A body of the loop, by its three cases.
  look-kept :
      (P : Scan E → Type 0) (k : ℕ) (d : Domain E) (later : Map ℕ (Domain E)) (rest : Scan E)
      → is_error (getinfo d.domid) ≡ false
      → (is_gone d.domid (getinfo d.domid) ≡ true → P (dead k d rest))
      → (is_gone d.domid (getinfo d.domid) ≡ false
          → (d.active && has_stopped (getinfo d.domid)) ≡ true
          → P (dying k d rest))
      → (is_gone d.domid (getinfo d.domid) ≡ false
          → (d.active && has_stopped (getinfo d.domid)) ≡ false
          → P (keep k d rest))
      → P (look (getinfo (Domain.get_domid d)) k d later rest)
  unfolding Domain.get_domid
  look-kept P k d later rest e f g h = subst P (sym (look-is (getinfo d.domid) k d later rest e)) (
      if_kept P (is_gone d.domid (getinfo d.domid)) _ _ f (λ here.
        if_kept P (d.active && has_stopped (getinfo d.domid)) _ _ (λ st. g here st)
          (λ st. h here st)))

  Absent : ℕ → Scan E → Type 0
  Absent k s = (Map.find k s.domains ≡ none) × (Set.has k s.dead_list ≡ false)

  find-scan :
      (k : ℕ) (m : Map ℕ (Domain E))
      → Keyed m
      → Answers getinfo m
      → Map.find k m ≡ none
      → Absent k (scan getinfo m)
  unfolding scan Map.find Set.has Answers Keyed Domain.get_domid Absent
  find-scan k [] i a e = (refl, refl)
  find-scan k ((j, d) ∷ m) (key, fresh, i) (known, a) e =
      let (none_later, not_later) = find-scan k m i a (ground (arith, e)) in
      look-kept (Absent k) j d m (scan getinfo m) known
        (λ g. (ground (arith, e, none_later), ground (arith, e, not_later, key)))
        (λ g st. (ground (arith, e, none_later), not_later))
        (λ g st. (ground (arith, e, none_later), not_later))

module _ {E : Type 0} (ended : Domain E → Xenstore → Xenstore) (getinfo : ℕ → Info) where
  -- The loop over the dead leaves the survivors.
  Buries : Map ℕ (Domain E) → Map ℕ (Domain E) → Scan E → Type 0
  Buries m left s =
      (s.failed ≡ false)
      × ((xs : Xenstore)
          → bury ended s.dead_list (record { xs = xs; dmgr = s.domains })
            ≡ record { xs = ends ended getinfo m xs; dmgr = left })

  scan-Buries :
      (m : Map ℕ (Domain E))
      → Keyed m
      → Answers getinfo m
      → Buries m (survivors getinfo m) (scan getinfo m)
  unfolding scan survivors ends Answers Keyed Buries Absent bury Domain.set_inactive
      Domain.get_domid
  scan-Buries [] i a = (refl, λ xs. refl)
  scan-Buries ((k, d) ∷ m) (key, fresh, i) (known, a) =
      let (fine, buried) = scan-Buries m i a in
      let absent : Absent getinfo k (scan getinfo m) = find-scan getinfo k m i a fresh in
      look-kept getinfo (Buries ((k, d) ∷ m) (survivors getinfo ((k, d) ∷ m))) k d m
        (scan getinfo m) known
        (λ g. (
          fine,
          λ xs.
              ap (bury ended (scan getinfo m).dead_list)
                (destroyed-here ended d.domid k d (scan getinfo m).domains xs key absent.0)
              ∙ buried (Xenstore.domain_release (ended d xs))
              ∙ over (sym (if_true _ _ g)) (sym (if_true _ _ g)),
        ))
        (λ g st. (
          fine,
          λ xs.
              bury-past ended (scan getinfo m).dead_list k _ (scan getinfo m).domains xs absent.1
              ∙ ap
                  (λ (w : World (Domain E)). record {
                    xs = w.xs;
                    dmgr = (k, Domain.set_inactive d) ∷ w.dmgr;
                  })
                  (buried xs)
              ∙ ap
                  (λ b. record {
                    xs = ends ended getinfo m xs;
                    dmgr = (k, record d { active = b }) ∷ survivors getinfo m;
                  })
                  (ground (arith, st))
              ∙ over (sym (if_false _ _ g)) (sym (if_false _ _ g)),
        ))
        (λ g st. (
          fine,
          λ xs.
              bury-past ended (scan getinfo m).dead_list k _ (scan getinfo m).domains xs absent.1
              ∙ ap (λ (w : World (Domain E)). record { xs = w.xs; dmgr = (k, d) ∷ w.dmgr })
                  (buried xs)
              ∙ ap
                  (λ b. record {
                    xs = ends ended getinfo m xs;
                    dmgr = (k, record d { active = b }) ∷ survivors getinfo m;
                  })
                  (ground (arith, st))
              ∙ over (sym (if_false _ _ g)) (sym (if_false _ _ g)),
        ))

  scan-news :
      (m : Map ℕ (Domain E))
      → Answers getinfo m
      → length (scan getinfo m).dying_list ≡ news getinfo m
  unfolding scan news Answers
  scan-news [] a = refl
  scan-news ((k, d) ∷ m) (known, a) =
      let rest = scan-news m a in
      look-kept getinfo (λ s. length s.dying_list ≡ news getinfo ((k, d) ∷ m)) k d m
        (scan getinfo m) known (λ g. ground (arith, g, rest)) (λ g st. ground (arith, g, st, rest))
        (λ g st. ground (arith, g, st, rest))

  announce-releases :
      (ds : List ℕ) (w : World (Domain E))
      → announce ds w ≡ record w { xs = releases (length ds) w.xs }
  unfolding announce releases
  announce-releases [] w = refl
  announce-releases (x ∷ ds) w =
      announce-releases ds (record w { xs = Xenstore.domain_release w.xs })

  -- Where the handler is alive, each domain is at its id, once, and the hypervisor answers about each
  -- of them: the handler removes the domains that are gone, and makes those that have stopped
  -- inactive; for each domain that is gone, in the order of the map, it runs the destructor, and tells
  -- the watches that a domain was released; then it tells them so once for each that is there, has
  -- stopped and was active; and it stays alive where the event can be acknowledged, and is out of the
  -- multiplexer otherwise.
  pub callback-survivors :
      (pending : Option ℕ) (unmask read write : Bool) (x : DomExc) (w : World (Domain E))
      → x.alive ≡ true
      → Keyed w.dmgr
      → Answers getinfo w.dmgr
      → callback ended getinfo pending unmask read write false x w ≡ (
        acknowledged pending unmask x,
        record {
          xs = releases (news getinfo w.dmgr) (ends ended getinfo w.dmgr w.xs);
          dmgr = survivors getinfo w.dmgr;
        },
      )
  unfolding callback Buries
  callback-survivors pending unmask read write x w e i a =
      let s = scan getinfo w.dmgr in
      let (fine, buried) = scan-Buries w.dmgr i a in
      let after = survivors getinfo w.dmgr in
      let left = ends ended getinfo w.dmgr w.xs in
      if_false _ _ (ap not e)
      ∙ if_false _ _ fine
      ∙ ap (λ w. (acknowledged pending unmask x, w))
          (ap (announce s.dying_list) (buried w.xs)
            ∙ announce-releases s.dying_list (record { xs = left; dmgr = after })
            ∙ ap (λ n. record { xs = releases n left; dmgr = after }) (scan-news w.dmgr a))
