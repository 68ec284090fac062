-- ===== src/Stream/Watched.antt =====
-- What `streamBalances` (examples/bank/balances.go) prints, beside what `GetBalances`
-- (pkg/provenance/bank.go) returns.
use prov_go.Base.{◌≡◌, refl, sym, ap, subst, ◌∙◌, ◌↔◌, false, List, Result, ok, err, panic}
use prov_go.Stream.Channel.{Stream, Link, Produce}
use prov_go.Stream.Collect
use prov_go.Stream.Collect.{Collector, collecting, returned, System, Advance, advance, cancel}
use prov_go.Stream.Watch
use prov_go.Stream.Watch.{Watcher, watching, ended, fatal, Screen}
use prov_go.Stream.Invariant.{Produce-cancelled}

module _ {A : Type 0} (st : Stream A) where
  -- The program has ended with this outcome: the items printed before "no more balances", or the error.
  abbrev pub IsOutcome : Watcher A → Result (List A) → Type 0
  IsOutcome (ended acc) (ok xs) = acc ≡ xs
  IsOutcome (fatal acc e) (err e') = e ≡ e'
  IsOutcome _ _ = ⊥

  abbrev pub CanPrint : Result (List A) → Type 0
  CanPrint r = (s : Screen A) × Watch.Reach st s × IsOutcome s.watcher r

  -- A result of the caller that gathers the stream, in a run in which the context is not cancelled.
  abbrev pub CanGather : Result (List A) → Type 0
  CanGather r =
      (s : System A) × Collect.Reach st s × (s.collector ≡ returned r) × (s.link.cancelled ≡ false)

  abbrev collector_of : Watcher A → Collector A
  collector_of (watching acc) = collecting acc
  collector_of (ended acc) = returned (ok acc)
  collector_of (fatal acc e) = returned (err e)

  abbrev system_of : Screen A → System A
  system_of s = record { link = s.link; collector = collector_of s.watcher }

  Step-gathers :
      {s t : Screen A}
      → Collect.Reach st (system_of s)
      → Watch.Step st s t
      → Collect.Reach st (system_of t)
  Step-gathers r (Watch.produce _ p) = Collect.later r (advance (Advance.produce p))
  Step-gathers r (Watch.print e b) =
      Collect.later r (advance (Advance.receive (ap collector_of e) b))
  Step-gathers r (Watch.no_more e b c) =
      Collect.later r (advance (Advance.complete (ap collector_of e) b c))
  Step-gathers r (Watch.notice e f) =
      Collect.later r (advance (Advance.notice (ap collector_of e) f))
  Step-gathers r (Watch.idle _ _ _) = r

  Reach-gathers : {s : Screen A} → Watch.Reach st s → Collect.Reach st (system_of s)
  Reach-gathers Watch.start = Collect.start
  Reach-gathers (Watch.later r p) = Step-gathers (Reach-gathers r) p

  Reach-live : {s : Screen A} → Watch.Reach st s → s.link.cancelled ≡ false
  Reach-live Watch.start = refl
  Reach-live (Watch.later r (Watch.produce _ p)) = Produce-cancelled st p ∙ Reach-live r
  Reach-live (Watch.later r (Watch.print _ _)) = Reach-live r
  Reach-live (Watch.later r (Watch.no_more _ _ _)) = Reach-live r
  Reach-live (Watch.later r (Watch.notice _ _)) = Reach-live r
  Reach-live (Watch.later r (Watch.idle _ _ _)) = Reach-live r

  returned_of : (c : Watcher A) (r : Result (List A)) → IsOutcome c r → collector_of c ≡ returned r
  returned_of (ended acc) (ok xs) e = ap (λ x. returned (ok x)) e
  returned_of (fatal acc x) (err y) e = ap (λ z. returned (err z)) e
  returned_of (watching _) r e = elim e [ ]
  returned_of (ended acc) (err y) e = elim e [ ]
  returned_of (ended acc) (panic _) e = elim e [ ]
  returned_of (fatal acc x) (ok xs) e = elim e [ ]
  returned_of (fatal acc x) (panic _) e = elim e [ ]

  -- The run in which the items are printed instead of gathered.
  ShownAt : Link A → Collector A → Type 0
  ShownAt l (collecting acc) = Watch.Reach st (record { link = l; watcher = watching acc })
  ShownAt l (returned r) = CanPrint r

  Produce-shown : {l l' : Link A} (c : Collector A) → ShownAt l c → Produce st l l' → ShownAt l' c
  unfolding ShownAt
  Produce-shown (collecting acc) h p = Watch.later h (Watch.produce refl p)
  Produce-shown (returned r) h p = h

  advance_shown :
      {s t : System A}
      → ShownAt s.link s.collector
      → s.link.cancelled ≡ false
      → Advance st s t
      → ShownAt t.link t.collector
  unfolding ShownAt
  advance_shown {s} h live (Advance.produce p) = Produce-shown s.collector h p
  advance_shown {s} h live (Advance.give_up _ c) = cc
  advance_shown {s} h live (Advance.receive p b) =
      Watch.later (subst (ShownAt s.link) p h) (Watch.print refl b)
  advance_shown {s} h live (Advance.complete p b c) =
      (_, Watch.later (subst (ShownAt s.link) p h) (Watch.no_more refl b c), refl)
  advance_shown {s} h live (Advance.notice p f) =
      (_, Watch.later (subst (ShownAt s.link) p h) (Watch.notice refl f), refl)

  live_before :
      {s t : System A} → Advance st s t → t.link.cancelled ≡ false → s.link.cancelled ≡ false
  live_before (Advance.produce p) live = sym (Produce-cancelled st p) ∙ live
  live_before (Advance.give_up _ _) live = live
  live_before (Advance.receive _ _) live = live
  live_before (Advance.complete _ _ _) live = live
  live_before (Advance.notice _ _) live = live

  Reach-shown :
      {s : System A} → Collect.Reach st s → s.link.cancelled ≡ false → ShownAt s.link s.collector
  unfolding ShownAt
  Reach-shown Collect.start live = Watch.start
  Reach-shown (Collect.later r (advance a)) live =
      let before = live_before a live in advance_shown (Reach-shown r before) before a
  Reach-shown (Collect.later r cancel) live = cc
  Reach-shown (Collect.later r (Collect.idle _ _ _)) live = Reach-shown r live

  -- `streamBalances` can print exactly the items that `GetBalances` can return in a run without
  -- cancellation, before it says that there are no more, and can end the program with exactly the errors
  -- that `GetBalances` can return.
  pub CanPrint-iff : (r : Result (List A)) → CanPrint r ↔ CanGather r
  unfolding ShownAt
  CanPrint-iff r = (
    λ (s, w, e). (system_of s, Reach-gathers w, returned_of s.watcher r e, Reach-live w),
    λ (s, c, e, live). subst (ShownAt s.link) e (Reach-shown c live),
  )
