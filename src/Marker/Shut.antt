-- ===== src/Marker/Shut.antt =====
-- When the channels of `GetAccountValue` (pkg/provenance/marker.go) are closed, and its sum is sent.
use prov_go.Base.{
  ◌≡◌, ◌≢◌, ◌∙◌, sym, subst, ◌⊎◌, inl, inr, Bool, true, false, List, [], ◌∷◌, ◌++◌, arith,
}
use prov_go.Stream.Channel.{Stream}
use prov_go.Marker.Account.{Coin, Scopes}
use prov_go.Marker.Valuation.{
  Exit, whole, stopped, Caller, looping, submitting, draining, summing, returned, Job, Valuation,
  after, Step, produce, cancel, give_up, pass_over, take_up, complete, notice, notice_nil, submit,
  close_results, finish, job_send, job_silent, job_leave, sum_take, sum_send,
}

module _ (S : Scopes) (st : Stream Coin) where
  -- Whether resultsChan is still open, by the place of the caller; once it is closed no job runs.
  abbrev pub ShutAt : Caller → List Job → (closed sent : Bool) → Type 0
  ShutAt summing jobs closed sent = jobs ≡ []
  ShutAt (returned _) jobs closed sent = jobs ≡ []
  ShutAt _ jobs closed sent = (closed ≡ false) × (sent ≡ false)

  abbrev pub IsShut : Valuation → Type 0
  IsShut v = ShutAt v.caller v.running v.results_closed v.sent

  -- The sum is sent only when nothing is left to add.
  abbrev pub IsFinal : Valuation → Type 0
  IsFinal v = (v.sent ≡ false) ⊎ ((v.results ≡ []) × (v.running ≡ []))

  -- A job runs only while the caller has not closed the channel.
  nonempty-middle : (before more : List Job) (j : Job) → before ++ j ∷ more ≢ []
  nonempty-middle [] more j e = ground arith
  nonempty-middle (x ∷ before) more j e = ground arith

  busy :
      (v : Valuation) (before more : List Job) (j : Job)
      → v.running ≡ before ++ j ∷ more
      → v.running ≢ []
  busy v before more j e q = nonempty-middle before more j (sym e ∙ q)

  ShutAt-job :
      (c : Caller) (jobs jobs' : List Job) (closed sent : Bool)
      → ShutAt c jobs closed sent
      → jobs ≢ []
      → ShutAt c jobs' closed sent
  ShutAt-job looping jobs jobs' closed sent h e = h
  ShutAt-job (submitting _) jobs jobs' closed sent h e = h
  ShutAt-job (draining _) jobs jobs' closed sent h e = h
  ShutAt-job summing jobs jobs' closed sent h e = absurd (e h)
  ShutAt-job (returned _) jobs jobs' closed sent h e = absurd (e h)

  ShutAt-after :
      (x : Exit) (jobs : List Job) (closed sent : Bool)
      → jobs ≡ []
      → ShutAt (after x) jobs closed sent
  ShutAt-after whole jobs closed sent h = h
  ShutAt-after (stopped o) jobs closed sent h = h

  ShutAt-idle : (c : Caller) (jobs : List Job) (sent : Bool) → ShutAt c jobs true sent → jobs ≡ []
  ShutAt-idle looping jobs sent h = cc
  ShutAt-idle (submitting _) jobs sent h = cc
  ShutAt-idle (draining _) jobs sent h = cc
  ShutAt-idle summing jobs sent h = h
  ShutAt-idle (returned _) jobs sent h = h

  idle : (v : Valuation) → IsShut v → v.results_closed ≡ true → v.running ≡ []
  idle v h c =
      ShutAt-idle v.caller v.running v.sent (subst (λ b. ShutAt v.caller v.running b v.sent) c h)

  ShutAt-send :
      (c : Caller) (jobs : List Job) (closed sent sent' : Bool)
      → ShutAt c jobs closed sent
      → jobs ≡ []
      → closed ≡ true
      → ShutAt c jobs closed sent'
  ShutAt-send looping jobs closed sent sent' h e c = cc
  ShutAt-send (submitting _) jobs closed sent sent' h e c = cc
  ShutAt-send (draining _) jobs closed sent sent' h e c = cc
  ShutAt-send summing jobs closed sent sent' h e c = h
  ShutAt-send (returned _) jobs closed sent sent' h e c = h

  at_caller :
      (v : Valuation) {c : Caller}
      → v.caller ≡ c
      → IsShut v
      → ShutAt c v.running v.results_closed v.sent
  at_caller v e h = subst (λ c. ShutAt c v.running v.results_closed v.sent) e h

  pub Step-IsShut : {v u : Valuation} → IsShut v → Step S st v u → IsShut u
  Step-IsShut {v} h (give_up e _) = at_caller v e h
  Step-IsShut {v} h (take_up e _ _) = at_caller v e h
  Step-IsShut {v} h (complete e _ _) = at_caller v e h
  Step-IsShut {v} h (notice e _) = at_caller v e h
  Step-IsShut {v} h (notice_nil e _ _) = at_caller v e h
  Step-IsShut {v} h (submit e _) = at_caller v e h
  Step-IsShut {v} h (close_results {x} _ e) = ShutAt-after x v.running true v.sent e
  Step-IsShut {v} h (finish e _) = at_caller v e h
  Step-IsShut {v} h (job_send before more scope e _ _) =
      ShutAt-job v.caller v.running _ v.results_closed v.sent h (busy v before more _ e)
  Step-IsShut {v} h (job_silent before more scope e _) =
      ShutAt-job v.caller v.running _ v.results_closed v.sent h (busy v before more _ e)
  Step-IsShut {v} h (job_leave before more e) =
      ShutAt-job v.caller v.running _ v.results_closed v.sent h (busy v before more _ e)
  Step-IsShut {v} h (sum_send s e c) =
      ShutAt-send v.caller v.running v.results_closed v.sent true h (idle v h c) c
  Step-IsShut h (produce _) = h
  Step-IsShut h cancel = h
  Step-IsShut h (pass_over _ _ _) = h
  Step-IsShut h (sum_take _ _) = h

  unsent_while :
      (v : Valuation) (before more : List Job) (j : Job)
      → v.running ≡ before ++ j ∷ more
      → IsFinal v
      → v.sent ≡ false
  unsent_while v before more j e (inl s) = s
  unsent_while v before more j e (inr (_, q)) = absurd (busy v before more j e q)

  pub Step-IsFinal : {v u : Valuation} → IsShut v → IsFinal v → Step S st v u → IsFinal u
  Step-IsFinal {v} s h (submit e _) = inl (at_caller v e s).1
  Step-IsFinal {v} s h (job_send before more scope e _ _) = inl (unsent_while v before more _ e h)
  Step-IsFinal {v} s h (job_silent before more scope e _) = inl (unsent_while v before more _ e h)
  Step-IsFinal {v} s h (job_leave before more e) = inl (unsent_while v before more _ e h)
  Step-IsFinal s h (sum_take e _) = inl e
  Step-IsFinal {v} s h (sum_send _ e c) = inr (e, idle v s c)
  Step-IsFinal s h (produce _) = h
  Step-IsFinal s h cancel = h
  Step-IsFinal s h (give_up _ _) = h
  Step-IsFinal s h (pass_over _ _ _) = h
  Step-IsFinal s h (take_up _ _ _) = h
  Step-IsFinal s h (complete _ _ _) = h
  Step-IsFinal s h (notice _ _) = h
  Step-IsFinal s h (notice_nil _ _ _) = h
  Step-IsFinal s h (close_results _ _) = h
  Step-IsFinal s h (finish _ _) = h
