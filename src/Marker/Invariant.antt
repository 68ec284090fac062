-- ===== src/Marker/Invariant.antt =====
-- What holds of the goroutines of `GetAccountValue` at every moment, given the balances received.
use prov_go.Base.{
  ℕ, ◌+◌, ◌≡◌, refl, ap, sym, subst, inl, inr, true, Option, none, some, List, [], ◌∷◌, ◌++◌, arith,
  ok, err,
}
use prov_go.Stream.Channel.{
  Stream, Link, Producer, request, sending, failing, close_err, close_items, finished, crashed,
}
use prov_go.Stream.Fetched.{IsListing}
use prov_go.Stream.Invariant.{HoldsAt, HasEnded}
use prov_go.Stream.Collect.{Collector, collecting, returned as given}
use prov_go.Stream.Safety.{
  GoodAt, Produce-GoodAt, cancel-GoodAt, complete-GoodAt, notice-GoodAt, receive-Holds,
}
use prov_go.Marker.Account.{Coin, NftAccount, Scopes, values}
use prov_go.Marker.Valuation.{
  Exit, whole, stopped, valued, failed, nothing, Caller, looping, submitting, draining, summing,
  returned, Job, asking, leaving, Valuation, after, Step, produce, cancel, give_up, pass_over,
  take_up, complete, notice, notice_nil, submit, close_results, finish, job_send, job_silent,
  job_leave, sum_take, sum_send,
}
use prov_go.Marker.Bags.{
  total, total-add_nft, of_job, of_jobs, of_jobs-append, of_caller, of_caller-after, of_valuation,
  values_scope, values_plain,
}

module _ (S : Scopes) (st : Stream Coin) where
  -- The loop as a caller of the stream that gathers the balances; an exit by a nil error has no
  -- counterpart, and needs that all pages have been fetched.
  abbrev pub exit_view : List Coin → Exit → Option (Collector Coin)
  exit_view got whole = some (given (ok got))
  exit_view got (stopped (some e)) = some (given (err e))
  exit_view got (stopped none) = none

  abbrev pub view : List Coin → Caller → Option (Collector Coin)
  view got looping = some (collecting got)
  view got (submitting _) = some (collecting got)
  view got (draining x) = exit_view got x
  view got summing = some (given (ok got))
  view got (returned (valued _)) = some (given (ok got))
  view got (returned (failed e)) = some (given (err e))
  view got (returned nothing) = none

  abbrev pub Seen : Link Coin → Option (Collector Coin) → Type 0
  Seen l none = (all : List Coin) × IsListing st.fetch all
  Seen l (some c) = GoodAt st l c

  view-after : (got : List Coin) (x : Exit) → view got (after x) ≡ exit_view got x
  view-after got whole = refl
  view-after got (stopped (some e)) = refl
  view-after got (stopped none) = refl

  IsListing-of_ended :
      (got : List Coin) (l : Link Coin)
      → HasEnded st got l
      → l.fault ≡ none
      → IsListing st.fetch (got ++ l.buffer)
  IsListing-of_ended got l (inl (_, all)) q = all
  IsListing-of_ended got l (inr (e, fault, _, _)) q = cc

  -- errChan is closed and empty only if no query has failed.
  closed-IsListing :
      (got : List Coin) (l : Link Coin) (p : Producer Coin)
      → HoldsAt st got l p
      → l.fault ≡ none
      → l.fault_closed ≡ true
      → IsListing st.fetch (got ++ l.buffer)
  closed-IsListing got l (request _) (_, _, open_yet, _) q c = cc
  closed-IsListing got l (sending _ _) (_, _, open_yet, _) q c = cc
  closed-IsListing got l (failing _) (_, _, _, open_yet, _) q c = cc
  closed-IsListing got l close_err (_, open_yet, _) q c = cc
  closed-IsListing got l close_items (ended, _, _) q c = IsListing-of_ended got l ended q
  closed-IsListing got l finished (ended, _, _) q c = IsListing-of_ended got l ended q
  closed-IsListing got l crashed (_, open_yet, _) q c = cc

  -- The balances received after a step.
  abbrev pub next_got : {v u : Valuation} → List Coin → Step S st v u → List Coin
  next_got got (pass_over {x} _ _ _) = got ++ x ∷ []
  next_got got (take_up {x} _ _ _) = got ++ x ∷ []
  next_got got _ = got

  abbrev pub IsSeen : List Coin → Valuation → Type 0
  IsSeen got v = Seen v.link (view got v.caller)

  pub Step-IsSeen :
      (got : List Coin) {v u : Valuation}
      → IsSeen got v
      → (p : Step S st v u) → IsSeen (next_got got p) u
  Step-IsSeen got {v} h (produce {l} p) = move (view got v.caller) h
    where
      move : (o : Option (Collector Coin)) → Seen v.link o → Seen l o
      move none h = h
      move (some c) h = Produce-GoodAt st c h p
  Step-IsSeen got {v} h cancel = move (view got v.caller) h
    where
      move :
          (o : Option (Collector Coin))
          → Seen v.link o
          → Seen (record (v.link) { cancelled = true }) o
      move none h = h
      move (some c) h = cancel-GoodAt st v.link c h
  Step-IsSeen got {v} h (give_up e c) = (inr (refl, c), inl c)
  Step-IsSeen got {v} h (pass_over {x} {xs} e b n) =
      subst (λ k. Seen (record (v.link) { buffer = xs }) (view (got ++ x ∷ []) k)) (sym e)
        (receive-Holds st v.link got xs x (subst (λ k. Seen v.link (view got k)) e h) b)
  Step-IsSeen got {v} h (take_up {x} {xs} e b n) =
      receive-Holds st v.link got xs x (subst (λ k. Seen v.link (view got k)) e h) b
  Step-IsSeen got {v} h (complete e b c) =
      complete-GoodAt st v.link got (subst (λ k. Seen v.link (view got k)) e h) b c
  Step-IsSeen got {v} h (notice e q) =
      notice-GoodAt st v.link got (subst (λ k. Seen v.link (view got k)) e h) q
  Step-IsSeen got {v} h (notice_nil e q c) = (
    got ++ v.link.buffer,
    closed-IsListing got v.link v.link.producer (subst (λ k. Seen v.link (view got k)) e h) q c,
  )
  Step-IsSeen got {v} h (submit e r) = subst (λ k. Seen v.link (view got k)) e h
  Step-IsSeen got {v} h (close_results {x} e r) =
      subst (Seen v.link) (sym (view-after got x)) (subst (λ k. Seen v.link (view got k)) e h)
  Step-IsSeen got {v} h (finish e r) = subst (λ k. Seen v.link (view got k)) e h
  Step-IsSeen got h (job_send _ _ _ _ _ _) = h
  Step-IsSeen got h (job_silent _ _ _ _ _) = h
  Step-IsSeen got h (job_leave _ _ _) = h
  Step-IsSeen got h (sum_take _ _) = h
  Step-IsSeen got h (sum_send _ _ _) = h

  -- No NFT is lost or counted twice: each one received is summed, in the channel, or still with a job
  -- or with the caller.
  abbrev pub IsCounted : List Coin → Valuation → Type 0
  IsCounted got v = (f : NftAccount → ℕ) → total f (values S got) ≡ of_valuation f S v

  -- A job in the middle of the running ones.
  of_jobs-middle :
      (f : NftAccount → ℕ) (before more : List Job) (j : Job)
      → of_jobs f S (before ++ j ∷ more) ≡ of_jobs f S before + (of_job f S j + of_jobs f S more)
  of_jobs-middle f before more j = of_jobs-append f S before (j ∷ more)

  pub Step-IsCounted :
      (got : List Coin) {v u : Valuation}
      → IsCounted got v
      → (p : Step S st v u) → IsCounted (next_got got p) u
  Step-IsCounted got h (produce p) f = h f
  Step-IsCounted got h cancel f = h f
  Step-IsCounted got h (give_up e c) f = omega (arith, h f, ap (of_caller f S) e)
  Step-IsCounted got h (pass_over {x} e b n) f = omega (arith, h f, values_plain f S got x n)
  Step-IsCounted got h (take_up {x} {scope = scope} e b n) f =
      omega (arith, h f, ap (of_caller f S) e, values_scope f S got x scope n)
  Step-IsCounted got h (complete e b c) f = omega (arith, h f, ap (of_caller f S) e)
  Step-IsCounted got h (notice e q) f = omega (arith, h f, ap (of_caller f S) e)
  Step-IsCounted got h (notice_nil e q c) f = omega (arith, h f, ap (of_caller f S) e)
  Step-IsCounted got h (submit e r) f = omega (arith, h f, ap (of_caller f S) e)
  Step-IsCounted got h (close_results {x} e r) f =
      omega (arith, h f, ap (of_caller f S) e, of_caller-after f S x)
  Step-IsCounted got h (finish e r) f = omega (arith, h f, ap (of_caller f S) e)
  Step-IsCounted got h (job_send before more scope e r n) f = omega (
    arith,
    h f,
    ap (of_jobs f S) e,
    of_jobs-middle f before more (asking scope),
    of_jobs-middle f before more leaving,
    ap (total f) r,
    ap (total f) n,
  )
  Step-IsCounted got h (job_silent before more scope e r) f = omega (
    arith,
    h f,
    ap (of_jobs f S) e,
    of_jobs-middle f before more (asking scope),
    of_jobs-middle f before more leaving,
    ap (total f) r,
  )
  Step-IsCounted got h (job_leave before more e) f = omega (
    arith,
    h f,
    ap (of_jobs f S) e,
    of_jobs-middle f before more leaving,
    of_jobs-append f S before more,
  )
  Step-IsCounted got {v} h (sum_take {nft} s e) f =
      omega (arith, h f, ap (total f) e, total-add_nft f v.sum nft)
  Step-IsCounted got h (sum_send s e c) f = h f
