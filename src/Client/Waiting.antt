-- ===== src/Client/Waiting.antt =====
-- What `WaitOnTx` (pkg/provenance/prov.go) returns, for every node.
use prov_go.Base.{
  String, Result, inl, inr, panic, ◌⊎◌, arith, err, false, ok, refl, suc, zero, ℕ, ◌<◌, ap, ◌∙◌,
  ◌==◌, ◌≡◌, Option, none, some, subst,
}
use prov_go.Platform.{Platform, TxReply, TxResponse}
use prov_go.Client.Monad.{World}
use prov_go.Client.Defs.{Polled, broken, again, gave_up, poll, polled, ready, wait_on_tx}

module _ (P : Platform) (hash : String) where
  -- The node after `i` replies that were each followed by a sleep, and the reply that comes next.
  abbrev pub rest : P.State → P.State
  rest s = P.sleep (P.get_tx hash s).1

  abbrev pub node_after : ℕ → P.State → P.State
  node_after zero s = s
  node_after (suc i) s = node_after i (rest s)

  abbrev reply_at : ℕ → P.State → Polled
  reply_at i s = polled (P.get_tx hash (node_after i s)).0

  poll_ready :
      (i n : ℕ) (w : World P) (r : TxReply) (t : TxResponse)
      → i < n
      → ((j : ℕ) → j < i → reply_at j w.node ≡ again)
      → reply_at i w.node ≡ ready r t
      → poll P n hash w ≡ (ok r, record w { node = (P.get_tx hash (node_after i w.node)).1 })
  unfolding poll
  poll_ready i zero w r t lt before e = absurd (omega arith)
  poll_ready zero (suc n) w r t lt before e = ground arith
  poll_ready (suc i) (suc n) w r t lt before e = ground (
    arith,
    before 0 (omega arith),
    poll_ready i n (record w { node = rest w.node }) r t (omega arith)
        (λ j lt. before (suc j) (omega arith)) e,
  )

  poll_never :
      (n : ℕ) (w : World P)
      → ((j : ℕ) → j < n → reply_at j w.node ≡ again)
      → poll P n hash w ≡ (err (gave_up hash), record w { node = node_after n w.node })
  unfolding poll
  poll_never zero w before = refl
  poll_never (suc n) w before = ground (
    arith,
    before 0 (omega arith),
    poll_never n (record w { node = rest w.node }) (λ j lt. before (suc j) (omega arith)),
  )

  -- For a hash that is not empty, `WaitOnTx` returns the first reply with a transaction in it among
  -- the first ten, errors before it included, and asks the node no further.
  wait_on_tx_first :
      (i : ℕ) (w : World P) (r : TxReply) (t : TxResponse)
      → (hash == "") ≡ false
      → i < 10
      → ((j : ℕ) → j < i → reply_at j w.node ≡ again)
      → reply_at i w.node ≡ ready r t
      → wait_on_tx P hash w ≡ (ok r, record w { node = (P.get_tx hash (node_after i w.node)).1 })
  unfolding wait_on_tx
  wait_on_tx_first i w r t given lt before e = rw given (poll_ready i 10 w r t lt before e)

  -- For a hash that is not empty: if the first ten replies hold no transaction, `WaitOnTx` gives up
  -- with an error after the tenth.
  wait_on_tx_gives_up :
      (w : World P)
      → (hash == "") ≡ false
      → ((j : ℕ) → j < 10 → reply_at j w.node ≡ again)
      → wait_on_tx P hash w ≡ (err (gave_up hash), record w { node = node_after 10 w.node })
  unfolding wait_on_tx
  wait_on_tx_gives_up w given before = rw given (poll_never 10 w before)

  -- What the node has answered to a call: with a transaction; with an error, with no reply, or with a
  -- reply that holds none; or with a panic.
  abbrev pub reply_to : ℕ → P.State → Result (Option TxReply)
  reply_to i s = (P.get_tx hash (node_after i s)).0

  abbrev pub Holds : Result (Option TxReply) → TxReply → TxResponse → Type 0
  Holds x r t = (x ≡ ok (some r)) × (r.tx_response ≡ some t)

  abbrev pub HoldsNone : Result (Option TxReply) → Type 0
  HoldsNone (ok none) = Unit
  HoldsNone (ok (some r)) = r.tx_response ≡ none
  HoldsNone (err e) = Unit
  HoldsNone (panic s) = ⊥

  -- The next `i` replies hold no transaction.
  abbrev pub Silent : ℕ → P.State → Type 0
  Silent zero s = Unit
  Silent (suc i) s = HoldsNone (P.get_tx hash s).0 × Silent i (rest s)

  -- `WaitOnTx` with `n` rounds has stopped at reply `i`, the first with a transaction; has given up; or
  -- has met a panic.
  abbrev pub Found : ℕ → World P → Result TxReply × World P → Type 0
  Found n w out =
      (i : ℕ) × (r : TxReply) × (t : TxResponse) × (i < n)
      × Silent i w.node
      × Holds (reply_to i w.node) r t
      × (out ≡ (ok r, record w { node = (P.get_tx hash (node_after i w.node)).1 }))

  abbrev pub GaveUp : ℕ → World P → Result TxReply × World P → Type 0
  GaveUp n w out =
      Silent n w.node × (out ≡ (err (gave_up hash), record w { node = node_after n w.node }))

  abbrev pub Broke : ℕ → World P → Result TxReply × World P → Type 0
  Broke n w out =
      (i : ℕ) × (why : String) × (i < n)
      × Silent i w.node
      × (reply_to i w.node ≡ panic why)
      × (out.0 ≡ panic why)

  abbrev pub Decided : ℕ → World P → Result TxReply × World P → Type 0
  Decided n w out = Found n w out ⊎ GaveUp n w out ⊎ Broke n w out

  -- The three ways in which `polled` sees a reply.
  abbrev Sees : Result (Option TxReply) → Polled → Type 0
  Sees x (ready r t) = Holds x r t
  Sees x again = HoldsNone x
  Sees x (broken why) = x ≡ panic why

  Sees-reply :
      (r : TxReply) (o : Option TxResponse)
      → r.tx_response ≡ o
      → Sees (ok (some r)) (polled (ok (some r)))
  unfolding polled
  Sees-reply r none e =
      let same : again ≡ polled (ok (some r)) = ground arith in subst (Sees (ok (some r))) same e
  Sees-reply r (some t) e =
      let same : ready r t ≡ polled (ok (some r)) = ground arith in
      subst (Sees (ok (some r))) same (refl, e)

  Sees-polled : (x : Result (Option TxReply)) → Sees x (polled x)
  unfolding polled
  Sees-polled (ok none) = tt
  Sees-polled (ok (some r)) = Sees-reply r (r.tx_response) refl
  Sees-polled (err e) = tt
  Sees-polled (panic s) = refl

  poll-suc :
      (n : ℕ) (w : World P)
      → polled (P.get_tx hash w.node).0 ≡ again
      → poll P (suc n) hash w ≡ poll P n hash (record w { node = rest w.node })
  unfolding poll
  poll-suc n w e = ground arith

  poll_again :
      (n : ℕ) (w : World P)
      → polled (P.get_tx hash w.node).0 ≡ again
      → HoldsNone (P.get_tx hash w.node).0
      → Decided n
          (record w { node = rest w.node })
          (poll P n hash (record w { node = rest w.node }))
      → Decided (suc n) w (poll P (suc n) hash w)
  poll_again n w e none_held (inl (i, r, t, lt, quiet, got, out)) =
      inl (suc i, r, t, omega arith, (none_held, quiet), got, poll-suc n w e ∙ out)
  poll_again n w e none_held (inr (inl (quiet, out))) =
      inr (inl ((none_held, quiet), poll-suc n w e ∙ out))
  poll_again n w e none_held (inr (inr (i, why, lt, quiet, got, out))) = inr (
      inr (
        suc i,
        why,
        omega arith,
        (none_held, quiet),
        got,
        ap (λ (x : Result TxReply × World P). x.0) (poll-suc n w e) ∙ out,
      ))

  poll_step :
      (n : ℕ) (w : World P)
      → Decided n
          (record w { node = rest w.node })
          (poll P n hash (record w { node = rest w.node }))
      → (p : Polled) → polled (P.get_tx hash w.node).0 ≡ p
      → Sees (P.get_tx hash w.node).0 p
      → Decided (suc n) w (poll P (suc n) hash w)
  unfolding poll
  poll_step n w next (ready r t) e seen = inl (0, r, t, omega arith, tt, seen, ground arith)
  poll_step n w next again e seen = poll_again n w e seen next
  poll_step n w next (broken why) e seen = inr (inr (0, why, omega arith, tt, seen, ground arith))

  poll_decides : (n : ℕ) (w : World P) → Decided n w (poll P n hash w)
  unfolding poll
  poll_decides zero w = inr (inl (tt, refl))
  poll_decides (suc n) w =
      poll_step n w (poll_decides n (record w { node = rest w.node }))
        (polled (P.get_tx hash w.node).0) refl (Sees-polled (P.get_tx hash w.node).0)

  -- For a hash that is not empty, `WaitOnTx` asks the node ten times at most, and sleeps after each reply
  -- that holds no transaction, an error of the call included. It returns the first reply with a
  -- transaction among them, and asks no further; or none of the ten has one, and it gives up; or
  -- the first call that does not end in such a reply panics, and so does it.
  pub wait_on_tx_decides : (w : World P) → (hash == "") ≡ false → Decided 10 w (wait_on_tx P hash w)
  unfolding wait_on_tx
  wait_on_tx_decides w given = rw given (poll_decides 10 w)
