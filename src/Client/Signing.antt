-- ===== src/Client/Signing.antt =====
-- What `ResetSequence` and `SignTx` (pkg/provenance/prov.go) do to the client's sequence number.
use prov_go.Base.{
  Bool-cases, Error, List, Result, Result-cases, String, ap, arith, err, false, inl, inr, ok, panic,
  subst, true, ℕ, ◌==◌, ◌∙◌, ◌≡◌, ◌≢◌, ◌⊎◌,
}
use prov_go.Platform.{BaseAccount, Bytes, GasInfo, Platform}
use prov_go.Client.Monad.{ProvenanceClient, World}
use prov_go.Client.Defs.{
  draft_tx, finish_tx, get_account_info, next_sequence, reset_sequence, sign_tx, simulate_tx,
}

module _ (P : Platform) where
  get_account_info-client :
      (a : String) (w : World P) → (get_account_info P a w).1.client ≡ w.client
  unfolding get_account_info
  get_account_info-client a w = ground arith

  simulate_tx-client : (b : P.Builder) (w : World P) → (simulate_tx P b w).1.client ≡ w.client
  unfolding simulate_tx
  simulate_tx-client b w = ground arith

  -- The client of `w'` is that of `w`, with the sequence number of its account on the chain.
  abbrev pub Resynced : World P → World P → Type 0
  Resynced w w' =
      (b : BaseAccount) × (v : World P) × ((get_account_info P w.client.address v).0 ≡ ok b)
      × (w'.client ≡ record (w.client) { sequence = b.sequence })

  reset_known :
      (w : World P) (b : BaseAccount)
      → (w.client.address == "") ≡ false
      → (get_account_info P w.client.address w).0 ≡ ok b
      → (reset_sequence P w).1.client ≡ record (w.client) { sequence = b.sequence }
  unfolding reset_sequence
  reset_known w b given e = ground (arith, get_account_info-client w.client.address w)

  reset_failed :
      (w : World P)
      → ((b : BaseAccount) → (get_account_info P w.client.address w).0 ≢ ok b)
      → (reset_sequence P w).1.client ≡ w.client
  unfolding reset_sequence
  reset_failed w bad = grind (arith, get_account_info-client)

  reset_blank :
      (w : World P) → (w.client.address == "") ≡ true → (reset_sequence P w).1.client ≡ w.client
  unfolding reset_sequence
  reset_blank w blank = ground arith

  reset_sequence-client :
      (w : World P) → ((reset_sequence P w).1.client ≡ w.client) ⊎ Resynced w (reset_sequence P w).1
  reset_sequence-client w = elim (Bool-cases (w.client.address == "")) [
    | inl blank ↦ inl (reset_blank w blank)
    | inr given ↦ elim (Result-cases (get_account_info P w.client.address w).0) [
      | inl (b, e) ↦ inr (b, w, e, reset_known w b given e)
      | inr (inl (x, e)) ↦ inl (reset_failed w (λ b q. cc))
      | inr (inr (x, e)) ↦ inl (reset_failed w (λ b q. cc))
    ]
  ]

  finish_tx-client :
      (d : P.Builder) (key : Bytes) (account_number sequence fee : ℕ) (g : GasInfo) (w : World P)
      → (finish_tx P d key account_number sequence fee g w).1.client ≡ w.client
  unfolding finish_tx
  finish_tx-client d key account_number sequence fee g w = ground arith

  Resynced-from : (v w u : World P) → v.client ≡ w.client → Resynced v u → Resynced w u
  Resynced-from v w u same (b, x, e, q) = (
    b,
    x,
    subst (λ (c : ProvenanceClient). (get_account_info P c.address x).0 ≡ ok b) same e,
    subst (λ (c : ProvenanceClient). u.client ≡ record c { sequence = b.sequence }) same q,
  )

  -- `SignTx` by the outcome of the simulation.
  module _ (msgs : List P.Msg) (key : Bytes) (account_number sequence fee : ℕ) (w : World P)
      (d : P.Builder) (drafted : draft_tx P msgs key sequence ≡ ok d) where
    sign_tx_simulated :
        (g : GasInfo)
        → (simulate_tx P d w).0 ≡ ok g
        → sign_tx P msgs key account_number sequence fee w
          ≡ finish_tx P d key account_number sequence fee g (simulate_tx P d w).1
    unfolding sign_tx
    sign_tx_simulated g q = ground arith

    sign_tx_unsimulated :
        (x : Error)
        → (simulate_tx P d w).0 ≡ err x
        → let (r, w') = sign_tx P msgs key account_number sequence fee w in
          (w' ≡ (reset_sequence P (simulate_tx P d w).1).1) × ((a : Bytes) → r ≢ ok a)
    unfolding sign_tx
    sign_tx_unsimulated x q = (ground arith, λ a. ground arith)

    sign_tx_broken :
        (t : String)
        → (simulate_tx P d w).0 ≡ panic t
        → sign_tx P msgs key account_number sequence fee w ≡ (panic t, (simulate_tx P d w).1)
    unfolding sign_tx
    sign_tx_broken t q = ground arith

  sign_tx_undrafted :
      (msgs : List P.Msg) (key : Bytes) (account_number sequence fee : ℕ) (w : World P)
      → ((d : P.Builder) → draft_tx P msgs key sequence ≢ ok d)
      → (sign_tx P msgs key account_number sequence fee w).1.client ≡ w.client
  unfolding sign_tx
  sign_tx_undrafted msgs key account_number sequence fee w bad = grind arith

  -- `SignTx` leaves the client alone, except that a simulation that fails may move the sequence
  -- number to that of the account on the chain; the result is then an error or a panic.
  pub sign_tx-client :
      (msgs : List P.Msg) (key : Bytes) (account_number sequence fee : ℕ) (w : World P)
      → let (r, w') = sign_tx P msgs key account_number sequence fee w in
        (w'.client ≡ w.client) ⊎ (Resynced w w' × ((a : Bytes) → r ≢ ok a))
  sign_tx-client msgs key account_number sequence fee w =
      elim (Result-cases (draft_tx P msgs key sequence)) [
        | inl (d, e) ↦ elim (Result-cases (simulate_tx P d w).0) [
          | inl (g, q) ↦ inl (
              ap (λ x. x.1.client)
                (sign_tx_simulated msgs key account_number sequence fee w d e g q)
              ∙ finish_tx-client d key account_number sequence fee g _
              ∙ simulate_tx-client d w)
          | inr (inl (x, q)) ↦
              by_reset d (sign_tx_unsimulated msgs key account_number sequence fee w d e x q)
                (reset_sequence-client (simulate_tx P d w).1)
          | inr (inr (x, q)) ↦ inl (
              ap (λ x. x.1.client) (sign_tx_broken msgs key account_number sequence fee w d e x q)
              ∙ simulate_tx-client d w)
        ]
        | inr (inl (x, e)) ↦
            inl (sign_tx_undrafted msgs key account_number sequence fee w (λ d q. cc))
        | inr (inr (x, e)) ↦
            inl (sign_tx_undrafted msgs key account_number sequence fee w (λ d q. cc))
      ]
    where
      signed : Result Bytes × World P
      signed = sign_tx P msgs key account_number sequence fee w

      by_reset :
          (d : P.Builder)
          → (signed.1 ≡ (reset_sequence P (simulate_tx P d w).1).1)
            × ((a : Bytes) → signed.0 ≢ ok a)
          → ((reset_sequence P (simulate_tx P d w).1).1.client ≡ (simulate_tx P d w).1.client)
            ⊎ Resynced (simulate_tx P d w).1 (reset_sequence P (simulate_tx P d w).1).1
          → (signed.1.client ≡ w.client) ⊎ (Resynced w signed.1 × ((a : Bytes) → signed.0 ≢ ok a))
      by_reset d (same, bad) (inl k) = inl (ap (λ x. x.client) same ∙ k ∙ simulate_tx-client d w)
      by_reset d (same, bad) (inr k) = inr (
        rw same (
            Resynced-from (simulate_tx P d w).1 w (reset_sequence P (simulate_tx P d w).1).1
              (simulate_tx-client d w) k),
        bad,
      )

  -- When the simulation of a drafted transaction fails by an error, the client has an address, and
  -- the account can be read after it, `SignTx` gives
  -- the simulation's error, and the next call of `NextSequence` gets the account's number on the chain.
  pub sign_tx_resyncs :
      (msgs : List P.Msg) (key : Bytes) (account_number sequence fee : ℕ) (w : World P)
      (d : P.Builder) (x : Error) (b : BaseAccount)
      → draft_tx P msgs key sequence ≡ ok d
      → (simulate_tx P d w).0 ≡ err x
      → (w.client.address == "") ≡ false
      → (get_account_info P w.client.address (simulate_tx P d w).1).0 ≡ ok b
      → let (r, w') = sign_tx P msgs key account_number sequence fee w in
        (r ≡ err x) × ((next_sequence P w').0 ≡ ok b.sequence)
  unfolding sign_tx reset_sequence next_sequence
  sign_tx_resyncs msgs key account_number sequence fee w d x b drafted failed given known =
      (ground (arith, simulate_tx-client d w), ground (arith, simulate_tx-client d w))
