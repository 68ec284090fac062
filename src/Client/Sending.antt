-- ===== src/Client/Sending.antt =====
-- What `BroadcastMsgs` (pkg/demoprime/contract/base_client.go) does on each path.
use prov_go.Base.{
  List, Result, String, ap, arith, err, inl, inr, none, ok, panic, refl, some, suc, zero, ℕ, ◌%◌,
  ◌+◌, ◌^◌, ◌∙◌, ◌≡◌, ◌≢◌, ◌⊎◌,
}
use prov_go.Platform.{Bytes, Platform, TxResponse}
use prov_go.Client.Monad.{World}
use prov_go.Client.Defs.{broadcast_tx, next_sequence, poll, sign_tx, wait_on_tx}
use prov_go.Client.Submit.{
  broadcast_msgs, check_code, confirm, done, failed, no_signer, require_signer, submit,
}
use prov_go.Client.Signing.{Resynced, sign_tx-client}

check_code_failed :
    (pkg : String) (r : Result TxResponse)
    → ((t : TxResponse) → r ≢ ok t)
    → (t : TxResponse) → check_code pkg r ≢ done t
unfolding check_code
check_code_failed pkg (ok u) bad t = absurd (bad u refl)
check_code_failed pkg (err e) bad t = λ q. cc
check_code_failed pkg (panic x) bad t = λ q. cc

module _ (P : Platform) where
  poll-client : (n : ℕ) (hash : String) (w : World P) → (poll P n hash w).1.client ≡ w.client
  unfolding poll
  poll-client zero hash w = refl
  poll-client (suc n) hash w =
      ground (arith, poll-client n hash (record w { node = P.sleep (P.get_tx hash w.node).1 }))

  wait_on_tx-client : (hash : String) (w : World P) → (wait_on_tx P hash w).1.client ≡ w.client
  unfolding wait_on_tx
  wait_on_tx-client hash w = ground (arith, poll-client 10 hash w)

  pub broadcast_tx-client : (tx : Bytes) (w : World P) → (broadcast_tx P tx w).1.client ≡ w.client
  unfolding broadcast_tx
  broadcast_tx-client tx w = ground arith

  confirm-client :
      (pkg : String) (tx : Bytes) (w : World P) → (confirm P pkg tx w).1.client ≡ w.client
  unfolding confirm
  confirm-client pkg tx w = grind (arith, broadcast_tx-client, wait_on_tx-client)

  -- With no key nothing is signed or sent: the world stays as it was.
  broadcast_msgs_unsigned :
      (msgs : List P.Msg) (w : World P)
      → w.client.priv_key ≡ none
      → broadcast_msgs P msgs w ≡ (failed none no_signer, w)
  unfolding broadcast_msgs submit require_signer check_code
  broadcast_msgs_unsigned msgs w h = ground arith

  -- The client with the next sequence number taken.
  abbrev pub taken : World P → World P
  taken w = (next_sequence P w).1

  -- A call that ends in `(r, w')` from `w` has kept the client, or moved its sequence number to the
  -- account's and failed.
  abbrev pub Accounted : {A : Type 0} → World P → Result A × World P → Type 0
  Accounted {A} w (r, w') = (w'.client ≡ w.client) ⊎ (Resynced P w w' × ((a : A) → r ≢ ok a))

  module _ (pkg : String) (msgs : List P.Msg) (key : Bytes) (w : World P)
      (signer : w.client.priv_key ≡ some key) where
    abbrev signed : Result Bytes × World P
    signed = sign_tx P msgs key w.client.account_number w.client.sequence 0 (taken w)

    submit_signed :
        (tx : Bytes) → signed.0 ≡ ok tx → submit P pkg msgs w ≡ confirm P pkg tx signed.1
    unfolding submit require_signer next_sequence
    submit_signed tx e = ground arith

    submit_unsigned :
        ((tx : Bytes) → signed.0 ≢ ok tx)
        → ((submit P pkg msgs w).1 ≡ signed.1) × ((t : TxResponse) → (submit P pkg msgs w).0 ≢ ok t)
    unfolding submit require_signer next_sequence
    submit_unsigned bad = (grind arith, λ t. grind arith)

    submit-Accounted : Accounted (taken w) (submit P pkg msgs w)
    submit-Accounted = by_result signed.0 refl
      where
        moved : Accounted (taken w) signed
        moved = sign_tx-client P msgs key w.client.account_number w.client.sequence 0 (taken w)

        sent :
            (tx : Bytes)
            → signed.0 ≡ ok tx
            → Accounted (taken w) signed
            → Accounted (taken w) (submit P pkg msgs w)
        sent tx e (inl k) =
            inl (ap (λ x. x.1.client) (submit_signed tx e) ∙ confirm-client pkg tx signed.1 ∙ k)
        sent tx e (inr (_, bad)) = absurd (bad tx e)

        unsent :
            ((submit P pkg msgs w).1 ≡ signed.1)
              × ((t : TxResponse) → (submit P pkg msgs w).0 ≢ ok t)
            → Accounted (taken w) signed
            → Accounted (taken w) (submit P pkg msgs w)
        unsent (same, bad) (inl k) = inl (ap (λ x. x.client) same ∙ k)
        unsent (same, bad) (inr (k, _)) = inr (rw same k, bad)

        by_result : (r : Result Bytes) → signed.0 ≡ r → Accounted (taken w) (submit P pkg msgs w)
        by_result (ok tx) e = sent tx e moved
        by_result (err x) e = unsent (submit_unsigned (λ tx q. cc)) moved
        by_result (panic x) e = unsent (submit_unsigned (λ tx q. cc)) moved

  -- For a client with a key: `BroadcastMsgs` takes exactly one sequence number, whether the
  -- transaction goes through or not, or leaves the account's number on the chain in its place; in
  -- the second case it does not succeed.
  pub broadcast_msgs_sequence :
      (msgs : List P.Msg) (key : Bytes) (w : World P)
      → w.client.priv_key ≡ some key
      → let (r, w') = broadcast_msgs P msgs w in
        (w'.client ≡ record (w.client) { sequence = (w.client.sequence + 1) % 2 ^ 64 })
        ⊎ (Resynced P w w' × ((t : TxResponse) → r ≢ done t))
  unfolding broadcast_msgs next_sequence
  broadcast_msgs_sequence msgs key w signer =
      count (submit-Accounted "demoprime/contract" msgs key w signer)
    where
      count :
          Accounted (taken w) (submit P "demoprime/contract" msgs w)
          → ((broadcast_msgs P msgs w).1.client
              ≡ record (w.client) { sequence = (w.client.sequence + 1) % 2 ^ 64 })
            ⊎ (Resynced P w (broadcast_msgs P msgs w).1
                × ((t : TxResponse) → (broadcast_msgs P msgs w).0 ≢ done t))
      count (inl k) = inl k
      count (inr (k, bad)) = inr (k, check_code_failed "demoprime/contract" _ bad)
