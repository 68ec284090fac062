-- ===== src/Client/Transact.antt =====
-- The end of the methods that send one transaction and do not wait for it: `RegistryBulkUpdate`
-- (pkg/provenance/registry.go), `CreateScope`, `DeleteScope` and `UpdateRecords` (metadata.go).
use prov_go.Base.{List, Result, ap, arith, refl, err, inl, inr, ok, panic, some, ◌∙◌, ◌≡◌, ◌≢◌}
use prov_go.Platform.{Bytes, Platform, TxReply}
use prov_go.Client.Monad.{World, Action, ◌>>=◌, gets, deref, wrapping}
use prov_go.Client.Defs.{broadcast_tx, next_sequence, sign_tx}
use prov_go.Client.Signing.{sign_tx-client}
use prov_go.Client.Sending.{broadcast_tx-client, taken, Accounted}

module _ (P : Platform) where
  -- A client without a key panics on it.
  unfoldable pub transact : List P.Msg → Action P TxReply
  transact msgs = do
    key ← deref (← gets (λ c. c.priv_key))
    account_number ← gets (λ c. c.account_number)
    sequence ← next_sequence P
    tx ← wrapping "error creating tx: %w" (sign_tx P msgs key account_number sequence 0)
    wrapping "error broadcasting transaction: %w" (broadcast_tx P tx)

  module _ (msgs : List P.Msg) (key : Bytes) (w : World P)
      (signer : w.client.priv_key ≡ some key) where
    abbrev signed : Result Bytes × World P
    signed = sign_tx P msgs key w.client.account_number w.client.sequence 0 (taken P w)

    transact_signed :
        (tx : Bytes) → signed.0 ≡ ok tx → (transact msgs w).1 ≡ (broadcast_tx P tx signed.1).1
    unfolding transact next_sequence
    transact_signed tx e = ground arith

    transact_unsigned :
        ((tx : Bytes) → signed.0 ≢ ok tx)
        → ((transact msgs w).1 ≡ signed.1) × ((t : TxReply) → (transact msgs w).0 ≢ ok t)
    unfolding transact next_sequence
    transact_unsigned bad = (grind arith, λ t. grind arith)

    -- Exactly one sequence number is taken, or the account's number is left in its place, and then
    -- the call fails.
    pub transact-Accounted : Accounted P (taken P w) (transact msgs w)
    transact-Accounted = by_result signed.0 refl
      where
        moved : Accounted P (taken P w) signed
        moved = sign_tx-client P msgs key w.client.account_number w.client.sequence 0 (taken P w)

        sent :
            (tx : Bytes)
            → signed.0 ≡ ok tx
            → Accounted P (taken P w) signed
            → Accounted P (taken P w) (transact msgs w)
        sent tx e (inl k) =
            inl (ap (λ x. x.client) (transact_signed tx e) ∙ broadcast_tx-client P tx signed.1 ∙ k)
        sent tx e (inr (_, bad)) = absurd (bad tx e)

        unsent :
            ((transact msgs w).1 ≡ signed.1) × ((t : TxReply) → (transact msgs w).0 ≢ ok t)
            → Accounted P (taken P w) signed
            → Accounted P (taken P w) (transact msgs w)
        unsent (same, bad) (inl k) = inl (ap (λ x. x.client) same ∙ k)
        unsent (same, bad) (inr (k, _)) = inr (rw same k, bad)

        by_result : (r : Result Bytes) → signed.0 ≡ r → Accounted P (taken P w) (transact msgs w)
        by_result (ok tx) e = sent tx e moved
        by_result (err x) e = unsent (transact_unsigned (λ tx q. cc)) moved
        by_result (panic x) e = unsent (transact_unsigned (λ tx q. cc)) moved
