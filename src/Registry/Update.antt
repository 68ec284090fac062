-- ===== src/Registry/Update.antt =====
-- `RegistryBulkUpdate` (pkg/provenance/registry.go), and the loop of `loadCmd`
-- (examples/registry/loader.go) that sends the entries and waits for each transaction. The entries
-- and their message are those of the registry module, a parameter. A `log.Fatalf` is an error that
-- ends the program; what is printed is the list of the slices that have gone through.
use prov_go.Base.{
  ℕ, zero, suc, ◌+◌, Bool, String, Option, none, some, List, [], ◌∷◌, Result, ok, err, panic, Error,
  errorf, wrapf, str, number, length, false, ltb, nat_eq, if◌then◌else◌,
}
use prov_go.Platform.{Platform, TxResponse, TxReply}
use prov_go.Client.Monad.{World, Action, ◌>>=◌, gets, deref, guard}
use prov_go.Client.Defs.{wait_on_tx}
use prov_go.Client.Transact.{transact}
use prov_go.Registry.Slices.{slice, slice_end, max_per_tx}

pub record Registry (P : Platform) : Type 1 where
  pub Entry : Type 0
  pub bulk_update : (signer : String) → List Entry → P.Msg

module _ (P : Platform) (R : Registry P) where
  unfoldable pub registry_bulk_update : List R.Entry → Action P TxReply
  registry_bulk_update entries = do
    signer ← gets (λ c. c.address)
    transact P (R.bulk_update signer entries ∷ [])

  -- An error of a call, under a text of the loader.
  abbrev pub relabel : {A : Type 0} → (Error → Error) → Result A → Result A
  relabel f (ok a) = ok a
  relabel f (err e) = err (f e)
  relabel f (panic s) = panic s

  abbrev pub fatal : {A : Type 0} → (Error → Error) → Action P A → Action P A
  fatal f m w = let (r, w') = m w in (relabel f r, w')

  abbrev pub has_succeeded : Option TxResponse → Bool
  has_succeeded none = false
  has_succeeded (some t) = nat_eq t.code 0

  abbrev pub check_found : TxResponse → TxReply → Action P (Unit {0})
  check_found sent got =
      guard (has_succeeded got.tx_response)
        (errorf "Failed to find tx in block for tx hash: %s" (str sent.tx_hash ∷ []))

  abbrev pub await_sent : TxResponse → Action P (Unit {0})
  await_sent sent = do
    got ← fatal (wrapf "error waiting on tx: %v" []) (wait_on_tx P sent.tx_hash)
    check_found sent got

  abbrev pub await_reply : TxReply → Action P (Unit {0})
  await_reply resp = do sent ← deref resp.tx_response; await_sent sent

  -- The body of the loop for `entries[i:end]`.
  unfoldable pub load_batch : ℕ → ℕ → List R.Entry → Action P (Unit {0})
  load_batch i end batch = do
    resp ←
        fatal
          (wrapf "error executing RegistryBulkUpdate (batch %d-%d): %v"
            (number (i + 1) ∷ number end ∷ []))
          (registry_bulk_update batch)
    await_reply resp

  -- How the program ends, and the slices it has reported by then.
  abbrev pub Loading : Type 0
  Loading = record { reported : List (List R.Entry); outcome : Result (Unit {0}) }

  -- The end of a round whose slice has given `r`; `rest` are the rounds after it.
  abbrev pub end_round :
      List R.Entry → Result (Unit {0}) → World P → Loading × World P → Loading × World P
  end_round batch (ok _) w (l, w') =
      (record { reported = batch ∷ l.reported; outcome = l.outcome }, w')
  end_round batch (err e) w rest = (record { reported = []; outcome = err e }, w)
  end_round batch (panic s) w rest = (record { reported = []; outcome = panic s }, w)

  -- The rounds from the index `i`; the first argument bounds how many there are.
  unfoldable pub load_from : ℕ → ℕ → List R.Entry → World P → Loading × World P
  load_from zero i entries w = (record { reported = []; outcome = ok tt }, w)
  load_from (suc n) i entries w =
      let end = slice_end i entries in
      let batch = slice i end entries in
      let (r, w') = load_batch i end batch w in
      let rest = load_from n (i + max_per_tx) entries w' in
      if ltb i (length entries)
      then end_round batch r w' rest
      else (record { reported = []; outcome = ok tt }, w)

  -- As many rounds as there are entries are enough.
  unfoldable pub load : List R.Entry → World P → Loading × World P
  unfolding load_from
  load entries w = load_from (length entries) 0 entries w
