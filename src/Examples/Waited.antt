-- ===== src/Examples/Waited.antt =====
-- What the program of examples/tx prints.
use prov_go.Base.{◌≡◌, ◌⊎◌, String, none, some, List, [], Result, ok, err, panic, Error, wrapf}
use prov_go.Platform.{Platform, TxReply, TxResponse}
use prov_go.Client.Setup.{Setup, new_provenance_client}
use prov_go.Config.{new_mainnet_config}
use prov_go.Client.Monad.{World}
use prov_go.Client.Defs.{wait_on_tx}
use prov_go.Examples.Programs.{Line, tx_lines}

module _ (P : Platform) (S : Setup P) (hash : String) where
  -- A reply with a transaction.
  abbrev HasTx : TxReply → Type 0
  HasTx r = (t : TxResponse) × (r.tx_response ≡ some t)

  -- The lines are those of a transaction that the node has given; an error is that of `WaitOnTx` or of
  -- making the client.
  abbrev pub IsAwaited : P.State → Result (List (Line (Unit {0}))) → Type 0
  IsAwaited s (ok lines) =
      (w : World P) × (r : TxReply) × (t : TxResponse) × ((wait_on_tx P hash w).0 ≡ ok r)
      × (r.tx_response ≡ some t)
      × (lines ≡ tx_lines P S t)
  IsAwaited s (err e) =
      (x : Error) × (((w : World P) × ((wait_on_tx P hash w).0 ≡ err x)
          × (e ≡ wrapf "wait on tx: %v" [] x))
        ⊎ (((new_provenance_client P S new_mainnet_config none s).0 ≡ err x)
            × (e ≡ wrapf "error creating provenance client: %v" [] x)))
  IsAwaited s (panic _) = Unit
