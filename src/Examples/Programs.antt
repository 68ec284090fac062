-- ===== src/Examples/Programs.antt =====
-- The example programs as functions of the node: what each prints, or the error with which `log.Fatalf`
-- ends it (examples/bank/balances.go, connect/connect.go, tendermint/tendermint.go, tx/waittx.go).
use prov_go.Base.{
  String, ◌==◌, Option, none, some, List, [], ◌∷◌, Result, ok, err, panic, Error, Operand, errorf,
  wrapf, str, number, signed, if◌then◌else◌, false,
}
use prov_go.Base.Int.{ℤ}
use prov_go.Config.{new_mainnet_config}
use prov_go.Platform.{Platform, TxReply, TxResponse}
use prov_go.Client.Monad.{World, Action, ◌>>=◌, lift}
use prov_go.Client.Defs.{wait_on_tx}
use prov_go.Client.Setup.{Setup, new_provenance_client}
use prov_go.Client.Balance.{Bank, get_balance}
use prov_go.Client.Services.{Services, get_node_config, Metadata, context_with_block_height}
use prov_go.Stream.Queries.{Queries, GetBalances}
use prov_go.Marker.Account.{Coin}

-- A printed line: its format with what is printed.
pub data Line (A : Type 0) : Type 0 where
  line : String → List Operand → Line A
  value : String → A → Line A

abbrev Prints : Type 0 → Type 0
Prints A = List (Line A)

-- `log.Fatalf` with the error of a call
abbrev pub fatal_at : {P : Platform} {A : Type 0} → String → Action P A → Action P A
fatal_at s m w =
    let (r, w') = m w in
    elim r [ ok a ↦ (ok a, w') | err e ↦ (err (wrapf s [] e), w') | panic t ↦ (panic t, w') ]

module _ (P : Platform) (S : Setup P) where
  -- The program once `NewProvenanceClient` has returned.
  abbrev pub started : {A : Type 0} → Action P A → Result (Unit {0}) × World P → Result A × World P
  started m (ok _, w) = m w
  started m (err e, w) = (err (wrapf "error creating provenance client: %v" [] e), w)
  started m (panic t, w) = (panic t, w)

  -- `NewProvenanceClient(NewMainnetConfig(), nil)`, and what the program does with it.
  abbrev pub with_mainnet : {A : Type 0} → Action P A → P.State → Result A × World P
  with_mainnet m s = started m (new_provenance_client P S new_mainnet_config none s)

  unfoldable pub connect_main : P.State → Result (Prints (Unit {0})) × World P
  unfolding new_provenance_client new_mainnet_config
  connect_main s = with_mainnet (lift (ok (line "connected to provenance" [] ∷ []))) s

  unfoldable pub tendermint_main : (V : Services P) → P.State → Result (Prints V.Config) × World P
  unfolding new_provenance_client new_mainnet_config get_node_config
  tendermint_main V s =
      with_mainnet
        (do
          node_config ← fatal_at "error getting node config: %v" (get_node_config P V)
          lift (ok (value "node config:" node_config ∷ [])))
        s

  unfoldable pub sync_denom_balance : Bank P → (address denom : String) → Action P (Prints Coin)
  unfolding get_balance
  sync_denom_balance B address denom = do
    balance ← fatal_at "error getting account info: %v" (get_balance P B false address denom)
    lift (ok (value "balance:" balance ∷ []))

  -- The two lines, and the third where the log is not empty.
  abbrev pub raw_log_lines : String → Prints (Unit {0})
  raw_log_lines log = if log == "" then [] else line "raw_log:" (str log ∷ []) ∷ []

  abbrev pub tx_lines : TxResponse → Prints (Unit {0})
  tx_lines t =
      line "tx %s included at height %d (code=%d)"
        (str t.tx_hash ∷ signed t.height ∷ number t.code ∷ [])
      ∷ raw_log_lines t.raw_log

  abbrev pub empty_response : Error
  empty_response = errorf "empty tx response" []

  abbrev pub report_tx : TxReply → Result (Prints (Unit {0}))
  report_tx r = elim (r.tx_response) [ none ↦ err empty_response | some t ↦ ok (tx_lines t) ]

  abbrev pub await_tx : String → Action P (Prints (Unit {0}))
  await_tx hash = do r ← fatal_at "wait on tx: %v" (wait_on_tx P hash); lift (report_tx r)

  -- `main` of examples/tx on `os.Args`; the read of `os.Args[0]` panics where there is none.
  unfoldable pub wait_tx_main :
      List String → P.State → Result (Prints (Unit {0})) × Option (World P)
  wait_tx_main [] s = (panic "index out of range", none)
  wait_tx_main (_ ∷ hash ∷ []) s = let (r, w) = with_mainnet (await_tx hash) s in (r, some w)
  wait_tx_main (program ∷ _) s = (err (errorf "usage: %s <tx-hash>" (str program ∷ [])), none)

-- The results that `syncBalances` and `syncBalancesWithHeight` can print: those of `GetBalances`, with
-- the queries that the context's metadata gives.
module _ (at : Metadata → Queries) where
  unfoldable pub SyncBalances : (address : String) → Result (List ((at []).Coin)) → Type 0
  SyncBalances address = GetBalances (at []) address

  abbrev pub height_queries : ℤ → Queries
  height_queries height = at (context_with_block_height height [])

  unfoldable pub SyncBalancesWithHeight :
      (address : String) (height : ℤ) → Result (List ((height_queries height).Coin)) → Type 0
  SyncBalancesWithHeight address height = GetBalances (height_queries height) address
