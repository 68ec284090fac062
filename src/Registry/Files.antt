-- ===== src/Registry/Files.antt =====
-- The files of the registry loader (examples/registry/loader.go): `generateCmd`, and `loadCmd` up to
-- its loop. The protobuf codec and `encoding/json` are parameters; the flags are arguments, and the
-- bytes of a file stand for the file.
use prov_go.Base.{
  ℕ, suc, ◌+◌, String, ◌==◌, List, [], ◌∷◌, ◌++◌, none, some, Result, ok, err, panic, errorf, wrapf,
  str, number, Operand, ◌>>=◌, if◌then◌else◌,
}
use prov_go.Base.Base64.{base64_encode, base64_decode}
use prov_go.Config.{BlockchainConfig, new_mainnet_config, new_testnet_config}
use prov_go.Platform.{Platform, Bytes}
use prov_go.Client.Monad.{World}
use prov_go.Client.Setup.{Setup, new_provenance_client}
use prov_go.Registry.Update.{Registry, Loading, load}

pub record Codec (Entry : Type 0) : Type 0 where
  pub marshal_json : Entry → Result Bytes
  pub unmarshal_json : Bytes → Result Entry
  pub unmarshal_array : Bytes → Result (List Bytes)  -- `json.Unmarshal` into a `[]json.RawMessage`

-- `log.Fatalf` with the error of a call
abbrev pub or_fatal {ℓ} : {A : Type ℓ} → String → List Operand → Result A → Result A
or_fatal s operands (ok a) = ok a
or_fatal s operands (err e) = err (wrapf s operands e)
or_fatal s operands (panic t) = panic t

-- The buffer: a comma before every value but the first.
abbrev pub followed : List Bytes → Bytes
followed [] = []
followed (raw ∷ raws) = b',' ∷ (raw ++ followed raws)

unfoldable pub json_array : List Bytes → Bytes
json_array [] = b'[' ∷ b']' ∷ []
json_array (raw ∷ raws) = b'[' ∷ (raw ++ (followed raws ++ b']' ∷ []))

module _ {Entry : Type 0} (C : Codec Entry) where
  -- The entries of the raw values from number `i + 1` on.
  unfoldable pub unmarshal_entries : ℕ → List Bytes → Result (List Entry)
  unmarshal_entries i [] = ok []
  unmarshal_entries i (raw ∷ raws) = do
    e ← or_fatal "error unmarshalling entry %d: %v" (number (i + 1) ∷ []) (C.unmarshal_json raw)
    es ← unmarshal_entries (suc i) raws
    ok (e ∷ es)

  unfoldable pub marshal_entries : ℕ → List Entry → Result (List Bytes)
  marshal_entries i [] = ok []
  marshal_entries i (e ∷ es) = do
    raw ← or_fatal "error marshalling entry %d: %v" (number (i + 1) ∷ []) (C.marshal_json e)
    raws ← marshal_entries (suc i) es
    ok (raw ∷ raws)

  -- What `generateCmd` writes for what it has read.
  unfoldable pub generate : Bytes → Result Bytes
  unfolding json_array base64_encode marshal_entries unmarshal_entries
  generate input = do
    raws ← or_fatal "error unmarshalling JSON array: %v" [] (C.unmarshal_array input)
    entries ← unmarshal_entries 0 raws
    texts ← marshal_entries 0 entries
    ok (base64_encode (json_array texts))

  abbrev pub decoded : Bytes → Result Bytes
  decoded file = elim (base64_decode file) [
    | none ↦ err (errorf "error decoding base64 entries: %v" [])
    | some text ↦ ok text
  ]

  abbrev pub parse_text : Bytes → Result (List Entry)
  parse_text text = do
    raws ← or_fatal "error unmarshalling decoded JSON array: %v" [] (C.unmarshal_array text)
    unmarshal_entries 0 raws

  abbrev pub refuse_empty : List Entry → Result (List Entry)
  refuse_empty [] = err (errorf "no registry entries found in decoded data" [])
  refuse_empty (e ∷ es) = ok (e ∷ es)

  -- The entries that `loadCmd` reads from a file.
  unfoldable pub read_entries : Bytes → Result (List Entry)
  unfolding base64_decode unmarshal_entries
  read_entries file = do text ← decoded file; entries ← parse_text text; refuse_empty entries

unfoldable pub choose_network : String → Result BlockchainConfig
unfolding new_mainnet_config new_testnet_config
choose_network network =
    if network == "mainnet"
    then ok new_mainnet_config
    else if network == "testnet"
    then ok new_testnet_config
    else err (errorf "invalid network %q: must be mainnet or testnet" (str network ∷ []))

module _ (P : Platform) (S : Setup P) (R : Registry P) (C : Codec R.Entry) where
  -- What was reported, and the node's state at the end.
  abbrev pub Ending : Type 0
  Ending = Loading P R × P.State

  -- A failure before the first slice.
  abbrev pub stopped : Result (Unit {0}) → P.State → Ending
  stopped r s = (record { reported = []; outcome = r }, s)

  abbrev pub with_client : List R.Entry → Result (Unit {0}) × World P → Ending
  with_client entries (ok _, w) = let (l, w') = load P R entries w in (l, w'.node)
  with_client entries (err e, w) =
      stopped (err (wrapf "error creating provenance client: %v" [] e)) w.node
  with_client entries (panic t, w) = stopped (panic t) w.node

  abbrev pub with_network : String → List R.Entry → Result BlockchainConfig → P.State → Ending
  with_network mnemonic entries (ok conf) s =
      with_client entries (new_provenance_client P S conf (some mnemonic) s)
  with_network mnemonic entries (err e) s = stopped (err e) s
  with_network mnemonic entries (panic t) s = stopped (panic t) s

  abbrev pub with_entries : String → String → Result (List R.Entry) → P.State → Ending
  with_entries mnemonic network (ok entries) s =
      with_network mnemonic entries (choose_network network) s
  with_entries mnemonic network (err e) s = stopped (err e) s
  with_entries mnemonic network (panic t) s = stopped (panic t) s

  -- `loadCmd` on the bytes of its file.
  unfoldable pub load_cmd : Bytes → (mnemonic network : String) → P.State → Ending
  unfolding read_entries choose_network new_provenance_client load
  load_cmd file mnemonic network s =
      if mnemonic == ""
      then stopped (err (errorf "mnemonic-file is required" [])) s
      else with_entries mnemonic network (read_entries C file) s
