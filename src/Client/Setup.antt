-- ===== src/Client/Setup.antt =====
-- `NewProvenanceClient` and `connect` (pkg/provenance/prov.go), `NewGRPCConnection` (grpc.go),
-- `ReadMnemonic` and `PrivKeyFromMnemonic` (keys.go). The global settings of the SDK, gRPC, the
-- files and BIP-39 are parameters. The pool of workers keeps no state that is modelled.
use prov_go.Base.{
  ℕ, Bool, String, Option, none, some, List, [], Result, ok, errorf, codes, trim_space, is_nil,
  if◌then◌else◌,
}
use prov_go.Config.{BlockchainConfig}
use prov_go.Platform.{Platform, Bytes, BaseAccount}
use prov_go.Client.Monad.{World, Action, ProvenanceClient, ◌>>=◌, ◌>>◌, lift, call, wrapping, guard}
use prov_go.Client.Defs.{reset_sequence}

pub record Setup (P : Platform) : Type 0 where
  pub configure : BlockchainConfig → P.State → Result (Unit {0}) × P.State  -- `sdk.GetConfig`, its setters and `Seal`
  pub dial : String → (secure : Bool) → P.State → Result (Unit {0}) × P.State  -- `grpc.NewClient`
  pub read_file : String → P.State → Result (List ℕ) × P.State
  pub is_mnemonic_valid : List ℕ → Bool
  pub derive : (coin_type : ℕ) → List ℕ → Result Bytes  -- on the HD path of the coin type
  pub address_of : Bytes → String

module _ (P : Platform) (S : Setup P) where
  -- TLS credentials where `secure` is set, and no check of the connection otherwise.
  unfoldable pub new_grpc_connection : String → Bool → Action P (Unit {0})
  new_grpc_connection uri secure = call (S.dial uri secure)

  unfoldable pub connect : BlockchainConfig → Action P (Unit {0})
  connect conf = do
    call (S.configure conf)
    wrapping "error creating gRPC connection: %w" (new_grpc_connection conf.uri conf.tls)

  abbrev pub check_mnemonic : List ℕ → Action P (List ℕ)
  check_mnemonic text = do
    guard (S.is_mnemonic_valid (trim_space text)) (errorf "invalid mnemonic" [])
    lift (ok (trim_space text))

  unfoldable pub read_mnemonic : String → Action P (List ℕ)
  unfolding trim_space
  read_mnemonic path = do text ← call (S.read_file path); check_mnemonic text

  unfoldable pub priv_key_from_mnemonic : BlockchainConfig → List ℕ → Result Bytes
  priv_key_from_mnemonic conf mnemonic = S.derive conf.coin_type mnemonic

  abbrev pub put_client : ProvenanceClient → Action P (Unit {0})
  put_client c w = (ok tt, record w { client = c })

  -- The client of a connection, before its key is known.
  abbrev pub unsigned : BlockchainConfig → ProvenanceClient
  unsigned conf = record {
    priv_key = none;
    chain_id = conf.chain_id;
    denom = conf.denom;
    address = "";
    account_number = 0;
    sequence = 0;
  }

  abbrev pub keyed : BlockchainConfig → Bytes → ProvenanceClient
  keyed conf key = record (unsigned conf) { priv_key = some key; address = S.address_of key }

  abbrev pub numbered : BlockchainConfig → Bytes → BaseAccount → ProvenanceClient
  numbered conf key info = record (keyed conf key) {
    account_number = info.account_number;
    sequence = info.sequence;
  }

  -- The account of the key.
  abbrev pub load_account : BlockchainConfig → Bytes → Action P (Unit {0})
  load_account conf key = do
    put_client (keyed conf key)
    info ← wrapping "error getting account info: %w" (reset_sequence P)
    put_client (numbered conf key info)

  abbrev pub load_key : BlockchainConfig → List ℕ → Action P (Unit {0})
  load_key conf mnemonic = do
    key ←
        wrapping "error deriving key from mnemonic: %w"
          (lift (priv_key_from_mnemonic conf mnemonic))
    load_account conf key

  abbrev pub load_signer : BlockchainConfig → String → Action P (Unit {0})
  load_signer conf path = do
    mnemonic ← wrapping "error reading mnemonic: %w" (read_mnemonic path)
    load_key conf mnemonic

  abbrev pub load_path : BlockchainConfig → Option String → Action P (Unit {0})
  load_path conf none = lift (ok tt)
  load_path conf (some path) =
      if is_nil (trim_space (codes path)) then lift (ok tt) else load_signer conf path

  -- The client of the world after it is the one that is returned, unless there is an error.
  unfoldable pub new_provenance_client :
      BlockchainConfig → Option String → P.State → Result (Unit {0}) × World P
  unfolding trim_space
  new_provenance_client conf path s =
      (wrapping "error creating gRPC connection: %w" (connect conf) >>= λ _. load_path conf path)
        (record { client = unsigned conf; node = s })
