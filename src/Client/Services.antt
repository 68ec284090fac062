-- ===== src/Client/Services.antt =====
-- The methods that pass one call on (pkg/provenance/node.go, tendermint.go; `fetchBlock` of
-- pkg/demoprime/pool/client.go), `Close` and `ContextWithBlockHeight` (prov.go), and `Codec` and
-- `NewTxConfig` (grpc.go).
use prov_go.Base.{String, List, [], ◌∷◌, ◌++◌, Option, Result}
use prov_go.Base.Int.{ℤ}
use prov_go.Platform.{Platform}
use prov_go.Client.Monad.{Action, call}
use prov_go.Pool.Json.{decimal}
use prov_go.Pool.Block.{BlockReply}

-- The services of the node, and the end of the connection.
pub record Services (P : Platform) : Type 1 where
  pub Status : Type 0
  pub Config : Type 0
  pub status : P.State → Result Status × P.State
  pub config : P.State → Result Config × P.State
  pub block_by_height : ℤ → P.State → Result (Option BlockReply) × P.State
  pub latest_block : P.State → Result (Option BlockReply) × P.State
  pub close_conn : P.State → Result (Unit {0}) × P.State

module _ (P : Platform) (V : Services P) where
  unfoldable pub get_node_info : Action P V.Status
  get_node_info = call V.status

  unfoldable pub get_node_config : Action P V.Config
  get_node_config = call V.config

  unfoldable pub get_block_by_height : ℤ → Action P (Option BlockReply)
  get_block_by_height height = call (V.block_by_height height)

  unfoldable pub get_latest_block : Action P (Option BlockReply)
  get_latest_block = call V.latest_block

  unfoldable pub fetch_block : ℤ → Action P (Option BlockReply)
  fetch_block height = call (V.block_by_height height)

  unfoldable pub close : Action P (Unit {0})
  close = call V.close_conn

-- The outgoing metadata of a context.
abbrev pub Metadata : Type 0
Metadata = List (String × String)

unfoldable pub context_with_block_height : ℤ → Metadata → Metadata
unfolding decimal
context_with_block_height height md = md ++ ("x-cosmos-block-height", decimal height) ∷ []

-- The interface registry, and `RegisterInterfaces` of each module.
pub record Registrar : Type 1 where
  pub Registry : Type 0
  pub Codec : Type 0
  pub TxConfig : Type 0
  pub new_registry : Registry
  pub crypto : Registry → Registry
  pub marker : Registry → Registry
  pub metadata : Registry → Registry
  pub bank : Registry → Registry
  pub attribute : Registry → Registry
  pub registry : Registry → Registry
  pub authz : Registry → Registry
  pub group : Registry → Registry
  pub wasm : Registry → Registry
  pub new_proto_codec : Registry → Codec
  pub new_tx_config : Codec → TxConfig  -- with the default modes of signing

module _ (G : Registrar) where
  unfoldable pub codec : G.Codec
  codec =
      let first = G.bank (G.metadata (G.marker (G.crypto G.new_registry))) in
      G.new_proto_codec (G.wasm (G.group (G.authz (G.registry (G.attribute first)))))

  unfoldable pub new_tx_config : G.TxConfig
  unfolding codec
  new_tx_config = G.new_tx_config codec
