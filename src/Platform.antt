-- ===== src/Platform.antt =====
-- What the client takes from the Cosmos SDK, the generated gRPC clients and the node behind them:
-- a parameter of the model. A call of the node may change the node's state in any way.
use prov_go.Base.{ℕ, String, List, Option, Result}
use prov_go.Base.Int.{ℤ}

abbrev pub Bytes : Type 0
Bytes = List ℕ

-- `abci.Event` and `sdk.StringEvent`: the key and the value of each attribute.
pub record Event : Type 0 where
  pub attributes : List (String × String)

-- `sdk.ABCIMessageLog`
pub record Log : Type 0 where
  pub events : List Event

-- `sdk.TxResponse`
pub record TxResponse : Type 0 where
  pub height : ℤ
  pub tx_hash : String
  pub codespace : String
  pub code : ℕ
  pub raw_log : String
  pub logs : List Log
  pub events : List Event

-- `txtypes.GetTxResponse` and `txtypes.BroadcastTxResponse`, by the one field that is read.
pub record TxReply : Type 0 where
  pub tx_response : Option TxResponse

-- `authtypes.BaseAccount`
pub record BaseAccount : Type 0 where
  pub account_number : ℕ
  pub sequence : ℕ

-- `sdk.GasInfo`
pub record GasInfo : Type 0 where
  pub gas_wanted : ℕ
  pub gas_used : ℕ

-- `xauthsigning.SignerData`
pub record SignerData : Type 0 where
  pub chain_id : String
  pub account_number : ℕ
  pub sequence : ℕ

-- `signing.SignatureV2` in mode SIGN_MODE_DIRECT; the placeholder has no signature bytes.
pub record SignatureV2 : Type 0 where
  pub pub_key : Bytes
  pub signature : Option Bytes
  pub sequence : ℕ

pub record Platform : Type 1 where
  pub State : Type 0  -- of the node and the network
  pub Msg : Type 0
  pub Coins : Type 0
  pub Builder : Type 0
  -- The node: each call gives the reply and the state after it. A reply's missing pointer is `none`.
  pub account : String → State → Result (Option Bytes) × State
  pub simulate : Bytes → State → Result (Option GasInfo) × State
  pub broadcast : Bytes → State → Result TxReply × State
  pub get_tx : String → State → Result (Option TxReply) × State
  pub sleep : State → State
  -- The transaction builder, the codec and the keys.
  pub unmarshal_account : Bytes → Result BaseAccount
  pub pub_key : Bytes → Bytes
  pub new_builder : Builder
  pub set_msgs : Builder → List Msg → Result Builder
  pub set_signatures : Builder → List SignatureV2 → Result Builder
  pub set_fee_amount : Builder → Coins → Builder
  pub new_coins : String → ℤ → Result Coins  -- NewCoins (NewInt64Coin denom amount)
  pub sign_with_priv_key : SignerData → Builder → Bytes → ℕ → Result SignatureV2
  pub encode_tx : Builder → Result Bytes
  pub encode_json : Builder → Result Bytes
