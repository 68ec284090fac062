-- ===== src/Cw20.antt =====
-- The smart queries of a CW20 token (pkg/cw20/query.go, types.go). The node and `json.Unmarshal` into
-- each response are parameters.
use prov_go.Base.{ℕ, String, ◌==◌, [], Result, errorf, not}
use prov_go.Platform.{Platform, Bytes}
use prov_go.Client.Monad.{Action, ◌>>=◌, ◌>>◌, lift, call, guard, wrapping}
use prov_go.Pool.Json.{Json, text, object, end, field, empty_object_json}

pub record TokenInfoResponse : Type 0 where
  pub name : String
  pub symbol : String
  pub decimals : ℕ
  pub total_supply : String

pub record MinterResponse : Type 0 where
  pub minter : String
  pub cap : String

pub record BalanceResponse : Type 0 where
  pub balance : String

pub record TokenQueries (P : Platform) : Type 0 where
  pub smart_contract_state : (contract : String) → Json → P.State → Result Bytes × P.State
  pub token_info : Bytes → Result TokenInfoResponse
  pub minter : Bytes → Result MinterResponse
  pub balance : Bytes → Result BalanceResponse

module _ (P : Platform) (Q : TokenQueries P) (addr : String) where
  unfoldable pub smart_query : Json → Action P Bytes
  smart_query query = do
    guard (not (addr == "")) (errorf "cw20: empty contract address" [])
    call (Q.smart_contract_state addr query)

  unfoldable pub token_info : Action P TokenInfoResponse
  unfolding smart_query
  token_info = do
    answer ← smart_query (object (field "token_info" empty_object_json end))
    wrapping "cw20: token_info unmarshal: %w" (lift (Q.token_info answer))

  unfoldable pub minter : Action P MinterResponse
  unfolding smart_query
  minter = do
    answer ← smart_query (object (field "minter" empty_object_json end))
    wrapping "cw20: minter unmarshal: %w" (lift (Q.minter answer))

  unfoldable pub balance : String → Action P BalanceResponse
  unfolding smart_query
  balance holder_bech32 = do
    guard (not (holder_bech32 == "")) (errorf "cw20: empty holder address" [])
    answer ←
        smart_query
          (object (field "balance" (object (field "address" (text holder_bech32) end)) end))
    wrapping "cw20: balance unmarshal: %w" (lift (Q.balance answer))
