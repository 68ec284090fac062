-- ===== src/Pool/Forward.antt =====
-- Payloads that a CW20 token passes on to the pool: the withdrawal by a token's `send`
-- (pkg/demoprime/pool/cw20_withdraw.go), and the message of `execute.receive`
-- (pkg/demoprime/pool/messages.go).
use prov_go.Base.{
  ◌==◌, Bool, String, Option, none, some, Result, ok, err, errorf, [], zero, suc, true, false,
  if◌then◌else◌,
}
use prov_go.Base.Int.{ℤ, pos, negsuc}
use prov_go.Platform.{Platform}
use prov_go.Client.Monad.{Action, ◌>>=◌, gets, lift}
use prov_go.Client.Submit.{require_signer}
use prov_go.Pool.Json.{Json, text, bool, object, end, field, optional, decimal}
use prov_go.Pool.Bytes.{payload}
use prov_go.Pool.Messages.{Cw20ReceiveRequestV1}
use prov_go.Pool.Types.{WithdrawResponseV1}
use prov_go.Pool.Responses.{parse_withdraw}
use prov_go.Pool.Wasm.{Wasm, execute_on_contract, respond}

-- `{"withdraw":{"amount":"..."}}`
unfoldable pub withdraw_hook : ℤ → Json
unfolding decimal
withdraw_hook amount =
    object (field "withdraw" (object (field "amount" (text (decimal amount)) end)) end)

-- `withdrawAmount.Sign() > 0`
abbrev is_positive : ℤ → Bool
is_positive (pos zero) = false
is_positive (pos (suc n)) = true
is_positive (negsuc _) = false

-- The keys of a map are printed in their order.
abbrev pub send_message : String → ℤ → Json
send_message pool amount = object (
    field "send"
      (object (
        field "amount" (text (decimal amount))
          (field "contract" (text pool) (field "msg" (text (payload (withdraw_hook amount))) end))))
      end)

-- `buildCw20SendWithdrawExecuteJSON`; a nil amount is `none`.
unfoldable pub build_cw20_send : String → Option ℤ → Result Json
unfolding withdraw_hook payload decimal
build_cw20_send pool amount =
    if pool == "" then err (errorf "pool: empty pool contract for cw20 send" []) else elim amount [
      | none ↦ err (errorf "pool: withdraw amount must be positive" [])
      | some n ↦
          if is_positive n
          then ok (send_message pool n)
          else err (errorf "pool: withdraw amount must be positive" [])
    ]

module _ (P : Platform) (W : Wasm P) (pool : String) where
  unfoldable pub withdraw_via_repo_cw20_send :
      (repo : String) → Option ℤ → Action P WithdrawResponseV1
  withdraw_via_repo_cw20_send repo amount = do
    key ← require_signer P
    msg ← lift (build_cw20_send pool amount)
    sender ← gets (λ c. c.address)
    respond P W (execute_on_contract P W sender repo msg none) parse_withdraw

pub record PoolWithdrawPayloadV1 : Type 0 where
  pub amount : String
  pub commit_funds : Option Bool

pub record PoolWithdrawExactPayloadV1 : Type 0 where
  pub commit_funds : Option Bool

pub record PoolTransferPayloadV1 : Type 0 where
  pub recipient : String
  pub amount : String

pub record PoolTransferExactPayloadV1 : Type 0 where
  pub recipient : String

pub record PoolReceiveRequestMsg : Type 0 where
  pub withdraw : Option PoolWithdrawPayloadV1
  pub withdraw_exact : Option PoolWithdrawExactPayloadV1
  pub transfer : Option PoolTransferPayloadV1
  pub transfer_exact : Option PoolTransferExactPayloadV1

unfoldable pub withdraw_json : PoolWithdrawPayloadV1 → Json
unfolding optional
withdraw_json p =
    object (field "amount" (text p.amount) (optional "commit_funds" bool (p.commit_funds) end))

unfoldable pub withdraw_exact_json : PoolWithdrawExactPayloadV1 → Json
unfolding optional
withdraw_exact_json p = object (optional "commit_funds" bool (p.commit_funds) end)

unfoldable pub transfer_json : PoolTransferPayloadV1 → Json
transfer_json p = object (field "recipient" (text p.recipient) (field "amount" (text p.amount) end))

unfoldable pub transfer_exact_json : PoolTransferExactPayloadV1 → Json
transfer_exact_json p = object (field "recipient" (text p.recipient) end)

unfoldable pub receive_msg_json : PoolReceiveRequestMsg → Json
unfolding optional withdraw_json withdraw_exact_json transfer_json transfer_exact_json
receive_msg_json m = object (
    optional "withdraw" withdraw_json (m.withdraw) (
      optional "withdraw_exact" withdraw_exact_json (m.withdraw_exact) (
        optional "transfer" transfer_json (m.transfer)
          (optional "transfer_exact" transfer_exact_json (m.transfer_exact) end))))

-- `amount.String()`, where a nil number prints as `<nil>`.
unfoldable pub amount_string : Option ℤ → String
unfolding decimal
amount_string none = "<nil>"
amount_string (some n) = decimal n

unfoldable pub new_cw20_receive_request :
    String → Option ℤ → PoolReceiveRequestMsg → Cw20ReceiveRequestV1
unfolding receive_msg_json payload amount_string
new_cw20_receive_request sender amount inner = record {
  sender = sender;
  amount = amount_string amount;
  msg = payload (receive_msg_json inner);
}
