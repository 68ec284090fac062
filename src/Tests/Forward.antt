-- ===== src/Tests/Forward.antt =====
-- Runs of the withdrawal through a token (pkg/demoprime/pool/cw20_withdraw.go).
use prov_go.Base.{◌≡◌, refl, ◌⊎◌, none, some, [], ◌∷◌, ok, err, Error, codes, ◌+◌, ◌<>◌}
use prov_go.Base.Int.{pos}
use prov_go.Base.Dict.{get, put}
use prov_go.Platform.{TxResponse, TxReply, Platform}
use prov_go.Client.Monad.{World}
use prov_go.Client.Defs.{
  next_sequence, sign_tx, draft_tx, finish_tx, simulate_tx, fee_coins, broadcast_tx, wait_on_tx,
  poll, polled,
}
use prov_go.Client.Submit.{submit, require_signer, check_code, confirm}
use prov_go.Pool.Json.{Json}
use prov_go.Pool.Text.{marshal}
use prov_go.Pool.Events.{flat_event_attrs, event_attrs, put_all, find_wasm_action_event, find_from}
use prov_go.Pool.Block.{hash_text, wanted, block_info_from_block, tx_index_in_block, index_from}
use prov_go.Pool.Types.{WithdrawResponseV1}
use prov_go.Pool.Metadata.{event_response, tx_metadata_from}
use prov_go.Pool.Responses.{parse_withdraw}
use prov_go.Pool.Wasm.{
  Wasm, Confirmed, respond, execute_on_contract, broadcast_and_wait, with_block,
}
use prov_go.Pool.Forward.{build_cw20_send, withdraw_hook, withdraw_via_repo_cw20_send}
use prov_go.Pool.Hook.{IsForwarded, IsRefused, build_cw20_send_decides}
use prov_go.Pool.Withdrawn.{withdraw_via_repo_cw20_send-IsForwarded}
use prov_go.Tests.Sample.{calm, lend_tx, lend_block, signer}

printed : marshal (withdraw_hook (pos 250)) ≡ codes "{\"withdraw\":{\"amount\":\"250\"}}"
unfolding marshal withdraw_hook
printed = refl

build_cw20_send_decides_example :
    ((m : Json) × (build_cw20_send "pool" (some (pos 250)) ≡ ok m)
      × IsForwarded "pool" (some (pos 250)) m)
    ⊎ ((e : Error) × (build_cw20_send "pool" (some (pos 250)) ≡ err e)
        × IsRefused "pool" (some (pos 250)))
build_cw20_send_decides_example = build_cw20_send_decides "pool" (some (pos 250))

abbrev withdraw_tx : TxResponse
withdraw_tx = record lend_tx {
  events =
      record {
        attributes = ("action", "withdraw") ∷ ("lender", "tp1signer") ∷ ("amount", "250") ∷ [];
      }
      ∷ [];
}

abbrev withdraw_reply : TxReply
withdraw_reply = record { tx_response = some withdraw_tx }

abbrev paying : Platform
paying = record calm {
  broadcast = λ _ s. (ok withdraw_reply, s + 1);
  get_tx = λ _ s. (ok (some withdraw_reply), s + 1);
}

abbrev paying_wasm : Wasm paying
paying_wasm = record {
  execute_contract = λ sender contract _ _. sender <> contract;
  msg_exec = λ grantee _. ok grantee;
  block_by_height = λ _ s. (ok (some lend_block), s + 1);
  sum = λ b. b;
}

abbrev paying_world : World paying
paying_world = record { client = signer; node = 0 }

abbrev withdrawn : WithdrawResponseV1
withdrawn = record {
  event = record {
    block_height = pos 9;
    block_time = 5;
    tx_hash = "AB";
    tx_index = 1;
    tx_event_index = 0;
    contract_addr = "";
  };
  lender = "tp1signer";
  amount = "250";
  scaled_amount = "";
}

withdraw_result :
    (withdraw_via_repo_cw20_send paying paying_wasm "pool" "repo" (some (pos 250)) paying_world).0
    ≡ ok withdrawn
unfolding withdraw_via_repo_cw20_send respond execute_on_contract broadcast_and_wait with_block
    submit require_signer check_code confirm next_sequence sign_tx draft_tx finish_tx simulate_tx
    fee_coins broadcast_tx wait_on_tx poll polled parse_withdraw tx_metadata_from event_response
    block_info_from_block find_wasm_action_event find_from flat_event_attrs event_attrs put_all put
    get tx_index_in_block index_from hash_text wanted build_cw20_send
withdraw_result = refl

withdraw_via_repo_cw20_send-IsForwarded_example :
    (m : Json) × IsForwarded "pool" (some (pos 250)) m
    × (c : Confirmed paying paying_wasm) × ((execute_on_contract paying paying_wasm "tp1signer"
          "repo" m none paying_world).0
        ≡ ok c)
    × (c.tx.code ≡ 0)
    × (parse_withdraw paying_wasm.sum (some (c.tx)) (c.block) ≡ ok withdrawn)
withdraw_via_repo_cw20_send-IsForwarded_example =
    withdraw_via_repo_cw20_send-IsForwarded paying paying_wasm "pool" "repo" (some (pos 250))
      paying_world withdrawn withdraw_result
