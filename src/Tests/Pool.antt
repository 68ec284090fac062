-- ===== src/Tests/Pool.antt =====
-- Runs of the pool client (pkg/demoprime/pool).
use prov_go.Base.{
  refl, true, none, some, List, [], ◌∷◌, ok, arith, IsFirst, IsNone, IsFirst-cons, IsNone-cons,
  Bool, ◌≡◌, ◌↔◌,
}
use prov_go.Base.Int.{pos}
use prov_go.Base.Dict.{Dict, get, put}
use prov_go.Platform.{Bytes}
use prov_go.Client.Defs.{
  next_sequence, sign_tx, draft_tx, finish_tx, simulate_tx, fee_coins, broadcast_tx, wait_on_tx,
  poll, polled,
}
use prov_go.Client.Submit.{submit, require_signer, check_code, confirm}
use prov_go.Pool.Events.{flat_event_attrs, event_attrs, put_all, find_wasm_action_event, find_from}
use prov_go.Pool.Block.{hash_text, wanted, block_info_from_block, tx_index_in_block, index_from}
use prov_go.Pool.Responses.{parse_lend, parse_cw20_receive_response}
use prov_go.Pool.Receive.{IsFirstAction, receive_order}
use prov_go.Pool.Wasm.{
  respond, execute, execute_on_behalf_of, execute_on_contract, broadcast_and_wait, with_block,
}
use prov_go.Pool.Methods.{lend, lend_for}
use prov_go.Pool.Success.{lend_succeeds}
use prov_go.Pool.Calls.{Method, run, message}
use prov_go.Pool.Bodies.{Received}
use prov_go.Pool.Received.{variant, Asks, message-Received}
use prov_go.Pool.Reported.{IsReported, response-IsReported}
use prov_go.Pool.Types.{LendResponseV1, RemoveCollateralResponseV1}
use prov_go.Pool.Metadata.{Located, event_response, tx_metadata_from}
use prov_go.Pool.Located.{has_action, has_hash, IsLocated, tx_metadata_from_iff}
use prov_go.Tests.Sample.{calm, calm_world, calm_wasm, lend_tx, lend_block, lend_header, lend_txs}

abbrev same : Bytes → Bytes
same b = b

abbrev lend_attrs : Dict
lend_attrs =
    ("_contract_address", "pool")
    ∷ ("action", "lend")
    ∷ ("lender", "pb1lender")
    ∷ ("amount", "100")
    ∷ ("scaled_amount", "90")
    ∷ []

abbrev fee_attrs : Dict
fee_attrs = ("fee", "1") ∷ ("code_id", "77") ∷ []

lend_events : flat_event_attrs (some lend_tx) ≡ fee_attrs ∷ lend_attrs ∷ []
unfolding flat_event_attrs event_attrs put_all put
lend_events = refl

-- The first item passes.
IsFirst-here :
    {A : Type 0} (test : A → Bool) (x : A) (xs : List A) → test x ≡ true → IsFirst test (x ∷ xs) 0 x
IsFirst-here test x xs pass = (refl, pass, λ j y lt e. absurd (omega arith))

event_lend : IsFirst (has_action "lend") (flat_event_attrs (some lend_tx)) 1 lend_attrs
unfolding get
event_lend = rw lend_events (
    IsFirst-cons (has_action "lend") fee_attrs (lend_attrs ∷ []) 0 lend_attrs refl
      (IsFirst-here (has_action "lend") lend_attrs [] refl))

included : IsFirst (has_hash same "AB") lend_txs 1 (171 ∷ [])
unfolding hash_text wanted
included =
    IsFirst-cons (has_hash same "AB") (1 ∷ []) ((171 ∷ []) ∷ []) 0 (171 ∷ []) refl
      (IsFirst-here (has_hash same "AB") (171 ∷ []) [] refl)

no_borrow : IsNone (has_action "borrow") (flat_event_attrs (some lend_tx))
unfolding get
no_borrow = rw lend_events (
    IsNone-cons (has_action "borrow") fee_attrs (lend_attrs ∷ []) refl
      (IsNone-cons (has_action "borrow") lend_attrs [] refl (λ j y e. cc)))

abbrev place : Located
place = record {
  meta = record { tx_hash = "AB"; tx_index = 1; tx_event_index = 1 };
  attrs = lend_attrs;
  info = record { block_height = pos 9; block_time = 5 };
}

tx_metadata_from_iff_example :
    (tx_metadata_from same (some lend_tx) (some lend_block) "lend" ≡ ok place)
    ↔ IsLocated same lend_tx (some lend_block) "lend" place
tx_metadata_from_iff_example = tx_metadata_from_iff same lend_tx (some lend_block) "lend" place

abbrev lent : LendResponseV1
lent = record {
  event = record {
    block_height = pos 9;
    block_time = 5;
    tx_hash = "AB";
    tx_index = 1;
    tx_event_index = 1;
    contract_addr = "pool";
  };
  lender = "pb1lender";
  amount = "100";
  scaled_amount = "90";
}

lend_result : (lend calm calm_wasm "pool" (pos 100) calm_world).0 ≡ ok lent
unfolding lend respond execute execute_on_contract broadcast_and_wait with_block submit
    require_signer check_code confirm next_sequence sign_tx draft_tx finish_tx simulate_tx fee_coins
    broadcast_tx wait_on_tx poll polled parse_lend tx_metadata_from event_response
    block_info_from_block find_wasm_action_event find_from flat_event_attrs event_attrs put_all put
    get tx_index_in_block index_from hash_text wanted
lend_result = refl

lend_for_result : (lend_for calm calm_wasm "pool" "tp1granter" (pos 100) calm_world).0 ≡ ok lent
unfolding lend_for respond execute_on_behalf_of broadcast_and_wait with_block submit require_signer
    check_code confirm next_sequence sign_tx draft_tx finish_tx simulate_tx fee_coins broadcast_tx
    wait_on_tx poll polled parse_lend tx_metadata_from event_response block_info_from_block
    find_wasm_action_event find_from flat_event_attrs event_attrs put_all put get tx_index_in_block
    index_from hash_text wanted
lend_for_result = refl

response-IsReported_example :
    IsReported calm calm_wasm "pool" (Method.lend_for "tp1granter" (pos 100)) calm_world lent
unfolding run
response-IsReported_example =
    response-IsReported calm calm_wasm "pool" (Method.lend_for "tp1granter" (pos 100)) calm_world
      lent lend_for_result

receive_order_example :
    IsFirstAction same lend_tx
      (some lend_block)
      lend_header
      lend_txs
      1
      (171 ∷ [])
      refl
      refl
      included
      (parse_cw20_receive_response same (some lend_tx) (some lend_block))
receive_order_example =
    receive_order same lend_tx (some lend_block) lend_header lend_txs 1 (171 ∷ []) refl refl
      included

lend_sent : (submit calm "pool" ("tp1signerpool" ∷ []) calm_world).0 ≡ ok lend_tx
unfolding submit require_signer confirm next_sequence sign_tx draft_tx finish_tx simulate_tx
    fee_coins broadcast_tx wait_on_tx poll polled
lend_sent = refl

lend_succeeds_example : (lend calm calm_wasm "pool" (pos 100) calm_world).0 ≡ ok lent
unfolding get
lend_succeeds_example =
    lend_succeeds calm calm_wasm "pool" (pos 100) calm_world lend_tx (some lend_block) lend_header
      lend_txs 1 1 (171 ∷ []) lend_attrs lend_sent refl refl refl refl included event_lend

-- The amount of the second collateral is missing.
abbrev removal : Method calm RemoveCollateralResponseV1
removal = Method.remove_collateral (("nft", some (pos 5)) ∷ ("hash", none) ∷ [])

message-Received_example :
    Received (variant calm removal) (Asks calm removal) (message calm removal)
message-Received_example = message-Received calm removal
