-- ===== src/Pool/Received.antt =====
-- The contract reads from the bytes of a message of any method of the pool client
-- (pkg/demoprime/pool/client.go) the variant and the arguments of that method.
use prov_go.Base.{◌≡◌, some, String}
use prov_go.Platform.{Platform}
use prov_go.Pool.Json.{Json}
use prov_go.Pool.Calls.{
  Method, message, lend, receive, borrow, repay, add_collateral, remove_collateral, liquidate,
  update_supported_collateral, set_operational_state, set_borrow_required_attrs,
  set_lender_required_attrs, set_lender_require_commit_on_exit, update_contract_config,
  update_rate_params, withdraw, withdraw_reserve, lend_for, receive_for, borrow_for, repay_for,
  add_collateral_for, remove_collateral_for, withdraw_for, withdraw_reserve_for,
}
use prov_go.Pool.Sent.{text_at, AmountsAt, AsksWithdrawal, AsksReceive, AsksBorrow}
use prov_go.Pool.Settings.{AsksConfig}
use prov_go.Pool.Bodies.{
  AsksCollateral, Received, ListAt, AsksLiquidation, AsksCommit, AsksRates, AsksNothing,
  exec_lend-Received, exec_repay-Received, exec_add_collateral-Received, exec_receive-Received,
  exec_borrow-Received, exec_withdraw-Received, exec_remove_collateral-Received,
  exec_liquidate-Received, exec_set_operational_state-Received,
  exec_set_borrower_required_attrs-Received, exec_set_lender_required_attrs-Received,
  exec_set_lender_require_commit_on_exit-Received, exec_update_rate_params-Received,
  exec_withdraw_reserve-Received, exec_update_supported_collateral-Received,
  exec_update_contract_config-Received,
}

module _ (P : Platform) where
  -- The variant of a method, and its arguments as the contract reads them.
  abbrev pub variant : {V : Type 0} → Method P V → String
  variant (lend _) = "lend"
  variant (receive _) = "receive"
  variant (borrow _) = "borrow"
  variant (repay _) = "repay"
  variant (add_collateral _) = "add_collateral"
  variant (remove_collateral _) = "remove_collateral"
  variant (liquidate _ _ _) = "liquidate"
  variant (update_supported_collateral _ _) = "update_supported_collateral"
  variant (set_operational_state _) = "set_operational_state"
  variant (set_borrow_required_attrs _) = "set_borrower_required_attrs"
  variant (set_lender_required_attrs _) = "set_lender_required_attrs"
  variant (set_lender_require_commit_on_exit _ _) = "set_lender_require_commit_on_exit"
  variant (update_contract_config _) = "update_contract_config"
  variant (update_rate_params _) = "update_rate_params"
  variant (withdraw _ _) = "withdraw"
  variant (withdraw_reserve _) = "withdraw_reserve"
  variant (lend_for _ _) = "lend"
  variant (receive_for _ _) = "receive"
  variant (borrow_for _ _) = "borrow"
  variant (repay_for _ _) = "repay"
  variant (add_collateral_for _ _) = "add_collateral"
  variant (remove_collateral_for _ _) = "remove_collateral"
  variant (withdraw_for _ _ _) = "withdraw"
  variant (withdraw_reserve_for _ _) = "withdraw_reserve"

  abbrev pub Asks : {V : Type 0} → Method P V → Json → Type 0
  Asks (lend _) = AsksNothing
  Asks (receive msg) = AsksReceive msg
  Asks (borrow amount) = AsksBorrow amount
  Asks (repay _) = AsksNothing
  Asks (add_collateral _) = AsksNothing
  Asks (remove_collateral m) = AmountsAt "to_remove" m
  Asks (liquidate borrower m _) = AsksLiquidation borrower m
  Asks (update_supported_collateral gone kept) = AsksCollateral gone kept
  Asks (set_operational_state state) = λ body. text_at "state" body ≡ some state
  Asks (set_borrow_required_attrs attrs) = ListAt "borrower_required_attrs" attrs
  Asks (set_lender_required_attrs attrs) = ListAt "lender_required_attrs" attrs
  Asks (set_lender_require_commit_on_exit address require) = AsksCommit address require
  Asks (update_contract_config c) = AsksConfig c
  Asks (update_rate_params rates) = AsksRates rates
  Asks (withdraw lender amount) = AsksWithdrawal lender amount
  Asks (withdraw_reserve recipient) = λ body. text_at "recipient" body ≡ recipient
  Asks (lend_for _ _) = AsksNothing
  Asks (receive_for _ msg) = AsksReceive msg
  Asks (borrow_for _ amount) = AsksBorrow amount
  Asks (repay_for _ _) = AsksNothing
  Asks (add_collateral_for _ _) = AsksNothing
  Asks (remove_collateral_for _ m) = AmountsAt "to_remove" m
  Asks (withdraw_for _ lender amount) = AsksWithdrawal lender amount
  Asks (withdraw_reserve_for _ recipient) = λ body. text_at "recipient" body ≡ recipient

  -- The bytes of the message of any method of the pool client, once `json.Marshal` has printed it, stand
  -- for a JSON object with one field, whose name is the variant of the method. In its value a reader
  -- finds all arguments of the method that the message holds, amounts as decimal texts of these numbers;
  -- an amount that is missing is 0 or left out, as the variant has it.
  pub message-Received : {V : Type 0} (m : Method P V) → Received (variant m) (Asks m) (message P m)
  message-Received (lend _) = exec_lend-Received
  message-Received (receive msg) = exec_receive-Received msg
  message-Received (borrow amount) = exec_borrow-Received amount
  message-Received (repay _) = exec_repay-Received
  message-Received (add_collateral _) = exec_add_collateral-Received
  message-Received (remove_collateral m) = exec_remove_collateral-Received m
  message-Received (liquidate borrower m _) = exec_liquidate-Received borrower m
  message-Received (update_supported_collateral gone kept) =
      exec_update_supported_collateral-Received gone kept
  message-Received (set_operational_state state) = exec_set_operational_state-Received state
  message-Received (set_borrow_required_attrs attrs) =
      exec_set_borrower_required_attrs-Received attrs
  message-Received (set_lender_required_attrs attrs) = exec_set_lender_required_attrs-Received attrs
  message-Received (set_lender_require_commit_on_exit address require) =
      exec_set_lender_require_commit_on_exit-Received address require
  message-Received (update_contract_config c) = exec_update_contract_config-Received c
  message-Received (update_rate_params rates) = exec_update_rate_params-Received rates
  message-Received (withdraw lender amount) = exec_withdraw-Received lender amount
  message-Received (withdraw_reserve recipient) = exec_withdraw_reserve-Received recipient
  message-Received (lend_for _ _) = exec_lend-Received
  message-Received (receive_for _ msg) = exec_receive-Received msg
  message-Received (borrow_for _ amount) = exec_borrow-Received amount
  message-Received (repay_for _ _) = exec_repay-Received
  message-Received (add_collateral_for _ _) = exec_add_collateral-Received
  message-Received (remove_collateral_for _ m) = exec_remove_collateral-Received m
  message-Received (withdraw_for _ lender amount) = exec_withdraw-Received lender amount
  message-Received (withdraw_reserve_for _ recipient) = exec_withdraw_reserve-Received recipient
