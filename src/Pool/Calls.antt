-- ===== src/Pool/Calls.antt =====
-- The methods of the pool client (pkg/demoprime/pool/client.go) as one type of calls: the message, the
-- funds and the granter of each, and the kind of its response.
use prov_go.Base.{Bool, String, Option, none, some, List}
use prov_go.Base.Int.{ℤ}
use prov_go.Platform.{Platform}
use prov_go.Client.Monad.{Action}
use prov_go.Pool.Json.{Json}
use prov_go.Pool.Messages.{CollateralAssetV1, RateParamsV1, Cw20ReceiveRequestV1}
use prov_go.Pool.Exec.{
  ContractConfig, exec_add_collateral, exec_borrow, exec_lend, exec_liquidate, exec_receive,
  exec_remove_collateral, exec_repay, exec_set_borrower_required_attrs,
  exec_set_lender_require_commit_on_exit, exec_set_lender_required_attrs,
  exec_set_operational_state, exec_update_contract_config, exec_update_rate_params,
  exec_update_supported_collateral, exec_withdraw, exec_withdraw_reserve,
}
use prov_go.Pool.Types.{
  AddCollateralResponseV1, BorrowResponseV1, Cw20ReceiveOutcome, LendResponseV1,
  LiquidateResponseV1, RemoveCollateralResponseV1, RepayResponseV1,
  SetBorrowerRequiredAttrsResponseV1, SetLenderRequireCommitOnExitResponseV1,
  SetLenderRequiredAttrsResponseV1, SetOperationStateResponseV1, UpdateContractConfigResponseV1,
  UpdateRateParamsResponseV1, UpdateSupportedCollateralResponseV1, WithdrawReserveResponseV1,
  WithdrawResponseV1,
}
use prov_go.Pool.Kinds.{Kind}
use prov_go.Pool.Wasm.{Wasm}
use prov_go.Pool.Methods

module _ (P : Platform) where
  pub data Method : Type 0 → Type 1 where
    lend : P.Coins → Method LendResponseV1
    receive : Cw20ReceiveRequestV1 → Method Cw20ReceiveOutcome
    borrow : Option ℤ → Method BorrowResponseV1
    repay : P.Coins → Method RepayResponseV1
    add_collateral : P.Coins → Method AddCollateralResponseV1
    remove_collateral : List (String × Option ℤ) → Method RemoveCollateralResponseV1
    liquidate : String → List (String × Option ℤ) → P.Coins → Method LiquidateResponseV1
    update_supported_collateral :
        Option (List String)
        → Option (List CollateralAssetV1)
        → Method UpdateSupportedCollateralResponseV1
    set_operational_state : String → Method SetOperationStateResponseV1
    set_borrow_required_attrs : Option (List String) → Method SetBorrowerRequiredAttrsResponseV1
    set_lender_required_attrs : Option (List String) → Method SetLenderRequiredAttrsResponseV1
    set_lender_require_commit_on_exit :
        String → Option Bool → Method SetLenderRequireCommitOnExitResponseV1
    update_contract_config : ContractConfig → Method UpdateContractConfigResponseV1
    update_rate_params : RateParamsV1 → Method UpdateRateParamsResponseV1
    withdraw : String → Option ℤ → Method WithdrawResponseV1
    withdraw_reserve : Option String → Method WithdrawReserveResponseV1
    lend_for : String → P.Coins → Method LendResponseV1
    receive_for : String → Cw20ReceiveRequestV1 → Method Cw20ReceiveOutcome
    borrow_for : String → Option ℤ → Method BorrowResponseV1
    repay_for : String → P.Coins → Method RepayResponseV1
    add_collateral_for : String → P.Coins → Method AddCollateralResponseV1
    remove_collateral_for : String → List (String × Option ℤ) → Method RemoveCollateralResponseV1
    withdraw_for : String → String → Option ℤ → Method WithdrawResponseV1
    withdraw_reserve_for : String → Option String → Method WithdrawReserveResponseV1

  module _ (W : Wasm P) (pool : String) where
    unfoldable pub run : {V : Type 0} → Method V → Action P V
    run (lend funds) = Methods.lend P W pool funds
    run (receive msg) = Methods.receive P W pool msg
    run (borrow amount) = Methods.borrow P W pool amount
    run (repay funds) = Methods.repay P W pool funds
    run (add_collateral funds) = Methods.add_collateral P W pool funds
    run (remove_collateral to_remove) = Methods.remove_collateral P W pool to_remove
    run (liquidate borrower to_seize funds) = Methods.liquidate P W pool borrower to_seize funds
    run (update_supported_collateral to_remove to_update) =
        Methods.update_supported_collateral P W pool to_remove to_update
    run (set_operational_state state) = Methods.set_operational_state P W pool state
    run (set_borrow_required_attrs attrs) = Methods.set_borrow_required_attrs P W pool attrs
    run (set_lender_required_attrs attrs) = Methods.set_lender_required_attrs P W pool attrs
    run (set_lender_require_commit_on_exit address require) =
        Methods.set_lender_require_commit_on_exit P W pool address require
    run (update_contract_config config) = Methods.update_contract_config P W pool config
    run (update_rate_params rate_params) = Methods.update_rate_params P W pool rate_params
    run (withdraw lender amount) = Methods.withdraw P W pool lender amount
    run (withdraw_reserve recipient) = Methods.withdraw_reserve P W pool recipient
    run (lend_for granter funds) = Methods.lend_for P W pool granter funds
    run (receive_for granter msg) = Methods.receive_for P W pool granter msg
    run (borrow_for granter amount) = Methods.borrow_for P W pool granter amount
    run (repay_for granter funds) = Methods.repay_for P W pool granter funds
    run (add_collateral_for granter funds) = Methods.add_collateral_for P W pool granter funds
    run (remove_collateral_for granter to_remove) =
        Methods.remove_collateral_for P W pool granter to_remove
    run (withdraw_for granter lender amount) = Methods.withdraw_for P W pool granter lender amount
    run (withdraw_reserve_for granter recipient) =
        Methods.withdraw_reserve_for P W pool granter recipient

  abbrev pub message : {V : Type 0} → Method V → Json
  message (lend _) = exec_lend
  message (receive msg) = exec_receive msg
  message (borrow amount) = exec_borrow amount
  message (repay _) = exec_repay
  message (add_collateral _) = exec_add_collateral
  message (remove_collateral to_remove) = exec_remove_collateral to_remove
  message (liquidate borrower to_seize _) = exec_liquidate borrower to_seize
  message (update_supported_collateral to_remove to_update) =
      exec_update_supported_collateral to_remove to_update
  message (set_operational_state state) = exec_set_operational_state state
  message (set_borrow_required_attrs attrs) = exec_set_borrower_required_attrs attrs
  message (set_lender_required_attrs attrs) = exec_set_lender_required_attrs attrs
  message (set_lender_require_commit_on_exit address require) =
      exec_set_lender_require_commit_on_exit address require
  message (update_contract_config config) = exec_update_contract_config config
  message (update_rate_params rate_params) = exec_update_rate_params rate_params
  message (withdraw lender amount) = exec_withdraw lender amount
  message (withdraw_reserve recipient) = exec_withdraw_reserve recipient
  message (lend_for _ _) = exec_lend
  message (receive_for _ msg) = exec_receive msg
  message (borrow_for _ amount) = exec_borrow amount
  message (repay_for _ _) = exec_repay
  message (add_collateral_for _ _) = exec_add_collateral
  message (remove_collateral_for _ to_remove) = exec_remove_collateral to_remove
  message (withdraw_for _ lender amount) = exec_withdraw lender amount
  message (withdraw_reserve_for _ recipient) = exec_withdraw_reserve recipient

  abbrev pub coins : {V : Type 0} → Method V → Option P.Coins
  coins (lend funds) = some funds
  coins (receive _) = none
  coins (borrow _) = none
  coins (repay funds) = some funds
  coins (add_collateral funds) = some funds
  coins (remove_collateral _) = none
  coins (liquidate _ _ funds) = some funds
  coins (update_supported_collateral _ _) = none
  coins (set_operational_state _) = none
  coins (set_borrow_required_attrs _) = none
  coins (set_lender_required_attrs _) = none
  coins (set_lender_require_commit_on_exit _ _) = none
  coins (update_contract_config _) = none
  coins (update_rate_params _) = none
  coins (withdraw _ _) = none
  coins (withdraw_reserve _) = none
  coins (lend_for _ funds) = some funds
  coins (receive_for _ _) = none
  coins (borrow_for _ _) = none
  coins (repay_for _ funds) = some funds
  coins (add_collateral_for _ funds) = some funds
  coins (remove_collateral_for _ _) = none
  coins (withdraw_for _ _ _) = none
  coins (withdraw_reserve_for _ _) = none

  abbrev pub on_behalf_of : {V : Type 0} → Method V → Option String
  on_behalf_of (lend _) = none
  on_behalf_of (receive _) = none
  on_behalf_of (borrow _) = none
  on_behalf_of (repay _) = none
  on_behalf_of (add_collateral _) = none
  on_behalf_of (remove_collateral _) = none
  on_behalf_of (liquidate _ _ _) = none
  on_behalf_of (update_supported_collateral _ _) = none
  on_behalf_of (set_operational_state _) = none
  on_behalf_of (set_borrow_required_attrs _) = none
  on_behalf_of (set_lender_required_attrs _) = none
  on_behalf_of (set_lender_require_commit_on_exit _ _) = none
  on_behalf_of (update_contract_config _) = none
  on_behalf_of (update_rate_params _) = none
  on_behalf_of (withdraw _ _) = none
  on_behalf_of (withdraw_reserve _) = none
  on_behalf_of (lend_for granter _) = some granter
  on_behalf_of (receive_for granter _) = some granter
  on_behalf_of (borrow_for granter _) = some granter
  on_behalf_of (repay_for granter _) = some granter
  on_behalf_of (add_collateral_for granter _) = some granter
  on_behalf_of (remove_collateral_for granter _) = some granter
  on_behalf_of (withdraw_for granter _ _) = some granter
  on_behalf_of (withdraw_reserve_for granter _) = some granter

  abbrev pub kind : {V : Type 0} → Method V → Kind V
  kind (lend _) = Kind.lend
  kind (receive _) = Kind.receive
  kind (borrow _) = Kind.borrow
  kind (repay _) = Kind.repay
  kind (add_collateral _) = Kind.add_collateral
  kind (remove_collateral _) = Kind.remove_collateral
  kind (liquidate _ _ _) = Kind.liquidate
  kind (update_supported_collateral _ _) = Kind.update_supported_collateral
  kind (set_operational_state _) = Kind.set_operational_state
  kind (set_borrow_required_attrs _) = Kind.set_borrower_required_attrs
  kind (set_lender_required_attrs _) = Kind.set_lender_required_attrs
  kind (set_lender_require_commit_on_exit _ _) = Kind.set_lender_require_commit_on_exit
  kind (update_contract_config _) = Kind.update_contract_config
  kind (update_rate_params _) = Kind.update_rate_params
  kind (withdraw _ _) = Kind.withdraw
  kind (withdraw_reserve _) = Kind.withdraw_reserve
  kind (lend_for _ _) = Kind.lend
  kind (receive_for _ _) = Kind.receive
  kind (borrow_for _ _) = Kind.borrow
  kind (repay_for _ _) = Kind.repay
  kind (add_collateral_for _ _) = Kind.add_collateral
  kind (remove_collateral_for _ _) = Kind.remove_collateral
  kind (withdraw_for _ _ _) = Kind.withdraw
  kind (withdraw_reserve_for _ _) = Kind.withdraw_reserve
