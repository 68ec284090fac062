-- ===== src/Pool/Methods.antt =====
-- The methods of the pool client (pkg/demoprime/pool/client.go): each builds a message, executes it,
-- and parses the response. Those that end in `_for` act for a granter.
use prov_go.Base.{Bool, String, Option, none, some, List}
use prov_go.Base.Int.{ℤ}
use prov_go.Platform.{Platform}
use prov_go.Client.Monad.{Action}
use prov_go.Pool.Messages.{CollateralAssetV1, RateParamsV1, Cw20ReceiveRequestV1}
use prov_go.Pool.Exec.{
  ContractConfig, exec_add_collateral, exec_borrow, exec_lend, exec_liquidate, exec_receive,
  exec_remove_collateral, exec_repay, exec_set_borrower_required_attrs,
  exec_set_lender_require_commit_on_exit, exec_set_lender_required_attrs,
  exec_set_operational_state, exec_update_contract_config, exec_update_rate_params,
  exec_update_supported_collateral, exec_withdraw, exec_withdraw_reserve,
}
use prov_go.Pool.Types.{
  AddCollateralResponseV1, BorrowResponseV1, Cw20ReceiveOutcome, LendResponseV1,
  LiquidateResponseV1, RemoveCollateralResponseV1, RepayResponseV1,
  SetBorrowerRequiredAttrsResponseV1, SetLenderRequireCommitOnExitResponseV1,
  SetLenderRequiredAttrsResponseV1, SetOperationStateResponseV1, UpdateContractConfigResponseV1,
  UpdateRateParamsResponseV1, UpdateSupportedCollateralResponseV1, WithdrawReserveResponseV1,
  WithdrawResponseV1,
}
use prov_go.Pool.Responses.{
  parse_add_collateral, parse_borrow, parse_cw20_receive_response, parse_lend, parse_liquidate,
  parse_remove_collateral, parse_repay, parse_set_borrower_required_attrs,
  parse_set_lender_require_commit_on_exit, parse_set_lender_required_attrs,
  parse_set_operational_state, parse_update_contract_config, parse_update_rate_params,
  parse_update_supported_collateral, parse_withdraw, parse_withdraw_reserve,
}
use prov_go.Pool.Wasm.{Wasm, execute, execute_on_behalf_of, respond}

module _ (P : Platform) (W : Wasm P) (pool : String) where
  unfoldable pub lend : P.Coins → Action P LendResponseV1
  lend funds = respond P W (execute P W pool exec_lend (some funds)) parse_lend

  unfoldable pub receive : Cw20ReceiveRequestV1 → Action P Cw20ReceiveOutcome
  receive msg = respond P W (execute P W pool (exec_receive msg) none) parse_cw20_receive_response

  unfoldable pub borrow : Option ℤ → Action P BorrowResponseV1
  borrow amount = respond P W (execute P W pool (exec_borrow amount) none) parse_borrow

  unfoldable pub repay : P.Coins → Action P RepayResponseV1
  repay funds = respond P W (execute P W pool exec_repay (some funds)) parse_repay

  unfoldable pub add_collateral : P.Coins → Action P AddCollateralResponseV1
  add_collateral funds =
      respond P W (execute P W pool exec_add_collateral (some funds)) parse_add_collateral

  unfoldable pub remove_collateral : List (String × Option ℤ) → Action P RemoveCollateralResponseV1
  remove_collateral to_remove =
      respond P W (execute P W pool (exec_remove_collateral to_remove) none) parse_remove_collateral

  unfoldable pub liquidate :
      String → List (String × Option ℤ) → P.Coins → Action P LiquidateResponseV1
  liquidate borrower to_seize funds =
      respond P W (execute P W pool (exec_liquidate borrower to_seize) (some funds)) parse_liquidate

  unfoldable pub update_supported_collateral :
      Option (List String)
      → Option (List CollateralAssetV1)
      → Action P UpdateSupportedCollateralResponseV1
  update_supported_collateral to_remove to_update =
      respond P W (execute P W pool (exec_update_supported_collateral to_remove to_update) none)
        parse_update_supported_collateral

  unfoldable pub set_operational_state : String → Action P SetOperationStateResponseV1
  set_operational_state state =
      respond P W (execute P W pool (exec_set_operational_state state) none)
        parse_set_operational_state

  unfoldable pub set_borrow_required_attrs :
      Option (List String) → Action P SetBorrowerRequiredAttrsResponseV1
  set_borrow_required_attrs attrs =
      respond P W (execute P W pool (exec_set_borrower_required_attrs attrs) none)
        parse_set_borrower_required_attrs

  unfoldable pub set_lender_required_attrs :
      Option (List String) → Action P SetLenderRequiredAttrsResponseV1
  set_lender_required_attrs attrs =
      respond P W (execute P W pool (exec_set_lender_required_attrs attrs) none)
        parse_set_lender_required_attrs

  unfoldable pub set_lender_require_commit_on_exit :
      String → Option Bool → Action P SetLenderRequireCommitOnExitResponseV1
  set_lender_require_commit_on_exit address require =
      respond P W (execute P W pool (exec_set_lender_require_commit_on_exit address require) none)
        parse_set_lender_require_commit_on_exit

  unfoldable pub update_contract_config : ContractConfig → Action P UpdateContractConfigResponseV1
  update_contract_config config =
      respond P W (execute P W pool (exec_update_contract_config config) none)
        parse_update_contract_config

  unfoldable pub update_rate_params : RateParamsV1 → Action P UpdateRateParamsResponseV1
  update_rate_params rate_params =
      respond P W (execute P W pool (exec_update_rate_params rate_params) none)
        parse_update_rate_params

  unfoldable pub withdraw : String → Option ℤ → Action P WithdrawResponseV1
  withdraw lender amount =
      respond P W (execute P W pool (exec_withdraw lender amount) none) parse_withdraw

  unfoldable pub withdraw_reserve : Option String → Action P WithdrawReserveResponseV1
  withdraw_reserve recipient =
      respond P W (execute P W pool (exec_withdraw_reserve recipient) none) parse_withdraw_reserve

  unfoldable pub lend_for : String → P.Coins → Action P LendResponseV1
  lend_for granter funds =
      respond P W (execute_on_behalf_of P W pool granter exec_lend (some funds)) parse_lend

  unfoldable pub receive_for : String → Cw20ReceiveRequestV1 → Action P Cw20ReceiveOutcome
  receive_for granter msg =
      respond P W (execute_on_behalf_of P W pool granter (exec_receive msg) none)
        parse_cw20_receive_response

  unfoldable pub borrow_for : String → Option ℤ → Action P BorrowResponseV1
  borrow_for granter amount =
      respond P W (execute_on_behalf_of P W pool granter (exec_borrow amount) none) parse_borrow

  unfoldable pub repay_for : String → P.Coins → Action P RepayResponseV1
  repay_for granter funds =
      respond P W (execute_on_behalf_of P W pool granter exec_repay (some funds)) parse_repay

  unfoldable pub add_collateral_for : String → P.Coins → Action P AddCollateralResponseV1
  add_collateral_for granter funds =
      respond P W (execute_on_behalf_of P W pool granter exec_add_collateral (some funds))
        parse_add_collateral

  unfoldable pub remove_collateral_for :
      String → List (String × Option ℤ) → Action P RemoveCollateralResponseV1
  remove_collateral_for granter to_remove =
      respond P W (execute_on_behalf_of P W pool granter (exec_remove_collateral to_remove) none)
        parse_remove_collateral

  unfoldable pub withdraw_for : String → String → Option ℤ → Action P WithdrawResponseV1
  withdraw_for granter lender amount =
      respond P W (execute_on_behalf_of P W pool granter (exec_withdraw lender amount) none)
        parse_withdraw

  unfoldable pub withdraw_reserve_for : String → Option String → Action P WithdrawReserveResponseV1
  withdraw_reserve_for granter recipient =
      respond P W (execute_on_behalf_of P W pool granter (exec_withdraw_reserve recipient) none)
        parse_withdraw_reserve
