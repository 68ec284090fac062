-- ===== src/Pool/Responses.antt =====
-- The parsers of executed messages (pkg/demoprime/pool/responses.go). `sum` is `tmhash.Sum`.
use prov_go.Base.{
  String, ◌==◌, Option, none, some, [], Result, ok, err, panic, ◌>>=◌, errorf, if◌then◌else◌,
}
use prov_go.Base.Dict.{get}
use prov_go.Platform.{Bytes, TxResponse}
use prov_go.Pool.Block.{BlockReply}
use prov_go.Pool.Metadata.{tx_metadata_from, event_response, nil_tx}
use prov_go.Pool.Types.{
  AddCollateralResponseV1, BorrowResponseV1, LendResponseV1, LiquidateResponseV1, RepayResponseV1,
  RemoveCollateralResponseV1, SetBorrowerRequiredAttrsResponseV1, SetLenderRequiredAttrsResponseV1,
  SetLenderRequireCommitOnExitResponseV1, SetOperationStateResponseV1,
  UpdateContractConfigResponseV1, UpdateRateParamsResponseV1, UpdateSupportedCollateralResponseV1,
  WithdrawResponseV1, Cw20WithdrawExactResponseV1, Cw20TransferResponseV1,
  Cw20TransferExactResponseV1, WithdrawReserveResponseV1, Cw20ReceiveOutcome, withdrawn,
  withdrawn_exact, transferred, transferred_exact,
}

-- A pointer to a text that is not empty, or nil.
abbrev pub unless_blank : String → Option String
unless_blank s = if s == "" then none else some s

-- The first of the attempts that gives no error.
abbrev pub or_else :
    Result Cw20ReceiveOutcome → Result Cw20ReceiveOutcome → Result Cw20ReceiveOutcome
or_else (ok v) next = ok v
or_else (err _) next = next
or_else (panic s) next = panic s

module _ (sum : Bytes → Bytes) (tx : Option TxResponse) (block : Option BlockReply) where
  unfoldable pub parse_add_collateral : Result AddCollateralResponseV1
  parse_add_collateral = do
    l ← tx_metadata_from sum tx block "add_collateral"
    ok (record {
      event = event_response l;
      borrower = get "borrower" l.attrs;
      collateral_json = get "collateral_json" l.attrs;
    })

  unfoldable pub parse_borrow : Result BorrowResponseV1
  parse_borrow = do
    l ← tx_metadata_from sum tx block "borrow"
    ok (record {
      event = event_response l;
      borrower = get "borrower" l.attrs;
      amount = get "amount" l.attrs;
      scaled_amount = get "scaled_amount" l.attrs;
    })

  unfoldable pub parse_lend : Result LendResponseV1
  parse_lend = do
    l ← tx_metadata_from sum tx block "lend"
    ok (record {
      event = event_response l;
      lender = get "lender" l.attrs;
      amount = get "amount" l.attrs;
      scaled_amount = get "scaled_amount" l.attrs;
    })

  unfoldable pub parse_liquidate : Result LiquidateResponseV1
  parse_liquidate = do
    l ← tx_metadata_from sum tx block "liquidate"
    ok (record {
      event = event_response l;
      liquidator = get "liquidator" l.attrs;
      borrower = get "borrower" l.attrs;
      amount = get "amount" l.attrs;
      scaled_amount = get "scaled_amount" l.attrs;
      collateral_json = get "collateral_json" l.attrs;
    })

  unfoldable pub parse_repay : Result RepayResponseV1
  parse_repay = do
    l ← tx_metadata_from sum tx block "repay"
    ok (record {
      event = event_response l;
      borrower = get "borrower" l.attrs;
      amount = get "amount" l.attrs;
      scaled_amount = get "scaled_amount" l.attrs;
    })

  unfoldable pub parse_remove_collateral : Result RemoveCollateralResponseV1
  parse_remove_collateral = do
    l ← tx_metadata_from sum tx block "remove_collateral"
    ok (record {
      event = event_response l;
      borrower = get "borrower" l.attrs;
      collateral_json = get "collateral_json" l.attrs;
    })

  unfoldable pub parse_set_borrower_required_attrs : Result SetBorrowerRequiredAttrsResponseV1
  parse_set_borrower_required_attrs = do
    l ← tx_metadata_from sum tx block "set_borrower_required_attrs"
    ok (record {
      event = event_response l;
      borrower_required_attrs_json = get "borrower_required_attrs_json" l.attrs;
    })

  unfoldable pub parse_set_lender_required_attrs : Result SetLenderRequiredAttrsResponseV1
  parse_set_lender_required_attrs = do
    l ← tx_metadata_from sum tx block "set_lender_required_attrs"
    ok (record {
      event = event_response l;
      lender_required_attrs_json = get "lender_required_attrs_json" l.attrs;
    })

  unfoldable pub parse_set_lender_require_commit_on_exit :
      Result SetLenderRequireCommitOnExitResponseV1
  parse_set_lender_require_commit_on_exit = do
    l ← tx_metadata_from sum tx block "set_lender_require_commit_on_exit"
    ok (record {
      event = event_response l;
      address = get "address" l.attrs;
      require = get "require" l.attrs;
    })

  unfoldable pub parse_set_operational_state : Result SetOperationStateResponseV1
  parse_set_operational_state = do
    l ← tx_metadata_from sum tx block "set_operational_state"
    ok (record { event = event_response l; state = get "state" l.attrs })

  unfoldable pub parse_update_contract_config : Result UpdateContractConfigResponseV1
  parse_update_contract_config = do
    l ← tx_metadata_from sum tx block "update_contract_config"
    ok (record { event = event_response l })

  unfoldable pub parse_update_rate_params : Result UpdateRateParamsResponseV1
  parse_update_rate_params = do
    l ← tx_metadata_from sum tx block "update_rate_params"
    ok (record { event = event_response l })

  unfoldable pub parse_update_supported_collateral : Result UpdateSupportedCollateralResponseV1
  parse_update_supported_collateral = do
    l ← tx_metadata_from sum tx block "update_supported_collateral"
    ok (record {
      event = event_response l;
      collateral_updated_json = unless_blank (get "supported_collateral_updated_json" l.attrs);
      collateral_removed_json = unless_blank (get "supported_collateral_removed_json" l.attrs);
    })

  unfoldable pub parse_withdraw : Result WithdrawResponseV1
  parse_withdraw = do
    l ← tx_metadata_from sum tx block "withdraw"
    ok (record {
      event = event_response l;
      lender = get "lender" l.attrs;
      amount = get "amount" l.attrs;
      scaled_amount = get "scaled_amount" l.attrs;
    })

  unfoldable pub parse_withdraw_exact : Result Cw20WithdrawExactResponseV1
  parse_withdraw_exact = do
    l ← tx_metadata_from sum tx block "withdraw_exact"
    ok (record {
      event = event_response l;
      lender = get "lender" l.attrs;
      amount = get "amount" l.attrs;
      scaled_amount = get "scaled_amount" l.attrs;
    })

  unfoldable pub parse_transfer : Result Cw20TransferResponseV1
  parse_transfer = do
    l ← tx_metadata_from sum tx block "transfer"
    ok (record {
      event = event_response l;
      lender = get "lender" l.attrs;
      recipient = get "recipient" l.attrs;
      amount = get "amount" l.attrs;
      scaled_amount = get "scaled_amount" l.attrs;
    })

  unfoldable pub parse_transfer_exact : Result Cw20TransferExactResponseV1
  parse_transfer_exact = do
    l ← tx_metadata_from sum tx block "transfer_exact"
    ok (record {
      event = event_response l;
      lender = get "lender" l.attrs;
      recipient = get "recipient" l.attrs;
      amount = get "amount" l.attrs;
      scaled_amount = get "scaled_amount" l.attrs;
    })

  unfoldable pub parse_withdraw_reserve : Result WithdrawReserveResponseV1
  parse_withdraw_reserve = do
    l ← tx_metadata_from sum tx block "withdraw_reserve"
    ok (record {
      event = event_response l;
      recipient = get "recipient" l.attrs;
      amount = get "amount" l.attrs;
    })

  unfoldable pub parse_cw20_receive_response : Result Cw20ReceiveOutcome
  parse_cw20_receive_response = elim tx [
    | none ↦ err nil_tx
    | some _ ↦
        or_else (do ok (withdrawn (← parse_withdraw)))
          (or_else (do ok (withdrawn_exact (← parse_withdraw_exact)))
            (or_else (do ok (transferred (← parse_transfer)))
              (or_else (do ok (transferred_exact (← parse_transfer_exact)))
                (err (errorf "pool: cw20 receive: no matching withdraw/transfer action" [])))))
  ]
