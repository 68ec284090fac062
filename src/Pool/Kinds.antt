-- ===== src/Pool/Kinds.antt =====
-- The kinds of responses of the pool client (pkg/demoprime/pool/responses.go): the parser of each, and
-- what the response says of the event that it was read from.
use prov_go.Base.{String, Option, List, [], ◌∷◌, Result}
use prov_go.Base.Dict.{get}
use prov_go.Platform.{Bytes, TxResponse}
use prov_go.Pool.Block.{BlockReply}
use prov_go.Pool.Metadata.{Located, event_response}
use prov_go.Pool.Types.{
  AddCollateralResponseV1, BorrowResponseV1, Cw20ReceiveOutcome, LendResponseV1,
  LiquidateResponseV1, RemoveCollateralResponseV1, RepayResponseV1,
  SetBorrowerRequiredAttrsResponseV1, SetLenderRequireCommitOnExitResponseV1,
  SetLenderRequiredAttrsResponseV1, SetOperationStateResponseV1, UpdateContractConfigResponseV1,
  UpdateRateParamsResponseV1, UpdateSupportedCollateralResponseV1, WithdrawReserveResponseV1,
  WithdrawResponseV1, Cw20WithdrawExactResponseV1, Cw20TransferResponseV1,
  Cw20TransferExactResponseV1, withdrawn, withdrawn_exact, transferred, transferred_exact,
}
use prov_go.Pool.Responses.{
  unless_blank, parse_lend, parse_cw20_receive_response, parse_borrow, parse_repay,
  parse_add_collateral, parse_remove_collateral, parse_liquidate, parse_update_supported_collateral,
  parse_set_operational_state, parse_set_borrower_required_attrs, parse_set_lender_required_attrs,
  parse_set_lender_require_commit_on_exit, parse_update_contract_config, parse_update_rate_params,
  parse_withdraw, parse_withdraw_reserve,
}

pub data Kind : Type 0 → Type 1 where
  lend : Kind LendResponseV1
  receive : Kind Cw20ReceiveOutcome
  borrow : Kind BorrowResponseV1
  repay : Kind RepayResponseV1
  add_collateral : Kind AddCollateralResponseV1
  remove_collateral : Kind RemoveCollateralResponseV1
  liquidate : Kind LiquidateResponseV1
  update_supported_collateral : Kind UpdateSupportedCollateralResponseV1
  set_operational_state : Kind SetOperationStateResponseV1
  set_borrower_required_attrs : Kind SetBorrowerRequiredAttrsResponseV1
  set_lender_required_attrs : Kind SetLenderRequiredAttrsResponseV1
  set_lender_require_commit_on_exit : Kind SetLenderRequireCommitOnExitResponseV1
  update_contract_config : Kind UpdateContractConfigResponseV1
  update_rate_params : Kind UpdateRateParamsResponseV1
  withdraw : Kind WithdrawResponseV1
  withdraw_reserve : Kind WithdrawReserveResponseV1

abbrev pub parser :
    {V : Type 0} → Kind V → (Bytes → Bytes) → Option TxResponse → Option BlockReply → Result V
parser lend = parse_lend
parser receive = parse_cw20_receive_response
parser borrow = parse_borrow
parser repay = parse_repay
parser add_collateral = parse_add_collateral
parser remove_collateral = parse_remove_collateral
parser liquidate = parse_liquidate
parser update_supported_collateral = parse_update_supported_collateral
parser set_operational_state = parse_set_operational_state
parser set_borrower_required_attrs = parse_set_borrower_required_attrs
parser set_lender_required_attrs = parse_set_lender_required_attrs
parser set_lender_require_commit_on_exit = parse_set_lender_require_commit_on_exit
parser update_contract_config = parse_update_contract_config
parser update_rate_params = parse_update_rate_params
parser withdraw = parse_withdraw
parser withdraw_reserve = parse_withdraw_reserve

abbrev pub withdraw_read : Located → WithdrawResponseV1
withdraw_read l = record {
  event = event_response l;
  lender = get "lender" l.attrs;
  amount = get "amount" l.attrs;
  scaled_amount = get "scaled_amount" l.attrs;
}

abbrev pub withdraw_exact_read : Located → Cw20WithdrawExactResponseV1
withdraw_exact_read l = record {
  event = event_response l;
  lender = get "lender" l.attrs;
  amount = get "amount" l.attrs;
  scaled_amount = get "scaled_amount" l.attrs;
}

abbrev pub transfer_read : Located → Cw20TransferResponseV1
transfer_read l = record {
  event = event_response l;
  lender = get "lender" l.attrs;
  recipient = get "recipient" l.attrs;
  amount = get "amount" l.attrs;
  scaled_amount = get "scaled_amount" l.attrs;
}

abbrev pub transfer_exact_read : Located → Cw20TransferExactResponseV1
transfer_exact_read l = record {
  event = event_response l;
  lender = get "lender" l.attrs;
  recipient = get "recipient" l.attrs;
  amount = get "amount" l.attrs;
  scaled_amount = get "scaled_amount" l.attrs;
}

-- The actions that a response may be read from, and the response that each gives.
abbrev pub readings : {V : Type 0} → Kind V → List (String × (Located → V))
readings lend =
    (
      "lend",
      λ l. record {
        event = event_response l;
        lender = get "lender" l.attrs;
        amount = get "amount" l.attrs;
        scaled_amount = get "scaled_amount" l.attrs;
      },
    )
    ∷ []
readings receive =
    ("withdraw", λ l. withdrawn (withdraw_read l))
    ∷ ("withdraw_exact", λ l. withdrawn_exact (withdraw_exact_read l))
    ∷ ("transfer", λ l. transferred (transfer_read l))
    ∷ ("transfer_exact", λ l. transferred_exact (transfer_exact_read l))
    ∷ []
readings borrow =
    (
      "borrow",
      λ l. record {
        event = event_response l;
        borrower = get "borrower" l.attrs;
        amount = get "amount" l.attrs;
        scaled_amount = get "scaled_amount" l.attrs;
      },
    )
    ∷ []
readings repay =
    (
      "repay",
      λ l. record {
        event = event_response l;
        borrower = get "borrower" l.attrs;
        amount = get "amount" l.attrs;
        scaled_amount = get "scaled_amount" l.attrs;
      },
    )
    ∷ []
readings add_collateral =
    (
      "add_collateral",
      λ l. record {
        event = event_response l;
        borrower = get "borrower" l.attrs;
        collateral_json = get "collateral_json" l.attrs;
      },
    )
    ∷ []
readings remove_collateral =
    (
      "remove_collateral",
      λ l. record {
        event = event_response l;
        borrower = get "borrower" l.attrs;
        collateral_json = get "collateral_json" l.attrs;
      },
    )
    ∷ []
readings liquidate =
    (
      "liquidate",
      λ l. record {
        event = event_response l;
        liquidator = get "liquidator" l.attrs;
        borrower = get "borrower" l.attrs;
        amount = get "amount" l.attrs;
        scaled_amount = get "scaled_amount" l.attrs;
        collateral_json = get "collateral_json" l.attrs;
      },
    )
    ∷ []
readings update_supported_collateral =
    (
      "update_supported_collateral",
      λ l. record {
        event = event_response l;
        collateral_updated_json = unless_blank (get "supported_collateral_updated_json" l.attrs);
        collateral_removed_json = unless_blank (get "supported_collateral_removed_json" l.attrs);
      },
    )
    ∷ []
readings set_operational_state =
    ("set_operational_state", λ l. record { event = event_response l; state = get "state" l.attrs })
    ∷ []
readings set_borrower_required_attrs =
    (
      "set_borrower_required_attrs",
      λ l. record {
        event = event_response l;
        borrower_required_attrs_json = get "borrower_required_attrs_json" l.attrs;
      },
    )
    ∷ []
readings set_lender_required_attrs =
    (
      "set_lender_required_attrs",
      λ l. record {
        event = event_response l;
        lender_required_attrs_json = get "lender_required_attrs_json" l.attrs;
      },
    )
    ∷ []
readings set_lender_require_commit_on_exit =
    (
      "set_lender_require_commit_on_exit",
      λ l. record {
        event = event_response l;
        address = get "address" l.attrs;
        require = get "require" l.attrs;
      },
    )
    ∷ []
readings update_contract_config =
    ("update_contract_config", λ l. record { event = event_response l }) ∷ []
readings update_rate_params = ("update_rate_params", λ l. record { event = event_response l }) ∷ []
readings withdraw =
    (
      "withdraw",
      λ l. record {
        event = event_response l;
        lender = get "lender" l.attrs;
        amount = get "amount" l.attrs;
        scaled_amount = get "scaled_amount" l.attrs;
      },
    )
    ∷ []
readings withdraw_reserve =
    (
      "withdraw_reserve",
      λ l. record {
        event = event_response l;
        recipient = get "recipient" l.attrs;
        amount = get "amount" l.attrs;
      },
    )
    ∷ []
