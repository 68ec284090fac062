-- ===== src/Pool/Requests.antt =====
-- The sub-messages of an execute message (pkg/demoprime/pool/messages.go), with the JSON that their
-- field tags give.
use prov_go.Base.{Bool, String, Option, List}
use prov_go.Base.Int.{ℤ}
use prov_go.Pool.Json.{
  Json, text, int, bool, slice_json, object, end, field, optional, texts, text_map,
}
use prov_go.Pool.Messages.{CollateralAssetV1, assets_json, RateParamsV1, rate_params_json}

-- `OperationalStateV1`, a text, and its constants.
abbrev pub operational_active : String
operational_active = "active"

abbrev pub operational_frozen : String
operational_frozen = "frozen"

abbrev pub operational_paused : String
operational_paused = "paused"

pub record BorrowRequest : Type 0 where
  pub amount : String

abbrev pub borrow_request_json : BorrowRequest → Json
borrow_request_json r = object (field "amount" (text r.amount) end)

pub record RemoveCollateralRequest : Type 0 where
  pub to_remove : List (String × String)

abbrev pub remove_collateral_request_json : RemoveCollateralRequest → Json
remove_collateral_request_json r = object (field "to_remove" (object (text_map r.to_remove)) end)

pub record LiquidateRequest : Type 0 where
  pub borrower : String
  pub collateral_to_seize : List (String × String)

abbrev pub liquidate_request_json : LiquidateRequest → Json
liquidate_request_json r = object (
    field "borrower" (text r.borrower)
      (field "collateral_to_seize" (object (text_map r.collateral_to_seize)) end))

pub record UpdateSupportedCollateralRequest : Type 0 where
  pub to_remove : Option (List String)
  pub to_update : Option (List CollateralAssetV1)

abbrev pub update_supported_collateral_request_json : UpdateSupportedCollateralRequest → Json
update_supported_collateral_request_json r = object (
    field "to_remove" (slice_json texts (r.to_remove))
      (field "to_update" (slice_json assets_json (r.to_update)) end))

pub record SetOperationalStateRequest : Type 0 where
  pub state : String

abbrev pub set_operational_state_request_json : SetOperationalStateRequest → Json
set_operational_state_request_json r = object (field "state" (text r.state) end)

pub record SetBorrowerRequiredAttrsRequest : Type 0 where
  pub borrower_required_attrs : Option (List String)

abbrev pub set_borrower_required_attrs_request_json : SetBorrowerRequiredAttrsRequest → Json
set_borrower_required_attrs_request_json r =
    object (field "borrower_required_attrs" (slice_json texts (r.borrower_required_attrs)) end)

pub record SetLenderRequiredAttrsRequest : Type 0 where
  pub lender_required_attrs : Option (List String)

abbrev pub set_lender_required_attrs_request_json : SetLenderRequiredAttrsRequest → Json
set_lender_required_attrs_request_json r =
    object (field "lender_required_attrs" (slice_json texts (r.lender_required_attrs)) end)

pub record SetLenderRequireCommitOnExitRequest : Type 0 where
  pub address : String
  pub require : Option Bool

abbrev pub set_lender_require_commit_on_exit_request_json :
    SetLenderRequireCommitOnExitRequest → Json
set_lender_require_commit_on_exit_request_json r =
    object (field "address" (text r.address) (optional "require" bool (r.require) end))

pub record UpdateContractConfigRequest : Type 0 where
  pub liquidation_bonus_rate : Option String
  pub liquidation_rate : Option String
  pub margin_rate : Option String
  pub max_borrower_collateral_types : Option ℤ
  pub min_borrow : Option String
  pub min_lend : Option String
  pub price_oracle_address : Option String

abbrev pub update_contract_config_request_json : UpdateContractConfigRequest → Json
update_contract_config_request_json r = object (
    optional "liquidation_bonus_rate" text (r.liquidation_bonus_rate) (
      optional "liquidation_rate" text (r.liquidation_rate) (
        optional "margin_rate" text (r.margin_rate) (
          optional "max_borrower_collateral_types" int (r.max_borrower_collateral_types) (
            optional "min_borrow" text (r.min_borrow) (
              optional "min_lend" text (r.min_lend)
                (optional "price_oracle_address" text (r.price_oracle_address) end)))))))

pub record UpdateRateParamsRequest : Type 0 where
  pub rate_params : RateParamsV1

abbrev pub update_rate_params_request_json : UpdateRateParamsRequest → Json
update_rate_params_request_json r =
    object (field "rate_params" (rate_params_json r.rate_params) end)

pub record WithdrawRequest : Type 0 where
  pub lender : String
  pub amount : Option String
  pub commit_funds : Option Bool

abbrev pub withdraw_request_json : WithdrawRequest → Json
withdraw_request_json r = object (
    field "lender" (text r.lender)
      (optional "amount" text (r.amount) (optional "commit_funds" bool (r.commit_funds) end)))

pub record WithdrawReserveRequest : Type 0 where
  pub recipient : Option String

abbrev pub withdraw_reserve_request_json : WithdrawReserveRequest → Json
withdraw_reserve_request_json r = object (optional "recipient" text (r.recipient) end)
