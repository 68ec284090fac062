-- ===== src/Pool/Messages.antt =====
-- The messages of the pool's contract (pkg/demoprime/pool/messages.go), as the values whose JSON
-- is sent.
use prov_go.Base.{String, Option, none, some, List, [], ◌∷◌}
use prov_go.Base.Int.{ℤ}
use prov_go.Pool.Json.{Json, text, int, object, Items, nil, cons, end, field, optional, decimal}

-- `ExecuteRequestV1`: every field is left out of the JSON when it is empty.
pub record ExecuteRequestV1 : Type 0 where
  pub lend : Option Json
  pub receive : Option Json
  pub borrow : Option Json
  pub repay : Option Json
  pub add_collateral : Option Json
  pub remove_collateral : Option Json
  pub liquidate : Option Json
  pub set_operational_state : Option Json
  pub set_lender_required_attrs : Option Json
  pub set_borrower_required_attrs : Option Json
  pub set_lender_require_commit_exit : Option Json
  pub update_contract_config : Option Json
  pub update_supported_collateral : Option Json
  pub update_rate_params : Option Json
  pub withdraw : Option Json
  pub withdraw_reserve : Option Json

abbrev no_request : ExecuteRequestV1
no_request = record {
  lend = none;
  receive = none;
  borrow = none;
  repay = none;
  add_collateral = none;
  remove_collateral = none;
  liquidate = none;
  set_operational_state = none;
  set_lender_required_attrs = none;
  set_borrower_required_attrs = none;
  set_lender_require_commit_exit = none;
  update_contract_config = none;
  update_supported_collateral = none;
  update_rate_params = none;
  withdraw = none;
  withdraw_reserve = none;
}

abbrev pub raw : Json → Json
raw j = j

unfoldable pub marshal_execute : ExecuteRequestV1 → Json
unfolding optional
marshal_execute e = object (
    optional "lend" raw (e.lend) (
      optional "receive" raw (e.receive) (
        optional "borrow" raw (e.borrow) (
          optional "repay" raw (e.repay) (
            optional "add_collateral" raw (e.add_collateral) (
              optional "remove_collateral" raw (e.remove_collateral) (
                optional "liquidate" raw (e.liquidate) (
                  optional "set_operational_state" raw (e.set_operational_state) (
                    optional "set_lender_required_attrs" raw (e.set_lender_required_attrs) (
                      optional "set_borrower_required_attrs" raw (e.set_borrower_required_attrs) (
                        optional "set_lender_require_commit_on_exit" raw
                          (e.set_lender_require_commit_exit)
                          (optional "update_contract_config" raw (e.update_contract_config) (
                            optional "update_supported_collateral" raw
                              (e.update_supported_collateral)
                              (optional "update_rate_params" raw (e.update_rate_params) (
                                optional "withdraw" raw (e.withdraw) (
                                  optional "withdraw_reserve" raw (e.withdraw_reserve)
                                    end))))))))))))))))

unfoldable pub build_execute : (ExecuteRequestV1 → ExecuteRequestV1) → Json
unfolding marshal_execute
build_execute patch = marshal_execute (patch no_request)

-- `bigString`
unfoldable pub big_string : Option ℤ → String
unfolding decimal
big_string none = "0"
big_string (some n) = decimal n

pub record CollateralAssetV1 : Type 0 where
  pub id : String
  pub haircut : Option String

unfoldable pub asset_json : CollateralAssetV1 → Json
unfolding optional
asset_json a = object (field "id" (text a.id) (optional "h" text (a.haircut) end))

unfoldable pub assets_json : List CollateralAssetV1 → Items
unfolding asset_json
assets_json [] = nil
assets_json (a ∷ more) = cons (asset_json a) (assets_json more)

pub record RateParamsV1 : Type 0 where
  pub target_rate : String
  pub min_rate : String
  pub max_rate : String
  pub kink_utilization : String
  pub reserve_factor : String
  pub seconds_per_year : ℤ

unfoldable pub rate_params_json : RateParamsV1 → Json
rate_params_json r = object (
    field "tr" (text r.target_rate) (
      field "minr" (text r.min_rate) (
        field "maxr" (text r.max_rate) (
          field "kink" (text r.kink_utilization)
            (field "rf" (text r.reserve_factor) (field "spy" (int r.seconds_per_year) end))))))

pub record Cw20ReceiveRequestV1 : Type 0 where
  pub sender : String
  pub amount : String
  pub msg : String
