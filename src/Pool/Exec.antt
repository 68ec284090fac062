-- ===== src/Pool/Exec.antt =====
-- The builders of execute messages (pkg/demoprime/pool/messages.go): each sets one variant.
use prov_go.Base.{Bool, String, Option, none, some, List, map}
use prov_go.Base.Int.{ℤ}
use prov_go.Pool.Json.{Json, text, object, end, field, empty_object_json, decimal}
use prov_go.Pool.Messages.{
  build_execute, big_string, CollateralAssetV1, RateParamsV1, Cw20ReceiveRequestV1,
}
use prov_go.Pool.Requests.{
  borrow_request_json, remove_collateral_request_json, liquidate_request_json,
  update_supported_collateral_request_json, set_operational_state_request_json,
  set_borrower_required_attrs_request_json, set_lender_required_attrs_request_json,
  set_lender_require_commit_on_exit_request_json, update_contract_config_request_json,
  update_rate_params_request_json, withdraw_request_json, withdraw_reserve_request_json,
}

unfoldable pub exec_lend : Json
exec_lend = build_execute (λ e. record e { lend = some empty_object_json })

unfoldable pub exec_repay : Json
exec_repay = build_execute (λ e. record e { repay = some empty_object_json })

unfoldable pub exec_add_collateral : Json
exec_add_collateral = build_execute (λ e. record e { add_collateral = some empty_object_json })

unfoldable pub exec_receive : Cw20ReceiveRequestV1 → Json
exec_receive r = build_execute λ e. record e {
  receive = some (
      object (
        field "sender" (text r.sender)
          (field "amount" (text r.amount) (field "msg" (text r.msg) end))));
}

unfoldable pub exec_borrow : Option ℤ → Json
exec_borrow amount =
    build_execute
      λ e. record e { borrow = some (borrow_request_json (record { amount = big_string amount })) }

-- The amounts by their decimal texts.
abbrev pub written : List (String × Option ℤ) → List (String × String)
written m = map (λ (e : String × Option ℤ). (e.0, big_string e.1)) m

unfoldable pub exec_remove_collateral : List (String × Option ℤ) → Json
exec_remove_collateral to_remove = build_execute λ e. record e {
  remove_collateral =
      some (remove_collateral_request_json (record { to_remove = written to_remove }));
}

unfoldable pub exec_liquidate : String → List (String × Option ℤ) → Json
exec_liquidate borrower to_seize = build_execute λ e. record e {
  liquidate = some (
      liquidate_request_json
        (record { borrower = borrower; collateral_to_seize = written to_seize }));
}

unfoldable pub exec_update_supported_collateral :
    Option (List String) → Option (List CollateralAssetV1) → Json
exec_update_supported_collateral to_remove to_update = build_execute λ e. record e {
  update_supported_collateral = some (
      update_supported_collateral_request_json
        (record { to_remove = to_remove; to_update = to_update }));
}

unfoldable pub exec_set_operational_state : String → Json
exec_set_operational_state state = build_execute λ e. record e {
  set_operational_state = some (set_operational_state_request_json (record { state = state }));
}

unfoldable pub exec_set_borrower_required_attrs : Option (List String) → Json
exec_set_borrower_required_attrs attrs = build_execute λ e. record e {
  set_borrower_required_attrs =
      some (set_borrower_required_attrs_request_json (record { borrower_required_attrs = attrs }));
}

unfoldable pub exec_set_lender_required_attrs : Option (List String) → Json
exec_set_lender_required_attrs attrs = build_execute λ e. record e {
  set_lender_required_attrs =
      some (set_lender_required_attrs_request_json (record { lender_required_attrs = attrs }));
}

unfoldable pub exec_set_lender_require_commit_on_exit : String → Option Bool → Json
exec_set_lender_require_commit_on_exit address require = build_execute λ e. record e {
  set_lender_require_commit_exit = some (
      set_lender_require_commit_on_exit_request_json
        (record { address = address; require = require }));
}

-- The text of an amount that may be absent, behind `ptrPlainString`.
abbrev pub amount_text : Option ℤ → Option String
amount_text none = none
amount_text (some n) = some (decimal n)

-- The arguments of `execUpdateContractConfig`.
pub record ContractConfig : Type 0 where
  pub liquidation_bonus_rate : Option String
  pub liquidation_rate : Option String
  pub margin_rate : Option String
  pub max_borrower_collateral_types : Option ℤ
  pub min_borrow : Option ℤ
  pub min_lend : Option ℤ
  pub price_oracle_address : Option String

unfoldable pub exec_update_contract_config : ContractConfig → Json
exec_update_contract_config c = build_execute λ e. record e {
  update_contract_config = some (
      update_contract_config_request_json (record {
        liquidation_bonus_rate = c.liquidation_bonus_rate;
        liquidation_rate = c.liquidation_rate;
        margin_rate = c.margin_rate;
        max_borrower_collateral_types = c.max_borrower_collateral_types;
        min_borrow = amount_text (c.min_borrow);
        min_lend = amount_text (c.min_lend);
        price_oracle_address = c.price_oracle_address;
      }));
}

unfoldable pub exec_update_rate_params : RateParamsV1 → Json
exec_update_rate_params rp = build_execute λ e. record e {
  update_rate_params = some (update_rate_params_request_json (record { rate_params = rp }));
}

-- `CommitFunds` is never set.
unfoldable pub exec_withdraw : String → Option ℤ → Json
exec_withdraw lender amount = build_execute λ e. record e {
  withdraw = some (
      withdraw_request_json
        (record { lender = lender; amount = amount_text amount; commit_funds = none }));
}

unfoldable pub exec_withdraw_reserve : Option String → Json
exec_withdraw_reserve recipient = build_execute λ e. record e {
  withdraw_reserve = some (withdraw_reserve_request_json (record { recipient = recipient }));
}
