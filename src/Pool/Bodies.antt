-- ===== src/Pool/Bodies.antt =====
-- What a reader finds in the bytes of each execute message (pkg/demoprime/pool/messages.go).
use prov_go.Base.{◌≡◌, refl, Bool, Option, none, some, List, String}
use prov_go.Base.Int.{ℤ}
use prov_go.Pool.Json.{Json, int, object, end, field, optional, empty_object_json, decimal}
use prov_go.Pool.Text.{marshal}
use prov_go.Pool.Messages.{
  build_execute, marshal_execute, big_string, Cw20ReceiveRequestV1, RateParamsV1, CollateralAssetV1,
  rate_params_json,
}
use prov_go.Pool.Exec.{
  ContractConfig, exec_lend, exec_repay, exec_add_collateral, exec_receive, exec_borrow,
  exec_remove_collateral, exec_liquidate, exec_update_supported_collateral,
  exec_set_operational_state, exec_set_borrower_required_attrs, exec_set_lender_required_attrs,
  exec_set_lender_require_commit_on_exit, exec_update_contract_config, exec_update_rate_params,
  exec_withdraw, exec_withdraw_reserve, written,
}
use prov_go.Pool.Reader.Utf8.{read_bytes, read_bytes-marshal}
use prov_go.Pool.Sent.{
  find, at, text_of_json, text_at, bool_of_json, texts_of_json, texts_of_json-slice,
  read_json-decimal, big_string-Amounts, entries_of_json, entries_of_fields-text_map,
  written-AllAmounts, AmountsAt, AsksWithdrawal, AsksReceive, AsksBorrow,
}
use prov_go.Pool.Settings.{AsksConfig, config-Asks, assets_of_json, assets_of_json-slice}

-- The bytes of the message stand for an object with this one field, whose value asks for this.
abbrev pub Received : String → (Json → Type 0) → Json → Type 0
Received variant Asks m =
    (body : Json) × (read_bytes (marshal m) ≡ some (object (field variant body end))) × Asks body

abbrev pub ListAt : String → Option (List String) → Json → Type 0
ListAt k o body = texts_of_json (at k body) ≡ o

abbrev pub AsksLiquidation : String → List (String × Option ℤ) → Json → Type 0
AsksLiquidation borrower m body =
    (text_at "borrower" body ≡ some borrower) × AmountsAt "collateral_to_seize" m body

abbrev pub AsksCommit : String → Option Bool → Json → Type 0
AsksCommit address require body =
    (text_at "address" body ≡ some address) × (bool_of_json (at "require" body) ≡ require)

abbrev pub AsksRates : RateParamsV1 → Json → Type 0
AsksRates r body =
    (rates : Json) × (at "rate_params" body ≡ some rates)
    × ((text_at "tr" rates ≡ some (r.target_rate))
        × (text_at "minr" rates ≡ some (r.min_rate))
        × (text_at "maxr" rates ≡ some (r.max_rate))
        × (text_at "kink" rates ≡ some (r.kink_utilization))
        × (text_at "rf" rates ≡ some (r.reserve_factor))
        × (at "spy" rates ≡ some (int (r.seconds_per_year))))

abbrev pub AsksNothing : Json → Type 0
AsksNothing body = body ≡ empty_object_json

pub exec_lend-Received : Received "lend" AsksNothing exec_lend
unfolding exec_lend build_execute marshal_execute optional
exec_lend-Received = (_, read_bytes-marshal exec_lend, refl)

pub exec_repay-Received : Received "repay" AsksNothing exec_repay
unfolding exec_repay build_execute marshal_execute optional
exec_repay-Received = (_, read_bytes-marshal exec_repay, refl)

pub exec_add_collateral-Received : Received "add_collateral" AsksNothing exec_add_collateral
unfolding exec_add_collateral build_execute marshal_execute optional
exec_add_collateral-Received = (_, read_bytes-marshal exec_add_collateral, refl)

pub exec_receive-Received :
    (msg : Cw20ReceiveRequestV1) → Received "receive" (AsksReceive msg) (exec_receive msg)
unfolding exec_receive build_execute marshal_execute optional text_at at find text_of_json
exec_receive-Received msg = (_, read_bytes-marshal (exec_receive msg), (refl, refl, refl))

pub exec_borrow-Received :
    (amount : Option ℤ) → Received "borrow" (AsksBorrow amount) (exec_borrow amount)
unfolding exec_borrow build_execute marshal_execute optional text_at at find text_of_json
exec_borrow-Received amount = (
  _,
  read_bytes-marshal (exec_borrow amount),
  (big_string amount, refl, big_string-Amounts amount),
)

pub exec_withdraw-Received :
    (lender : String) (amount : Option ℤ)
    → Received "withdraw" (AsksWithdrawal lender amount) (exec_withdraw lender amount)
unfolding exec_withdraw build_execute marshal_execute optional text_at at find text_of_json
exec_withdraw-Received lender none =
    (_, read_bytes-marshal (exec_withdraw lender none), (refl, refl))
exec_withdraw-Received lender (some i) = (
  _,
  read_bytes-marshal (exec_withdraw lender (some i)),
  (refl, (decimal i, refl, read_json-decimal i)),
)

pub exec_remove_collateral-Received :
    (m : List (String × Option ℤ))
    → Received "remove_collateral" (AmountsAt "to_remove" m) (exec_remove_collateral m)
unfolding exec_remove_collateral build_execute marshal_execute optional text_at at find text_of_json
    entries_of_json
exec_remove_collateral-Received m = (
  _,
  read_bytes-marshal (exec_remove_collateral m),
  (written m, entries_of_fields-text_map (written m), written-AllAmounts m),
)

pub exec_liquidate-Received :
    (borrower : String) (m : List (String × Option ℤ))
    → Received "liquidate" (AsksLiquidation borrower m) (exec_liquidate borrower m)
unfolding exec_liquidate build_execute marshal_execute optional text_at at find text_of_json
    entries_of_json
exec_liquidate-Received borrower m = (
  _,
  read_bytes-marshal (exec_liquidate borrower m),
  (refl, (written m, entries_of_fields-text_map (written m), written-AllAmounts m)),
)

pub exec_set_operational_state-Received :
    (state : String)
    → Received "set_operational_state"
        (λ body. text_at "state" body ≡ some state)
        (exec_set_operational_state state)
unfolding exec_set_operational_state build_execute marshal_execute optional text_at at find
    text_of_json
exec_set_operational_state-Received state =
    (_, read_bytes-marshal (exec_set_operational_state state), refl)

pub exec_set_borrower_required_attrs-Received :
    (attrs : Option (List String))
    → Received "set_borrower_required_attrs"
        (ListAt "borrower_required_attrs" attrs)
        (exec_set_borrower_required_attrs attrs)
unfolding exec_set_borrower_required_attrs build_execute marshal_execute optional text_at at find
    text_of_json
exec_set_borrower_required_attrs-Received attrs =
    (_, read_bytes-marshal (exec_set_borrower_required_attrs attrs), texts_of_json-slice attrs)

pub exec_set_lender_required_attrs-Received :
    (attrs : Option (List String))
    → Received "set_lender_required_attrs"
        (ListAt "lender_required_attrs" attrs)
        (exec_set_lender_required_attrs attrs)
unfolding exec_set_lender_required_attrs build_execute marshal_execute optional text_at at find
    text_of_json
exec_set_lender_required_attrs-Received attrs =
    (_, read_bytes-marshal (exec_set_lender_required_attrs attrs), texts_of_json-slice attrs)

pub exec_set_lender_require_commit_on_exit-Received :
    (address : String) (require : Option Bool)
    → Received "set_lender_require_commit_on_exit"
        (AsksCommit address require)
        (exec_set_lender_require_commit_on_exit address require)
unfolding exec_set_lender_require_commit_on_exit build_execute marshal_execute optional text_at at
    find text_of_json bool_of_json
exec_set_lender_require_commit_on_exit-Received address none =
    (_, read_bytes-marshal (exec_set_lender_require_commit_on_exit address none), (refl, refl))
exec_set_lender_require_commit_on_exit-Received address (some b) =
    (_, read_bytes-marshal (exec_set_lender_require_commit_on_exit address (some b)), (refl, refl))

pub exec_update_rate_params-Received :
    (rates : RateParamsV1)
    → Received "update_rate_params" (AsksRates rates) (exec_update_rate_params rates)
unfolding exec_update_rate_params rate_params_json build_execute marshal_execute optional text_at at
    find text_of_json
exec_update_rate_params-Received rates = (
  _,
  read_bytes-marshal (exec_update_rate_params rates),
  (_, refl, (refl, refl, refl, refl, refl, refl)),
)

pub exec_withdraw_reserve-Received :
    (recipient : Option String)
    → Received "withdraw_reserve"
        (λ body. text_at "recipient" body ≡ recipient)
        (exec_withdraw_reserve recipient)
unfolding exec_withdraw_reserve build_execute marshal_execute optional text_at at find text_of_json
exec_withdraw_reserve-Received none = (_, read_bytes-marshal (exec_withdraw_reserve none), refl)
exec_withdraw_reserve-Received (some address) =
    (_, read_bytes-marshal (exec_withdraw_reserve (some address)), refl)

-- The assets to remove and those to update.
abbrev pub AsksCollateral : Option (List String) → Option (List CollateralAssetV1) → Json → Type 0
AsksCollateral to_remove to_update body =
    ListAt "to_remove" to_remove body × (assets_of_json (at "to_update" body) ≡ to_update)

pub exec_update_supported_collateral-Received :
    (to_remove : Option (List String)) (to_update : Option (List CollateralAssetV1))
    → Received "update_supported_collateral"
        (AsksCollateral to_remove to_update)
        (exec_update_supported_collateral to_remove to_update)
unfolding exec_update_supported_collateral build_execute marshal_execute optional at find
exec_update_supported_collateral-Received to_remove to_update = (
  _,
  read_bytes-marshal (exec_update_supported_collateral to_remove to_update),
  (texts_of_json-slice to_remove, assets_of_json-slice to_update),
)

pub exec_update_contract_config-Received :
    (c : ContractConfig)
    → Received "update_contract_config" (AsksConfig c) (exec_update_contract_config c)
unfolding exec_update_contract_config build_execute marshal_execute optional
exec_update_contract_config-Received c =
    (_, read_bytes-marshal (exec_update_contract_config c), config-Asks c)
