-- ===== src/Pool/QueryTypes.antt =====
-- What the queries of the pool's contract give (pkg/demoprime/pool/query_types.go). An array that may
-- be null is a list here.
use prov_go.Base.{Bool, String, Option, List}
use prov_go.Base.Int.{ℤ}
use prov_go.Pool.Messages.{RateParamsV1, CollateralAssetV1}

pub record Denom : Type 0 where
  pub name : String
  pub precision : ℤ

pub record AssetRequirementV1 : Type 0 where
  pub asset_id : String
  pub amount : String

pub record PoolContractStateV1 : Type 0 where
  pub admin : String
  pub contract_name : String
  pub description : String
  pub repo_token_cw20_address : String
  pub lending_denom : Denom
  pub rate_params : RateParamsV1
  pub lender_required_attrs : List String
  pub borrow_required_attrs : List String
  pub price_oracle_address : String
  pub max_borrower_collateral_types : ℤ
  pub margin_rate : String
  pub liquidation_rate : String
  pub liquidation_bonus_rate : String
  pub min_lend : String
  pub min_borrow : String
  pub supported_collateral_assets : List CollateralAssetV1
  pub operational_state : String

pub record ReserveStateResponseV1 : Type 0 where
  pub liquidity_index : String
  pub borrow_index : String
  pub last_updated_at : String
  pub total_scaled_liquidity : String
  pub total_scaled_borrow : String
  pub accrued_reserve : String
  pub total_liquidity : String
  pub total_borrow : String

pub record StateResponseV1 : Type 0 where
  pub contract : PoolContractStateV1
  pub reserve : ReserveStateResponseV1
  pub supported_collateral : List CollateralAssetV1
  pub total_collateral_held : List AssetRequirementV1

pub record LenderStatusResponseV1 : Type 0 where
  pub require_commit_on_exit : Bool

pub record ReserveResponseV1 : Type 0 where
  pub reserve : ReserveStateResponseV1
  pub current_borrower_rate : String
  pub current_lender_rate : String
  pub utilization : String

pub record BorrowerPositionResponseV1 : Type 0 where
  pub address : String
  pub scaled_borrow : String
  pub underlying_debt : String
  pub underlying_debt_display : String
  pub lending_denom : Denom
  pub collateral : List AssetRequirementV1
  pub collateral_value_usd : String
  pub loan_to_value : String
  pub health : String
  pub health_unknown_reason : Option String

pub record CollateralRequirementsResponseV1 : Type 0 where
  pub required_collateral_value_usd : String
  pub additional_collateral_value_usd : String
  pub required : List AssetRequirementV1
