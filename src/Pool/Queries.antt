-- ===== src/Pool/Queries.antt =====
-- The queries of the pool client (pkg/demoprime/pool/client.go, messages.go). The smart query of the
-- node and `json.Unmarshal` into each response are parameters.
use prov_go.Base.{String, Option, none, some, List, [], Result, ok, err, errorf}
use prov_go.Base.Int.{ℤ}
use prov_go.Platform.{Platform, Bytes}
use prov_go.Client.Monad.{Action, ◌>>=◌, lift, call}
use prov_go.Pool.Json.{
  Json, text, slice_json, object, end, field, optional, texts, decimal, empty_object_json,
}
use prov_go.Pool.Messages.{raw}
use prov_go.Pool.QueryTypes.{
  LenderStatusResponseV1, StateResponseV1, ReserveResponseV1, BorrowerPositionResponseV1,
  CollateralRequirementsResponseV1,
}

-- `QueryRequestV1`: every field is left out of the JSON when it is empty.
pub record QueryRequestV1 : Type 0 where
  pub get_lender_status : Option Json
  pub get_state : Option Json
  pub get_reserve : Option Json
  pub get_borrower_position : Option Json
  pub get_collateral_requirements : Option Json

abbrev no_query : QueryRequestV1
no_query = record {
  get_lender_status = none;
  get_state = none;
  get_reserve = none;
  get_borrower_position = none;
  get_collateral_requirements = none;
}

unfoldable pub marshal_query : QueryRequestV1 → Json
unfolding optional
marshal_query q = object (
    optional "get_lender_status" raw (q.get_lender_status) (
      optional "get_state" raw (q.get_state) (
        optional "get_reserve" raw (q.get_reserve) (
          optional "get_borrower_position" raw (q.get_borrower_position)
            (optional "get_collateral_requirements" raw (q.get_collateral_requirements) end)))))

unfoldable pub query_get_lender_status : String → Json
unfolding marshal_query
query_get_lender_status address =
    marshal_query
      (record no_query { get_lender_status = some (object (field "address" (text address) end)) })

unfoldable pub query_get_state : Json
unfolding marshal_query
query_get_state = marshal_query (record no_query { get_state = some empty_object_json })

unfoldable pub query_get_reserve : Json
unfolding marshal_query
query_get_reserve = marshal_query (record no_query { get_reserve = some empty_object_json })

unfoldable pub query_get_borrower_position : String → Json
unfolding marshal_query
query_get_borrower_position address =
    marshal_query (record no_query {
      get_borrower_position = some (object (field "address" (text address) end));
    })

abbrev pub requirements_json : Option String → Option (List String) → ℤ → Json
requirements_json borrower collateral_assets amount = object (
    optional "borrower" text borrower (
      field "collateral_assets" (slice_json texts collateral_assets)
        (field "new_loan_amount" (text (decimal amount)) end)))

-- A nil amount is refused.
unfoldable pub query_get_collateral_requirements :
    Option String → Option (List String) → Option ℤ → Result Json
unfolding marshal_query optional texts decimal
query_get_collateral_requirements borrower collateral_assets none =
    err (errorf "newLoanAmount required" [])
query_get_collateral_requirements borrower collateral_assets (some amount) = ok (
    marshal_query (record no_query {
      get_collateral_requirements = some (requirements_json borrower collateral_assets amount);
    }))

pub record SmartQueries (P : Platform) : Type 0 where
  pub smart_contract_state : (contract : String) → Json → P.State → Result Bytes × P.State
  pub lender_status : Bytes → Result LenderStatusResponseV1
  pub state : Bytes → Result StateResponseV1
  pub reserve : Bytes → Result ReserveResponseV1
  pub borrower_position : Bytes → Result BorrowerPositionResponseV1
  pub collateral_requirements : Bytes → Result CollateralRequirementsResponseV1

module _ (P : Platform) (Q : SmartQueries P) (contract_addr : String) where
  unfoldable pub query_smart_contract : Json → Action P Bytes
  query_smart_contract query = call (Q.smart_contract_state contract_addr query)

  unfoldable pub get_lender_status : String → Action P LenderStatusResponseV1
  unfolding query_smart_contract query_get_lender_status
  get_lender_status address = do
    answer ← query_smart_contract (query_get_lender_status address)
    lift (Q.lender_status answer)

  unfoldable pub get_state : Action P StateResponseV1
  unfolding query_smart_contract query_get_state
  get_state = do answer ← query_smart_contract query_get_state; lift (Q.state answer)

  unfoldable pub get_reserve : Action P ReserveResponseV1
  unfolding query_smart_contract query_get_reserve
  get_reserve = do answer ← query_smart_contract query_get_reserve; lift (Q.reserve answer)

  unfoldable pub get_borrower_position : String → Action P BorrowerPositionResponseV1
  unfolding query_smart_contract query_get_borrower_position
  get_borrower_position address = do
    answer ← query_smart_contract (query_get_borrower_position address)
    lift (Q.borrower_position answer)

  unfoldable pub get_collateral_requirements :
      Option String → Option (List String) → Option ℤ → Action P CollateralRequirementsResponseV1
  unfolding query_smart_contract query_get_collateral_requirements
  get_collateral_requirements borrower collateral_assets new_loan_amount = do
    query ← lift (query_get_collateral_requirements borrower collateral_assets new_loan_amount)
    answer ← query_smart_contract query
    lift (Q.collateral_requirements answer)
