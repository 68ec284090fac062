-- ===== src/Pool/Types.antt =====
-- The response types of executed messages (pkg/demoprime/pool/responses.go): the place of the
-- event in the chain, and the attributes that the contract reported.
use prov_go.Base.{ℕ, String, Option}
use prov_go.Base.Int.{ℤ}

-- `TxMetadata`
pub record TxMetadata : Type 0 where
  pub tx_hash : String
  pub tx_index : ℕ
  pub tx_event_index : ℕ

pub record WasmTxEventResponse : Type 0 where
  pub block_height : ℤ
  pub block_time : ℕ
  pub tx_hash : String
  pub tx_index : ℕ
  pub tx_event_index : ℕ
  pub contract_addr : String

pub record AddCollateralResponseV1 : Type 0 where
  pub event : WasmTxEventResponse
  pub borrower : String
  pub collateral_json : String

pub record BorrowResponseV1 : Type 0 where
  pub event : WasmTxEventResponse
  pub borrower : String
  pub amount : String
  pub scaled_amount : String

pub record LendResponseV1 : Type 0 where
  pub event : WasmTxEventResponse
  pub lender : String
  pub amount : String
  pub scaled_amount : String

pub record LiquidateResponseV1 : Type 0 where
  pub event : WasmTxEventResponse
  pub liquidator : String
  pub borrower : String
  pub amount : String
  pub scaled_amount : String
  pub collateral_json : String

pub record RepayResponseV1 : Type 0 where
  pub event : WasmTxEventResponse
  pub borrower : String
  pub amount : String
  pub scaled_amount : String

pub record RemoveCollateralResponseV1 : Type 0 where
  pub event : WasmTxEventResponse
  pub borrower : String
  pub collateral_json : String

pub record SetBorrowerRequiredAttrsResponseV1 : Type 0 where
  pub event : WasmTxEventResponse
  pub borrower_required_attrs_json : String

pub record SetLenderRequiredAttrsResponseV1 : Type 0 where
  pub event : WasmTxEventResponse
  pub lender_required_attrs_json : String

pub record SetLenderRequireCommitOnExitResponseV1 : Type 0 where
  pub event : WasmTxEventResponse
  pub address : String
  pub require : String

pub record SetOperationStateResponseV1 : Type 0 where
  pub event : WasmTxEventResponse
  pub state : String

pub record UpdateContractConfigResponseV1 : Type 0 where
  pub event : WasmTxEventResponse

pub record UpdateRateParamsResponseV1 : Type 0 where
  pub event : WasmTxEventResponse

pub record UpdateSupportedCollateralResponseV1 : Type 0 where
  pub event : WasmTxEventResponse
  pub collateral_updated_json : Option String
  pub collateral_removed_json : Option String

pub record WithdrawResponseV1 : Type 0 where
  pub event : WasmTxEventResponse
  pub lender : String
  pub amount : String
  pub scaled_amount : String

pub record Cw20WithdrawExactResponseV1 : Type 0 where
  pub event : WasmTxEventResponse
  pub lender : String
  pub amount : String
  pub scaled_amount : String

pub record Cw20TransferResponseV1 : Type 0 where
  pub event : WasmTxEventResponse
  pub lender : String
  pub recipient : String
  pub amount : String
  pub scaled_amount : String

pub record Cw20TransferExactResponseV1 : Type 0 where
  pub event : WasmTxEventResponse
  pub lender : String
  pub recipient : String
  pub amount : String
  pub scaled_amount : String

pub record WithdrawReserveResponseV1 : Type 0 where
  pub event : WasmTxEventResponse
  pub recipient : String
  pub amount : String

-- The interface `Cw20ReceiveOutcome`, by its implementations.
pub data Cw20ReceiveOutcome : Type 0 where
  withdrawn : WithdrawResponseV1 → Cw20ReceiveOutcome
  withdrawn_exact : Cw20WithdrawExactResponseV1 → Cw20ReceiveOutcome
  transferred : Cw20TransferResponseV1 → Cw20ReceiveOutcome
  transferred_exact : Cw20TransferExactResponseV1 → Cw20ReceiveOutcome
