-- ===== src/Pool/Read.antt =====
-- What a parser of the pool's responses (pkg/demoprime/pool/responses.go) has read, where it gives a
-- response of an executed transaction.
use prov_go.Base.{
  ◌≡◌, ◌⊎◌, inl, inr, String, Option, some, List, [], ◌∷◌, Result, Result-cases, ok, err, panic,
  ◌>>=◌, arith,
}
use prov_go.Platform.{Platform, TxResponse}
use prov_go.Pool.Block.{BlockReply}
use prov_go.Pool.Types.{
  Cw20ReceiveOutcome, withdrawn, withdrawn_exact, transferred, transferred_exact,
}
use prov_go.Pool.Metadata.{Located, tx_metadata_from}
use prov_go.Pool.Responses.{
  or_else, parse_lend, parse_cw20_receive_response, parse_borrow, parse_repay, parse_add_collateral,
  parse_remove_collateral, parse_liquidate, parse_update_supported_collateral,
  parse_set_operational_state, parse_set_borrower_required_attrs, parse_set_lender_required_attrs,
  parse_set_lender_require_commit_on_exit, parse_update_contract_config, parse_update_rate_params,
  parse_withdraw, parse_withdraw_reserve, parse_withdraw_exact, parse_transfer,
  parse_transfer_exact,
}
use prov_go.Pool.Located.{IsLocated, tx_metadata_from-IsLocated}
use prov_go.Pool.Wasm.{Wasm, Confirmed}
use prov_go.Pool.Kinds.{
  Kind, parser, readings, withdraw_read, withdraw_exact_read, transfer_read, transfer_exact_read,
}
use prov_go.Pool.Receive.{no_outcome}

module _ (P : Platform) (W : Wasm P) where
  -- The response is one of the readings of an event, with its place in the transaction and the block.
  abbrev pub IsRead : {V : Type 0} → List (String × (Located → V)) → Confirmed P W → V → Type 0
  IsRead [] c v = ⊥
  IsRead ((action, of) ∷ more) c v =
      ((l : Located) × IsLocated W.sum c.tx c.block action l × (v ≡ of l)) ⊎ IsRead more c v

  read_of :
      {V : Type 0} (tx : TxResponse) (block : Option BlockReply) (action : String)
      (of : Located → V) (v : V)
      → (tx_metadata_from W.sum (some tx) block action >>= λ l. ok (of l)) ≡ ok v
      → (l : Located) × IsLocated W.sum tx block action l × (v ≡ of l)
  read_of tx block action of v h =
      elim (Result-cases (tx_metadata_from W.sum (some tx) block action)) [
        | inl (l, e) ↦ (l, tx_metadata_from-IsLocated W.sum tx block action l e, ground arith)
        | inr (inl (x, e)) ↦ absurd (ground arith)
        | inr (inr (x, e)) ↦ absurd (ground arith)
      ]

  either :
      (r next : Result Cw20ReceiveOutcome) (v : Cw20ReceiveOutcome)
      → or_else r next ≡ ok v
      → (r ≡ ok v) ⊎ (next ≡ ok v)
  either (ok x) next v h = inl h
  either (err _) next v h = inr h
  either (panic _) next v h = cc

  abbrev attempt :
      {A : Type 0}
      → Confirmed P W
      → String
      → (Located → A)
      → (A → Cw20ReceiveOutcome)
      → Result Cw20ReceiveOutcome
  attempt c action of con =
      (tx_metadata_from W.sum (some (c.tx)) (c.block) action >>= λ l. ok (of l)) >>= λ a. ok (con a)

  outcome_of :
      {A : Type 0} (c : Confirmed P W) (action : String) (of : Located → A)
      (con : A → Cw20ReceiveOutcome) (v : Cw20ReceiveOutcome)
      → attempt c action of con ≡ ok v
      → (l : Located) × IsLocated W.sum c.tx c.block action l × (v ≡ con (of l))
  outcome_of c action of con v h =
      elim (Result-cases (tx_metadata_from W.sum (some (c.tx)) (c.block) action)) [
        | inl (l, e) ↦ (l, tx_metadata_from-IsLocated W.sum c.tx c.block action l e, ground arith)
        | inr (inl (x, e)) ↦ absurd (ground arith)
        | inr (inr (x, e)) ↦ absurd (ground arith)
      ]

  abbrev Reading : Type 0
  Reading = String × (Located → Cw20ReceiveOutcome)

  -- The attempt and the rest of the chain in which it stands.
  outcome_or :
      {A : Type 0} (c : Confirmed P W) (action : String) (of : Located → A)
      (con : A → Cw20ReceiveOutcome) (next : Result Cw20ReceiveOutcome) (more : List Reading)
      (v : Cw20ReceiveOutcome)
      → (next ≡ ok v → IsRead more c v)
      → or_else (attempt c action of con) next ≡ ok v
      → IsRead ((action, λ l. con (of l)) ∷ more) c v
  outcome_or c action of con next more v rest h = elim (either (attempt c action of con) next v h) [
    | inl e ↦ inl (outcome_of c action of con v e)
    | inr e ↦ inr (rest e)
  ]

  none_of :
      (c : Confirmed P W) (v : Cw20ReceiveOutcome)
      → err no_outcome ≡ ok v
      → IsRead {V = Cw20ReceiveOutcome} [] c v
  none_of c v h = cc

  receive-IsRead :
      (c : Confirmed P W) (v : Cw20ReceiveOutcome)
      → parse_cw20_receive_response W.sum (some (c.tx)) (c.block) ≡ ok v
      → IsRead (readings Kind.receive) c v
  unfolding parse_cw20_receive_response parse_withdraw parse_withdraw_exact parse_transfer
      parse_transfer_exact
  receive-IsRead c v =
      let d : Result Cw20ReceiveOutcome = err no_outcome in
      let m4 : List Reading =
        ("transfer_exact", λ l. transferred_exact (transfer_exact_read l)) ∷ [] in
      let m3 : List Reading = ("transfer", λ l. transferred (transfer_read l)) ∷ m4 in
      let m2 : List Reading =
        ("withdraw_exact", λ l. withdrawn_exact (withdraw_exact_read l)) ∷ m3 in
      let r4 =
        outcome_or c "transfer_exact" transfer_exact_read transferred_exact d [] v (none_of c v) in
      let d4 = or_else (attempt c "transfer_exact" transfer_exact_read transferred_exact) d in
      let r3 = outcome_or c "transfer" transfer_read transferred d4 m4 v r4 in
      let d3 = or_else (attempt c "transfer" transfer_read transferred) d4 in
      let r2 = outcome_or c "withdraw_exact" withdraw_exact_read withdrawn_exact d3 m3 v r3 in
      outcome_or c "withdraw" withdraw_read withdrawn
        (or_else (attempt c "withdraw_exact" withdraw_exact_read withdrawn_exact) d3) m2 v r2

  pub parser_reads :
      {V : Type 0} (k : Kind V) (c : Confirmed P W) (v : V)
      → parser k W.sum (some (c.tx)) (c.block) ≡ ok v
      → IsRead (readings k) c v
  unfolding parse_lend parse_borrow parse_repay parse_add_collateral parse_remove_collateral
      parse_liquidate parse_update_supported_collateral parse_set_operational_state
      parse_set_borrower_required_attrs parse_set_lender_required_attrs
      parse_set_lender_require_commit_on_exit parse_update_contract_config parse_update_rate_params
      parse_withdraw parse_withdraw_reserve
  parser_reads Kind.lend c v h = inl (read_of c.tx c.block _ _ v h)
  parser_reads Kind.receive c v h = receive-IsRead c v h
  parser_reads Kind.borrow c v h = inl (read_of c.tx c.block _ _ v h)
  parser_reads Kind.repay c v h = inl (read_of c.tx c.block _ _ v h)
  parser_reads Kind.add_collateral c v h = inl (read_of c.tx c.block _ _ v h)
  parser_reads Kind.remove_collateral c v h = inl (read_of c.tx c.block _ _ v h)
  parser_reads Kind.liquidate c v h = inl (read_of c.tx c.block _ _ v h)
  parser_reads Kind.update_supported_collateral c v h = inl (read_of c.tx c.block _ _ v h)
  parser_reads Kind.set_operational_state c v h = inl (read_of c.tx c.block _ _ v h)
  parser_reads Kind.set_borrower_required_attrs c v h = inl (read_of c.tx c.block _ _ v h)
  parser_reads Kind.set_lender_required_attrs c v h = inl (read_of c.tx c.block _ _ v h)
  parser_reads Kind.set_lender_require_commit_on_exit c v h = inl (read_of c.tx c.block _ _ v h)
  parser_reads Kind.update_contract_config c v h = inl (read_of c.tx c.block _ _ v h)
  parser_reads Kind.update_rate_params c v h = inl (read_of c.tx c.block _ _ v h)
  parser_reads Kind.withdraw c v h = inl (read_of c.tx c.block _ _ v h)
  parser_reads Kind.withdraw_reserve c v h = inl (read_of c.tx c.block _ _ v h)
