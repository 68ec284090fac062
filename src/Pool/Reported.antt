-- ===== src/Pool/Reported.antt =====
-- What every method of the pool client (pkg/demoprime/pool/client.go) guarantees when it returns a
-- response.
use prov_go.Base.{
  ◌≡◌, refl, ap, sym, ◌∙◌, inl, inr, String, Option, none, some, List, [], ◌∷◌, Result-cases, ok,
  arith,
}
use prov_go.Platform.{Platform}
use prov_go.Client.Monad.{World, Action}
use prov_go.Client.Submit.{submit, check_code, require_signer}
use prov_go.Pool.Json.{Json}
use prov_go.Pool.Wasm.{
  Wasm, Confirmed, confirmed, execute, execute_on_contract, execute_on_behalf_of,
  broadcast_and_wait, with_block, respond,
}
use prov_go.Pool.Methods.{
  lend, receive, borrow, repay, add_collateral, remove_collateral, liquidate,
  update_supported_collateral, set_operational_state, set_borrow_required_attrs,
  set_lender_required_attrs, set_lender_require_commit_on_exit, update_contract_config,
  update_rate_params, withdraw, withdraw_reserve, lend_for, receive_for, borrow_for, repay_for,
  add_collateral_for, remove_collateral_for, withdraw_for, withdraw_reserve_for,
}
use prov_go.Pool.Kinds.{parser, readings}
use prov_go.Pool.Calls.{Method, run, message, coins, on_behalf_of, kind}
use prov_go.Pool.Success.{respond_inverse}
use prov_go.Pool.Read.{IsRead, parser_reads}

module _ (P : Platform) (W : Wasm P) (pool : String) where
  -- The messages that run the pool's contract, for the client itself or by an authz grant.
  abbrev pub IsCall :
      Option String → (sender : String) → Json → Option P.Coins → List P.Msg → Type 0
  IsCall none sender msg funds msgs = msgs ≡ W.execute_contract sender pool msg funds ∷ []
  IsCall (some granter) sender msg funds msgs =
      (x : P.Msg) × (W.msg_exec sender (W.execute_contract granter pool msg funds ∷ []) ≡ ok x)
      × (msgs ≡ x ∷ [])

  abbrev pub IsReported : {V : Type 0} → Method P V → World P → V → Type 0
  IsReported m w v =
      (msgs : List P.Msg) × (c : Confirmed P W) × IsCall (on_behalf_of P m) w.client.address
        (message P m) (coins P m) msgs
      × ((submit P "pool" msgs w).0 ≡ ok c.tx)
      × (c.tx.code ≡ 0)
      × ((W.block_by_height c.tx.height (submit P "pool" msgs w).1.node).0 ≡ ok c.block)
      × IsRead P W (readings (kind P m)) c v

  abbrev executed : Option String → Json → Option P.Coins → Action P (Confirmed P W)
  executed none = execute P W pool
  executed (some granter) = execute_on_behalf_of P W pool granter

  run_responds :
      {V : Type 0} (m : Method P V)
      → run P W pool m
        ≡ respond P W (executed (on_behalf_of P m) (message P m) (coins P m)) (parser (kind P m))
  unfolding run lend receive borrow repay add_collateral remove_collateral liquidate
      update_supported_collateral set_operational_state set_borrow_required_attrs
      set_lender_required_attrs set_lender_require_commit_on_exit update_contract_config
      update_rate_params withdraw withdraw_reserve lend_for receive_for borrow_for repay_for
      add_collateral_for remove_collateral_for withdraw_for withdraw_reserve_for
  run_responds (Method.lend funds) = refl
  run_responds (Method.receive msg) = refl
  run_responds (Method.borrow amount) = refl
  run_responds (Method.repay funds) = refl
  run_responds (Method.add_collateral funds) = refl
  run_responds (Method.remove_collateral to_remove) = refl
  run_responds (Method.liquidate borrower to_seize funds) = refl
  run_responds (Method.update_supported_collateral to_remove to_update) = refl
  run_responds (Method.set_operational_state state) = refl
  run_responds (Method.set_borrow_required_attrs attrs) = refl
  run_responds (Method.set_lender_required_attrs attrs) = refl
  run_responds (Method.set_lender_require_commit_on_exit address require) = refl
  run_responds (Method.update_contract_config config) = refl
  run_responds (Method.update_rate_params rate_params) = refl
  run_responds (Method.withdraw lender amount) = refl
  run_responds (Method.withdraw_reserve recipient) = refl
  run_responds (Method.lend_for granter funds) = refl
  run_responds (Method.receive_for granter msg) = refl
  run_responds (Method.borrow_for granter amount) = refl
  run_responds (Method.repay_for granter funds) = refl
  run_responds (Method.add_collateral_for granter funds) = refl
  run_responds (Method.remove_collateral_for granter to_remove) = refl
  run_responds (Method.withdraw_for granter lender amount) = refl
  run_responds (Method.withdraw_reserve_for granter recipient) = refl

  confirmed_inverse :
      (msgs : List P.Msg) (w : World P) (c : Confirmed P W)
      → (confirmed P W msgs w).0 ≡ ok c
      → ((submit P "pool" msgs w).0 ≡ ok c.tx)
        × (c.tx.code ≡ 0)
        × ((W.block_by_height c.tx.height (submit P "pool" msgs w).1.node).0 ≡ ok c.block)
  unfolding broadcast_and_wait with_block check_code
  confirmed_inverse msgs w c h = ground arith

  IsExecuted : Option String → Json → Option P.Coins → World P → Confirmed P W → Type 0
  IsExecuted on_behalf msg funds w c =
      (msgs : List P.Msg) × IsCall on_behalf w.client.address msg funds msgs
      × ((confirmed P W msgs w).0 ≡ ok c)

  executed_inverse :
      (on_behalf : Option String) (msg : Json) (funds : Option P.Coins) (w : World P)
      (c : Confirmed P W)
      → (executed on_behalf msg funds w).0 ≡ ok c
      → IsExecuted on_behalf msg funds w c
  unfolding execute execute_on_contract execute_on_behalf_of require_signer IsExecuted
  executed_inverse none msg funds w c h = (_, refl, h)
  executed_inverse (some granter) msg funds w c h =
      elim (Result-cases
        (W.msg_exec w.client.address (W.execute_contract granter pool msg funds ∷ []))) [
          | inl (x, e) ↦ (x ∷ [], (x, e, refl), ground arith)
          | inr (inl (x, e)) ↦ absurd (ground arith)
          | inr (inr (x, e)) ↦ absurd (ground arith)
        ]

  -- A response that a method of the pool client returns without an error is backed by the chain. The
  -- method's message, with its funds, was run on the pool by the client's account, or by an authz grant
  -- for the granter; its transaction has code 0; the response is read from the first event of the
  -- transaction with one of the method's actions, and says where the node's block at the transaction's
  -- height holds it.
  pub response-IsReported :
      {V : Type 0} (m : Method P V) (w : World P) (v : V)
      → (run P W pool m w).0 ≡ ok v
      → IsReported m w v
  unfolding IsExecuted
  response-IsReported {V} m w v h =
      let responds = ap (λ (a : Action P V). (a w).0) (run_responds m) in
      let (c, e, p) = respond_inverse P W _ (parser (kind P m)) w v (sym responds ∙ h) in
      let (msgs, called, q) = executed_inverse (on_behalf_of P m) (message P m) (coins P m) w c e in
      let (sent, code, block) = confirmed_inverse msgs w c q in
      (msgs, c, called, sent, code, block, parser_reads P W (kind P m) c v p)
