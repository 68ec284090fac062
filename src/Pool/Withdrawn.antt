-- ===== src/Pool/Withdrawn.antt =====
-- What `WithdrawViaRepoCw20Send` (pkg/demoprime/pool/cw20_withdraw.go) guarantees when it returns a
-- response.
use prov_go.Base.{◌≡◌, String, Option, some, none, Result-cases, inl, inr, ok, arith, subst}
use prov_go.Base.Int.{ℤ}
use prov_go.Platform.{Platform}
use prov_go.Client.Monad.{World}
use prov_go.Client.Submit.{require_signer}
use prov_go.Pool.Json.{Json}
use prov_go.Pool.Types.{WithdrawResponseV1}
use prov_go.Pool.Responses.{parse_withdraw}
use prov_go.Pool.Wasm.{Wasm, Confirmed, execute_on_contract, respond}
use prov_go.Pool.Forward.{build_cw20_send, withdraw_via_repo_cw20_send}
use prov_go.Pool.Hook.{IsForwarded, build_cw20_send_decides}
use prov_go.Pool.Success.{confirmed-Succeeds, respond_inverse}

IsForwarded-of_built :
    (pool : String) (amount : Option ℤ) (m : Json)
    → build_cw20_send pool amount ≡ ok m
    → IsForwarded pool amount m
IsForwarded-of_built pool amount m h = elim (build_cw20_send_decides pool amount) [
  | inl (n, e, f) ↦ let same : n ≡ m = ground arith in subst (IsForwarded pool amount) same f
  | inr (x, e, _) ↦ absurd (ground arith)
]

module _ (P : Platform) (W : Wasm P) (pool : String) where
  built :
      (repo : String) (amount : Option ℤ) (w : World P) (v : WithdrawResponseV1)
      → (withdraw_via_repo_cw20_send P W pool repo amount w).0 ≡ ok v
      → (m : Json) × (build_cw20_send pool amount ≡ ok m)
        × ((respond P W (execute_on_contract P W w.client.address repo m none) parse_withdraw w).0
            ≡ ok v)
  unfolding withdraw_via_repo_cw20_send require_signer
  built repo amount w v h = elim (Result-cases (build_cw20_send pool amount)) [
    | inl (m, e) ↦ (m, e, ground arith)
    | inr (inl (x, e)) ↦ absurd (ground arith)
    | inr (inr (x, e)) ↦ absurd (ground arith)
  ]

  -- A response that the withdrawal through the token returns without an error: the message that was
  -- executed forwards a positive amount to the pool, and the response is parsed from a transaction
  -- with code 0 and its block.
  pub withdraw_via_repo_cw20_send-IsForwarded :
      (repo : String) (amount : Option ℤ) (w : World P) (v : WithdrawResponseV1)
      → (withdraw_via_repo_cw20_send P W pool repo amount w).0 ≡ ok v
      → (m : Json) × IsForwarded pool amount m
        × (c : Confirmed P W) × ((execute_on_contract P W w.client.address repo m none w).0 ≡ ok c)
        × (c.tx.code ≡ 0)
        × (parse_withdraw W.sum (some (c.tx)) (c.block) ≡ ok v)
  unfolding execute_on_contract
  withdraw_via_repo_cw20_send-IsForwarded repo amount w v h =
      let (m, e, r) = built repo amount w v h in
      let (c, sent, parsed) = respond_inverse P W _ parse_withdraw w v r in
      (m, IsForwarded-of_built pool amount m e, c, sent, confirmed-Succeeds P W _ w c sent, parsed)
