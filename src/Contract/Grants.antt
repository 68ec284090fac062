-- ===== src/Contract/Grants.antt =====
-- The authz queries of a contract's client (pkg/demoprime/contract/authz_query.go). The text of an
-- error of the node, the unpacking of an authorization and the clock are parameters.
use prov_go.Base.{
  ℕ, zero, suc, Bool, true, not, String, ◌==◌, Option, none, some, List, [], ◌∷◌, ◌++◌, map, Result,
  ok, err, panic, Error, codes, to_lower, contains, ltb, is_nil, if◌then◌else◌,
}
use mathlib.Core.Option
use prov_go.Stream.Channel.{Reply, page, refused}

-- `authztypes.Grant`, with its expiration as a count of nanoseconds.
pub record Grant (A : Type 0) : Type 0 where
  pub authorization : A
  pub expiration : Option ℕ

-- `wasmtypes.ContractGrant`; the limit and the filter are passed on as they are.
pub record ContractGrant : Type 0 where
  pub contract : String
  pub limit : List ℕ
  pub filter : List ℕ

unfoldable pub is_authz_not_found : (Error → String) → Error → Bool
unfolding to_lower contains
is_authz_not_found text e =
    contains (map to_lower (codes (text e))) (codes "authorization not found")

-- A nil grant is valid, and one without an expiration.
unfoldable pub grant_still_valid : {A : Type 0} → Option (Grant A) → ℕ → Bool
grant_still_valid none now = true
grant_still_valid (some g) now = elim (g.expiration) [ none ↦ true | some t ↦ not (ltb t now) ]

-- The end of a round: no pagination, or an empty `NextKey`, ends the loop.
abbrev pub go_on :
    {A : Type 0}
    → (List ℕ → List A → Option (Result (List A)))
    → List A
    → Option (List ℕ)
    → Option (Result (List A))
go_on more out none = some (ok out)
go_on more out (some []) = some (ok out)
go_on more out (some (b ∷ bs)) = more (b ∷ bs) out

-- The loop of `allGrants`, for as many rounds at most; `none` if they are not enough.
unfoldable pub grants_from :
    {A : Type 0} → ℕ → (List ℕ → Reply A) → List ℕ → List A → Option (Result (List A))
grants_from zero fetch key out = none
grants_from (suc n) fetch key out = elim (fetch key) [
  | page xs next ↦ go_on (grants_from n fetch) (out ++ xs) next
  | refused e ↦ some (err e)
]

unfoldable pub all_grants : {A : Type 0} → ℕ → (List ℕ → Reply A) → Option (Result (List A))
unfolding grants_from
all_grants n fetch = grants_from n fetch [] []

module _ {A : Type 0} (now : ℕ) where
  -- The loop of `ContractCommitmentGrants`.
  unfoldable pub still_valid : List (Option (Grant A)) → List (Option (Grant A))
  unfolding grant_still_valid
  still_valid [] = []
  still_valid (g ∷ gs) = if grant_still_valid g now then g ∷ still_valid gs else still_valid gs

  -- What `ContractCommitmentGrants` makes of the outcome of `allGrants`.
  unfoldable pub commitment_outcome :
      (Error → String) → Result (List (Option (Grant A))) → Result (List (Option (Grant A)))
  unfolding still_valid is_authz_not_found
  commitment_outcome text (ok gs) = ok (still_valid gs)
  commitment_outcome text (err e) = if is_authz_not_found text e then ok [] else err e
  commitment_outcome text (panic s) = panic s

  module _ (contract_addr : String) (unpack : A → Option (List ContractGrant)) where
    -- The inner loop of `ContractExecutionGrants`.
    unfoldable pub for_contract : List ContractGrant → List ContractGrant
    for_contract [] = []
    for_contract (g ∷ gs) =
        if g.contract == contract_addr then g ∷ for_contract gs else for_contract gs

    -- What one grant adds to `out`.
    unfoldable pub granted_by : Option (Grant A) → List ContractGrant
    unfolding grant_still_valid for_contract
    granted_by none = []
    granted_by (some g) =
        if grant_still_valid (some g) now
        then elim (unpack (g.authorization)) [ none ↦ [] | some list ↦ for_contract list ]
        else []

    unfoldable pub execution_grants : List (Option (Grant A)) → List ContractGrant
    unfolding granted_by
    execution_grants [] = []
    execution_grants (g ∷ gs) = granted_by g ++ execution_grants gs

    -- What `ContractExecutionGrants` makes of the outcome of `allGrants`.
    unfoldable pub execution_outcome :
        Result (List (Option (Grant A))) → Result (List ContractGrant)
    unfolding execution_grants
    execution_outcome (ok gs) = ok (execution_grants gs)
    execution_outcome (err e) = err e
    execution_outcome (panic s) = panic s

-- `QueryGrantsRequest` by its fields, and the query as a function of the page key and the limit.
pub record Authz (A : Type 0) : Type 0 where
  pub grants : (granter grantee msg_type_url : String) → List ℕ → ℕ → Reply (Option (Grant A))

-- `len(list) > 0`
abbrev pub any_left : {B : Type 0} → Result (List B) → Result Bool
any_left (ok list) = ok (not (is_nil list))
any_left (err e) = err e
any_left (panic s) = panic s

-- The methods, with the rounds that `allGrants` may take; `none` if they are not enough.
module _ {A : Type 0} (rounds : ℕ) (q : Authz A) (contract_addr : String) (now : ℕ) where
  unfoldable pub contract_commitment_grants :
      (Error → String) → String → Option (Result (List (Option (Grant A))))
  contract_commitment_grants text granter = Option.map (commitment_outcome now text) (
      all_grants rounds (λ key.
        q.grants granter contract_addr "/provenance.exchange.v1.MsgCommitFundsRequest" key 100))

  unfoldable pub contract_execution_grants :
      (A → Option (List ContractGrant))
      → (granter grantee : String) → Option (Result (List ContractGrant))
  contract_execution_grants unpack granter grantee =
      Option.map (execution_outcome now contract_addr unpack)
        (all_grants rounds (λ key. q.grants granter grantee "" key 100))

  unfoldable pub has_contract_execution_grant :
      (A → Option (List ContractGrant)) → (granter grantee : String) → Option (Result Bool)
  unfolding contract_execution_grants
  has_contract_execution_grant unpack granter grantee =
      Option.map any_left (contract_execution_grants unpack granter grantee)

  unfoldable pub has_contract_commitment_grant : (Error → String) → String → Option (Result Bool)
  unfolding contract_commitment_grants
  has_contract_commitment_grant text granter =
      Option.map any_left (contract_commitment_grants text granter)
