-- ===== src/Contract/Granting.antt =====
-- The grants of pkg/demoprime/contract/grants_tx.go. `authz.NewGrant`, the packing of the messages
-- and the clock are parameters; a time is a count of nanoseconds.
use prov_go.Base.{ℕ, String, Option, some, List, [], ◌∷◌, map, Result, ok, err, panic, wrap}
use prov_go.Platform.{Platform, TxResponse}
use prov_go.Client.Monad.{Action, ◌>>=◌, lift, gets}
use prov_go.Client.Submit.{broadcast_msgs}
use prov_go.Pool.Wasm.{to_result}
use prov_go.Contract.Grants.{Grant, ContractGrant}

pub record ContractGrantDetail : Type 0 where
  pub contract : String
  pub filter : List ℕ
  pub limit : List ℕ

-- The authorizations: a `ContractExecutionAuthorization` with its grants, or a generic one for a
-- message type.
pub data Authorization : Type 0 where
  contract_execution : List ContractGrant → Authorization
  generic : String → Authorization

-- `authz.MsgGrant`; `A` is the packed authorization.
pub record MsgGrant (A : Type 0) : Type 0 where
  pub granter : String
  pub grantee : String
  pub grant : Grant A

pub record Granting (P : Platform) : Type 1 where
  pub Packed : Type 0
  pub new_grant : (block_time : ℕ) → Authorization → Option ℕ → Result (Grant Packed)
  pub pack : MsgGrant Packed → P.Msg

abbrev pub grant_of : ContractGrantDetail → ContractGrant
grant_of d = record { contract = d.contract; limit = d.limit; filter = d.filter }

module _ (P : Platform) (G : Granting P) (contract_addr : String) (now : ℕ) where
  unfoldable pub grant_detail_this_contract : (filter limit : List ℕ) → ContractGrantDetail
  grant_detail_this_contract filter limit = record {
    contract = contract_addr;
    filter = filter;
    limit = limit;
  }

  abbrev pub msg_of : String → String → Result (Grant G.Packed) → Result (MsgGrant G.Packed)
  msg_of granter grantee (ok g) = ok (record { granter = granter; grantee = grantee; grant = g })
  msg_of granter grantee (err e) = err (wrap "demoprime/contract: NewGrant: %w" e)
  msg_of granter grantee (panic s) = panic s

  unfoldable pub build_grant_contract_execution_msg :
      (granter grantee : String)
      → (expiration : ℕ) → List ContractGrantDetail
      → Result (MsgGrant G.Packed)
  build_grant_contract_execution_msg granter grantee expiration details =
      msg_of granter grantee
        (G.new_grant now (contract_execution (map grant_of details)) (some expiration))

  unfoldable pub build_grant_contract_execution_msg_for_primary_signer :
      (granter : String) → ℕ → List ContractGrantDetail → Action P (MsgGrant G.Packed)
  unfolding build_grant_contract_execution_msg
  build_grant_contract_execution_msg_for_primary_signer granter expiration details = do
    grantee ← gets (λ c. c.address)
    lift (build_grant_contract_execution_msg granter grantee expiration details)

  -- `BroadcastMsgs`, whose response is dropped.
  abbrev pub sent : MsgGrant G.Packed → Action P (Unit {0})
  sent msg w = let (r, w') = broadcast_msgs P (G.pack msg ∷ []) w in (dropped (to_result r), w')
    where
      dropped : Result TxResponse → Result (Unit {0})
      dropped (ok t) = ok tt
      dropped (err e) = err e
      dropped (panic s) = panic s

  unfoldable pub grant_contract_execution :
      (grantee : String) → ℕ → List ContractGrantDetail → Action P (Unit {0})
  unfolding build_grant_contract_execution_msg
  grant_contract_execution grantee expiration details = do
    granter ← gets (λ c. c.address)
    msg ← lift (build_grant_contract_execution_msg granter grantee expiration details)
    sent msg

  unfoldable pub build_grant_contract_commit_funds_msg :
      (granter : String) → ℕ → Result (MsgGrant G.Packed)
  build_grant_contract_commit_funds_msg granter expiration =
      msg_of granter contract_addr (
        G.new_grant now (generic "/provenance.exchange.v1.MsgCommitFundsRequest") (some expiration))

  unfoldable pub grant_contract_commit_funds : ℕ → Action P (Unit {0})
  unfolding build_grant_contract_commit_funds_msg
  grant_contract_commit_funds expiration = do
    granter ← gets (λ c. c.address)
    msg ← lift (build_grant_contract_commit_funds_msg granter expiration)
    sent msg
