-- ===== src/Stream/Queries.antt =====
-- The five queries as streams, and the callers that gather them: pkg/provenance/bank.go,
-- attribute.go and staking.go. gRPC call options are left out.
use prov_go.Base.{ℕ, ◌≡◌, Bool, false, String, List, Result}
use prov_go.Stream.Channel.{Reply, Stream}
use prov_go.Stream.Collect.{System, returned, Reach}

-- `query.PageRequest`
pub record PageRequest : Type 0 where
  pub key : List ℕ
  pub limit : ℕ
  pub count_total : Bool

-- The query clients of the generated code: requests by their fields, the page last.
pub record Queries : Type 1 where
  pub Coin : Type 0
  pub Attribute : Type 0
  pub Validator : Type 0
  pub Delegation : Type 0
  pub all_balances : String → PageRequest → Reply Coin
  pub attribute : (account name : String) → PageRequest → Reply Attribute
  pub attribute_accounts : String → PageRequest → Reply String
  pub validators : PageRequest → Reply Validator
  pub delegator_delegations : String → PageRequest → Reply Delegation

-- The result `r` is one that the caller of the stream may return.
abbrev pub CanReturn : {A : Type 0} → Stream A → Result (List A) → Type 0
CanReturn {A} st r = (s : System A) × Reach st s × (s.collector ≡ returned r)

module _ (q : Queries) where
  unfoldable pub get_balances_stream : String → Stream q.Coin
  get_balances_stream address = record {
    capacity = 50;
    fetch = λ key. q.all_balances address (record { key = key; limit = 50; count_total = false });
  }

  unfoldable pub get_attributes_stream : (attr_name acct : String) → Stream q.Attribute
  get_attributes_stream attr_name acct = record {
    capacity = 100;
    fetch =
        λ key. q.attribute acct attr_name (record { key = key; limit = 100; count_total = false });
  }

  unfoldable pub get_attributed_accounts_stream : String → Stream String
  get_attributed_accounts_stream name = record {
    capacity = 100;
    fetch =
        λ key. q.attribute_accounts name (record { key = key; limit = 100; count_total = false });
  }

  unfoldable pub get_staking_validators_stream : Stream q.Validator
  get_staking_validators_stream = record {
    capacity = 100;
    fetch = λ key. q.validators (record { key = key; limit = 100; count_total = false });
  }

  unfoldable pub get_delegations_by_delegator_stream : String → Stream q.Delegation
  get_delegations_by_delegator_stream delegator = record {
    capacity = 100;
    fetch = λ key.
        q.delegator_delegations delegator (record { key = key; limit = 100; count_total = false });
  }

  abbrev pub GetBalances : String → Result (List q.Coin) → Type 0
  GetBalances address = CanReturn (get_balances_stream address)

  abbrev pub GetAttributes : (attr_name acct : String) → Result (List q.Attribute) → Type 0
  GetAttributes attr_name acct = CanReturn (get_attributes_stream attr_name acct)

  abbrev pub GetAttributedAccounts : String → Result (List String) → Type 0
  GetAttributedAccounts name = CanReturn (get_attributed_accounts_stream name)

  abbrev pub GetStakingValidators : Result (List q.Validator) → Type 0
  GetStakingValidators = CanReturn get_staking_validators_stream

  abbrev pub GetDelegationsByDelegator : String → Result (List q.Delegation) → Type 0
  GetDelegationsByDelegator delegator = CanReturn (get_delegations_by_delegator_stream delegator)
