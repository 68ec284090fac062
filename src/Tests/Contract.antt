-- ===== src/Tests/Contract.antt =====
-- Runs of the authz queries (pkg/demoprime/contract/authz_query.go): two pages, of which the second
-- holds the grant for the contract.
use prov_go.Base.{ℕ, ◌≡◌, refl, ◌⊎◌, true, false, Option, none, some, List, [], ◌∷◌, ok, arith}
use prov_go.Stream.Channel.{Reply, page}
use prov_go.Contract.Grants.{Grant, ContractGrant, Authz, has_contract_execution_grant}
use prov_go.Contract.Granted.{
  Listed, bare_page, next_page, SomeGrants, has_contract_execution_grant_decides,
}

abbrev for_pool : ContractGrant
for_pool = record { contract = "pool"; limit = []; filter = [] }

-- An authorization is the list it unpacks to.
abbrev old_grant : Option (Grant (List ContractGrant))
old_grant = some (record { authorization = for_pool ∷ []; expiration = some 3 })

abbrev new_grant : Option (Grant (List ContractGrant))
new_grant = some (record { authorization = for_pool ∷ []; expiration = some 9 })

abbrev two_grants : List ℕ → Reply (Option (Grant (List ContractGrant)))
two_grants [] = page (old_grant ∷ []) (some (1 ∷ []))
two_grants (_ ∷ _) = page (new_grant ∷ []) none

abbrev authz : Authz (List ContractGrant)
authz = record { grants = λ _ _ _ key _. two_grants key }

two_grants-Listed : Listed two_grants 2 [] (old_grant ∷ new_grant ∷ [])
two_grants-Listed = next_page refl (bare_page refl)

has_contract_execution_grant_decides_example :
    ((has_contract_execution_grant 5 authz "pool" 7 some "granter" "grantee" ≡ some (ok true))
      × SomeGrants 7 "pool" some (old_grant ∷ new_grant ∷ []))
    ⊎ ((has_contract_execution_grant 5 authz "pool" 7 some "granter" "grantee" ≡ some (ok false))
        × (¬ (SomeGrants 7 "pool" some (old_grant ∷ new_grant ∷ []))))
has_contract_execution_grant_decides_example =
    has_contract_execution_grant_decides 7 "pool" some authz "granter" "grantee" 5 two_grants-Listed
      (omega arith)
