-- ===== src/Contract/Base.antt =====
-- The client of one contract (pkg/demoprime/contract/base_client.go), and that of the pool
-- (pkg/demoprime/pool/client.go). `none` stands for a missing `ProvenanceClient`.
use prov_go.Base.{String, Option, none, some}
use prov_go.Base.Int.{ℤ}
use prov_go.Client.Monad.{ProvenanceClient}
use prov_go.Contract.Height.{default_relative_timeout_height}

pub record BaseClient : Type 0 where
  pub prov : Option ProvenanceClient
  pub contract_addr : String
  pub relative_timeout_height : ℤ

unfoldable pub new_base_client : Option ProvenanceClient → String → BaseClient
new_base_client prov contract_addr = record {
  prov = prov;
  contract_addr = contract_addr;
  relative_timeout_height = default_relative_timeout_height;
}

unfoldable pub contract_address : BaseClient → String
contract_address b = b.contract_addr

unfoldable pub primary_signer_address : BaseClient → String
primary_signer_address b = elim (b.prov) [ none ↦ "" | some c ↦ c.address ]

-- The pool's client is its base client.
unfoldable pub new_client : Option ProvenanceClient → String → BaseClient
unfolding new_base_client
new_client prov contract_addr = new_base_client prov contract_addr
