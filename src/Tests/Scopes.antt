-- ===== src/Tests/Scopes.antt =====
-- Runs of `CreateScope` (pkg/provenance/metadata.go) and of the heights of a contract's client
-- (pkg/demoprime/contract/base_client.go).
use prov_go.Base.{
  ℕ, ◌+◌, ◌^◌, ◌<◌, ◌≤◌, ◌≡◌, refl, ◌⊎◌, String, none, some, [], ◌∷◌, Result, ok, arith,
}
use prov_go.Base.Int.{pos, negsuc}
use prov_go.Pool.Block.{BlockReply}
use prov_go.Metadata.Types.{Addresses}
use prov_go.Metadata.Scopes.{Metadata}
use prov_go.Metadata.Created.{IsUnsent, IsSent, create_scope_decides}
use prov_go.Contract.Height.{
  current_height, calculate_timeout_height, calculate_timeout_height_bounds,
}
use prov_go.Tests.Sample.{calm, calm_world, lend_block}

abbrev addresses : Addresses
addresses = record {
  parse_uuid = λ _. some [];
  scope_metadata_address = λ u. u;
  scope_spec_metadata_address = λ u. u;
  session_metadata_address = λ u _. u;
  contract_spec_metadata_address = λ u. u;
  record_spec_metadata_address = λ u _. u;
  address_string = λ _. "";
}

abbrev no_scopes : Metadata calm
no_scopes = record {
  ContractSpecification = String;
  ScopeSpecification = String;
  RecordSpecification = String;
  addresses = addresses;
  scope = λ _ s. (ok (some none), s + 1);
  net_asset_values = λ _ s. (ok [], s + 1);
  contract_specification = λ _ s. (ok none, s + 1);
  scope_specification = λ _ s. (ok none, s + 1);
  record_specification = λ _ s. (ok none, s + 1);
  write_scope = λ _. "write scope";
  delete_scope = λ _. "delete scope";
  write_session = λ _. "write session";
  write_record = λ _. "write record";
}

create_scope_decides_example :
    IsUnsent calm no_scopes "spec" "scope" calm_world
    ⊎ IsSent calm no_scopes "spec" "scope" calm_world
create_scope_decides_example =
    create_scope_decides calm no_scopes "spec" "scope" (5 ∷ []) calm_world refl

abbrev latest : ℕ → Result BlockReply × ℕ
latest s = (ok lend_block, s + 1)

at_nine : (current_height calm latest calm_world).0 ≡ ok (pos 9)
unfolding current_height
at_nine = refl

calculate_timeout_height_bounds_example :
    ((9 + 10 < 2 ^ 63)
      × ((calculate_timeout_height calm latest (pos 10) calm_world).0 ≡ ok (pos (9 + 10))))
    ⊎ ((2 ^ 63 ≤ 9 + 10)
        × (n : ℕ) × ((calculate_timeout_height calm latest (pos 10) calm_world).0 ≡ ok (negsuc n)))
calculate_timeout_height_bounds_example =
    calculate_timeout_height_bounds calm latest 10 9 calm_world (omega arith) (omega arith) at_nine
