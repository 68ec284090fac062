-- ===== src/Config.antt =====
-- The settings of the two chains (pkg/provenance/config.go).
use prov_go.Base.{ℕ, Bool, true, String}

pub record BlockchainConfig : Type 0 where
  pub uri : String
  pub tls : Bool
  pub address_prefix : String
  pub public_prefix : String
  pub coin_type : ℕ
  pub chain_id : String
  pub gas_price : ℕ
  pub denom : String

unfoldable pub new_mainnet_config : BlockchainConfig
new_mainnet_config = record {
  uri = "grpc.provenance.io:443";
  tls = true;
  address_prefix = "pb";
  public_prefix = "pbpub";
  coin_type = 505;
  chain_id = "pio-mainnet-1";
  gas_price = 1;
  denom = "nhash";
}

unfoldable pub new_testnet_config : BlockchainConfig
new_testnet_config = record {
  uri = "grpc.test.provenance.io:443";
  tls = true;
  address_prefix = "tp";
  public_prefix = "tppub";
  coin_type = 505;
  chain_id = "pio-testnet-1";
  gas_price = 1;
  denom = "nhash";
}

unfoldable pub node_url : String → BlockchainConfig → BlockchainConfig
node_url url c = record c { uri = url }

unfoldable pub secure : Bool → BlockchainConfig → BlockchainConfig
secure s c = record c { tls = s }

unfoldable pub mainnet : BlockchainConfig → Bool
mainnet c = true
