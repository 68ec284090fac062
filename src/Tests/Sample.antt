-- ===== src/Tests/Sample.antt =====
-- A node and a client with simple replies, for the runs.
use prov_go.Base.{
  ℕ, ◌+◌, String, ◌<>◌, Option, some, List, [], ◌∷◌, Result, ok, err, panic, Error, errorf, ltb,
  ◌&&◌, ◌==◌, if◌then◌else◌,
}
use prov_go.Base.Int.{ℤ, pos, is_negative}
use prov_go.Platform.{Platform, Bytes, TxResponse, TxReply, BaseAccount, GasInfo}
use prov_go.Client.Monad.{ProvenanceClient, World}
use prov_go.Pool.Block.{Header, BlockReply}
use prov_go.Pool.Wasm.{Wasm}

abbrev pub lend_tx : TxResponse
lend_tx = record {
  height = pos 9;
  tx_hash = "AB";
  codespace = "";
  code = 0;
  raw_log = "";
  logs = [];
  events =
      record { attributes = ("fee", "1") ∷ ("code_id", "77") ∷ [] }
      ∷ record {
        attributes =
            ("_contract_address", "pool")
            ∷ ("action", "lend")
            ∷ ("lender", "pb1lender")
            ∷ ("amount", "100")
            ∷ ("scaled_amount", "90")
            ∷ [];
      }
      ∷ [];
}

abbrev pub lend_reply : TxReply
lend_reply = record { tx_response = some lend_tx }

-- The transaction is the second one, with the hash AB where a hash is the text itself.
abbrev pub lend_header : Header
lend_header = record { height = pos 9; time = 5 }

abbrev pub lend_txs : List Bytes
lend_txs = (1 ∷ []) ∷ (171 ∷ []) ∷ []

abbrev pub lend_block : BlockReply
lend_block = record { sdk_block = some (record { header = some lend_header; txs = some lend_txs }) }

abbrev pub on_chain : BaseAccount
on_chain = record { account_number = 7; sequence = 42 }

abbrev not_found : Error
not_found = errorf "tx not found" []

abbrev find_tx : String → ℕ → Result (Option TxReply)
find_tx hash s = if (ltb 3 s && (hash == "AB")) then ok (some lend_reply) else err not_found

abbrev coins : ℤ → Result ℤ
coins n = if is_negative n then panic "negative coin amount" else ok n

-- The node's state counts the calls; `simulated` is what it says to a simulation.
abbrev pub sample : Result (Option GasInfo) → Platform
sample simulated = record {
  State = ℕ;
  Msg = String;
  Coins = ℤ;
  Builder = List String;
  account = λ _ s. (ok (some []), s + 1);
  simulate = λ _ s. (simulated, s + 1);
  broadcast = λ _ s. (ok lend_reply, s + 1);
  get_tx = λ hash s. (find_tx hash s, s + 1);
  sleep = λ s. s + 1;
  unmarshal_account = λ _. ok on_chain;
  pub_key = λ k. k;
  new_builder = [];
  set_msgs = λ _ ms. ok ms;
  set_signatures = λ b _. ok b;
  set_fee_amount = λ b _. b;
  new_coins = λ _ n. coins n;
  sign_with_priv_key = λ d _ k n. ok (record { pub_key = k; signature = some []; sequence = n });
  encode_tx = λ _. ok [];
  encode_json = λ _. ok [];
}

abbrev pub gas : GasInfo
gas = record { gas_wanted = 300; gas_used = 200 }

abbrev pub calm : Platform
calm = sample (ok (some gas))

abbrev pub refusal : Error
refusal = errorf "account sequence mismatch" []

abbrev pub wary : Platform
wary = sample (err refusal)

abbrev pub signer : ProvenanceClient
signer = record {
  priv_key = some (5 ∷ []);
  chain_id = "pio-testnet-1";
  denom = "nhash";
  address = "tp1signer";
  account_number = 7;
  sequence = 11;
}

abbrev pub calm_world : World calm
calm_world = record { client = signer; node = 0 }

abbrev pub wary_world : World wary
wary_world = record { client = signer; node = 0 }

abbrev pub calm_wasm : Wasm calm
calm_wasm = record {
  execute_contract = λ sender contract _ _. sender <> contract;
  msg_exec = λ grantee _. ok grantee;
  block_by_height = λ _ s. (ok (some lend_block), s + 1);
  sum = λ b. b;
}
