-- ===== src/Tests/Store.antt =====
-- Runs of the storing of code and the creation of a contract
-- (pkg/demoprime/contract/store_instantiate.go, txattrs.go).
use prov_go.Base.{ℕ, ◌≡◌, refl, ◌⊎◌, true, String, none, some, [], ◌∷◌, ok, IsFirst, IsNone}
use prov_go.Client.Defs.{
  next_sequence, sign_tx, draft_tx, finish_tx, simulate_tx, fee_coins, broadcast_tx, wait_on_tx,
  poll, polled,
}
use prov_go.Client.Submit.{submit, require_signer, check_code, confirm, broadcast_msgs}
use prov_go.Contract.Attrs.{
  abci_event_find, events_find, logs_find, tx_response_first_attribute, has_key, all_attributes,
  tx_response_first_attribute_decides,
}
use prov_go.Contract.Store.{
  Store, parse_digits, parse_uint, code_id_of, store_wasm, instantiate_contract,
}
use prov_go.Contract.Stored.{
  IsStored, store_wasm-IsStored, IsCreated, instantiate_contract-IsCreated,
}
use prov_go.Tests.Sample.{calm, calm_world, lend_tx}

tx_response_first_attribute_decides_example :
    ((i : ℕ) × (a : String × String) × IsFirst (has_key "code_id") (all_attributes lend_tx) i a
      × (tx_response_first_attribute (some lend_tx) "code_id" ≡ some (a.1)))
    ⊎ (IsNone (has_key "code_id") (all_attributes lend_tx)
        × (tx_response_first_attribute (some lend_tx) "code_id" ≡ none))
tx_response_first_attribute_decides_example = tx_response_first_attribute_decides lend_tx "code_id"

abbrev store : Store calm
store = record {
  store_code = λ sender _. sender;
  instantiate = λ _ admin _ _ _ _. admin;
  gzip = λ b. ok b;
}

stored : (store_wasm calm store (1 ∷ 2 ∷ []) true calm_world).0 ≡ ok 77
unfolding store_wasm broadcast_msgs submit require_signer check_code confirm next_sequence sign_tx
    draft_tx finish_tx simulate_tx fee_coins broadcast_tx wait_on_tx poll polled
    tx_response_first_attribute events_find logs_find abci_event_find code_id_of parse_uint
    parse_digits
stored = refl

store_wasm-IsStored_example : IsStored calm store (1 ∷ 2 ∷ []) true calm_world 77
store_wasm-IsStored_example = store_wasm-IsStored calm store (1 ∷ 2 ∷ []) true calm_world 77 stored

created : (instantiate_contract calm store 77 [] "label" "" none calm_world).0 ≡ ok "pool"
unfolding instantiate_contract broadcast_msgs submit require_signer check_code confirm next_sequence
    sign_tx draft_tx finish_tx simulate_tx fee_coins broadcast_tx wait_on_tx poll polled
    tx_response_first_attribute events_find logs_find abci_event_find
created = refl

instantiate_contract-IsCreated_example :
    IsCreated calm store 77 [] "label" "" none calm_world "pool"
instantiate_contract-IsCreated_example =
    instantiate_contract-IsCreated calm store 77 [] "label" "" none calm_world "pool" created
