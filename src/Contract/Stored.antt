-- ===== src/Contract/Stored.antt =====
-- What StoreWasm and InstantiateContract (pkg/demoprime/contract/store_instantiate.go) return.
use prov_go.Base.{
  ℕ, ◌^◌, ◌<◌, ◌≡◌, ◌≢◌, refl, ◌⊎◌, ◌==◌, eq_iff, true, false, Bool-cases, if◌then◌else◌, ◌∙◌, inl,
  inr, Bool, String, Option, none, some, List, ok, Error, errorf, [], ◌∷◌, arith, Result-cases,
  or_err,
}
use prov_go.Platform.{Platform, Bytes, TxResponse}
use prov_go.Client.Monad.{World, ◌>>=◌, lift, bind_inverse}
use prov_go.Client.Submit.{done, broadcast_msgs, check_code, require_signer}
use prov_go.Contract.Attrs.{tx_response_first_attribute}
use prov_go.Contract.Store.{
  Store, parse_uint, code_id_of, code_id_of_bound, executed, attribute, payload_of, read_code_id,
  send_code, send_instantiate, store_wasm, instantiate_contract,
}

abbrev no_code_id : Error
no_code_id = errorf "demoprime/contract: no code_id in tx response" []

abbrev no_address : Error
no_address = errorf "demoprime/contract: no _contract_address in tx response" []

or_err_inverse : (o : Option String) (e : Error) (v : String) → or_err o e ≡ ok v → o ≡ some v
or_err_inverse none e v h = absurd (ground arith)
or_err_inverse (some u) e v h = ground arith

code_id_of_inverse : (raw : String) (id : ℕ) → code_id_of raw ≡ ok id → parse_uint raw ≡ ok id
unfolding code_id_of
code_id_of_inverse raw id h = elim (Result-cases (parse_uint raw)) [
  | inl (a, e) ↦ e ∙ ground arith
  | inr (inl (x, e)) ↦ absurd (ground arith)
  | inr (inr (x, e)) ↦ absurd (ground arith)
]

module _ (P : Platform) (S : Store P) where
  -- What `BroadcastMsgs` gives here without an error is an executed transaction with code 0.
  abbrev pub HasRun : List P.Msg → World P → TxResponse → Type 0
  HasRun msgs w t = ((broadcast_msgs P msgs w).0 ≡ done t) × (t.code ≡ 0)

  executed_inverse :
      (msgs : List P.Msg) (w : World P) (t : TxResponse)
      → (executed P S msgs w).0 ≡ ok t
      → HasRun msgs w t
  unfolding broadcast_msgs check_code
  executed_inverse msgs w t h = (ground arith, ground arith)

  require_signer-world : (w : World P) → (require_signer P w).1 ≡ w
  unfolding require_signer
  require_signer-world w = ground arith

  -- What is sent as the code: the bytecode, or what gzip makes of it.
  abbrev pub IsPayload : Bytes → Bool → Bytes → Type 0
  IsPayload bytecode true payload = S.gzip bytecode ≡ ok payload
  IsPayload bytecode false payload = bytecode ≡ payload

  payload_of_inverse :
      (bytecode : Bytes) (compress : Bool) (w : World P) (payload : Bytes)
      → (payload_of P S bytecode compress w).0 ≡ ok payload
      → IsPayload bytecode compress payload
  payload_of_inverse bytecode true w payload h = elim (Result-cases (S.gzip bytecode)) [
    | inl (a, e) ↦ e ∙ ground arith
    | inr (inl (x, e)) ↦ absurd (ground arith)
    | inr (inr (x, e)) ↦ absurd (ground arith)
  ]
  payload_of_inverse bytecode false w payload h = ground arith

  payload_of-world :
      (bytecode : Bytes) (compress : Bool) (w : World P)
      → (payload_of P S bytecode compress w).1 ≡ w
  payload_of-world bytecode true w = refl
  payload_of-world bytecode false w = refl

  -- The transaction of this run, whose message holds the code: the id is the number that it reports as
  -- its first `code_id`.
  abbrev pub IsStored : Bytes → Bool → World P → ℕ → Type 0
  IsStored bytecode compress w id =
      (payload : Bytes) × (t : TxResponse) × (raw : String) × IsPayload bytecode compress payload
      × HasRun (S.store_code w.client.address payload ∷ []) w t
      × (tx_response_first_attribute (some t) "code_id" ≡ some raw)
      × (parse_uint raw ≡ ok id)
      × (id < 2 ^ 64)

  send_code-IsStored :
      (bytecode : Bytes) (compress : Bool) (w : World P) (id : ℕ) (payload : Bytes)
      → IsPayload bytecode compress payload
      → (send_code P S payload w).0 ≡ ok id
      → IsStored bytecode compress w id
  send_code-IsStored bytecode compress w id payload is h =
      let msgs = S.store_code w.client.address payload ∷ [] in
      let (t, e, h1) = bind_inverse (executed P S msgs) (read_code_id P S) w id h in
      let (raw, e1, p) =
        bind_inverse (attribute P S "code_id" no_code_id t) (λ raw. lift (code_id_of raw))
          (executed P S msgs w).1 id h1 in
      (
        payload,
        t,
        raw,
        is,
        executed_inverse msgs w t e,
        or_err_inverse _ no_code_id raw e1,
        code_id_of_inverse raw id p,
        code_id_of_bound raw id p,
      )

  -- What `StoreWasm` returns without an error is the number, below 2^64, that the first `code_id`
  -- attribute of its own transaction reports: `BroadcastMsgs` has given this transaction, with code 0,
  -- for the message with the bytecode or, as asked, with what gzip makes of it.
  pub store_wasm-IsStored :
      (bytecode : Bytes) (compress : Bool) (w : World P) (id : ℕ)
      → (store_wasm P S bytecode compress w).0 ≡ ok id
      → IsStored bytecode compress w id
  unfolding store_wasm
  store_wasm-IsStored bytecode compress w id h =
      let (_, _, h1) =
        bind_inverse (require_signer P) (λ _. payload_of P S bytecode compress >>= send_code P S) w
          id h in
      let (payload, e, h2) =
        bind_inverse (payload_of P S bytecode compress) (send_code P S) w id
          (rw (require_signer-world w) at h1) in
      send_code-IsStored bytecode compress w id payload
        (payload_of_inverse bytecode compress w payload e)
        (rw (payload_of-world bytecode compress w) at h2)

  -- The transaction of this run, whose message creates the contract for this admin, or for the signer
  -- where it is empty: the address is the first `_contract_address` that it reports.
  abbrev pub IsCreated :
      ℕ → Bytes → (label admin : String) → Option P.Coins → World P → String → Type 0
  IsCreated code_id init_msg label admin funds w address =
      (owner : String) × (t : TxResponse) × (((admin ≡ "") × (owner ≡ w.client.address))
        ⊎ ((admin ≢ "") × (owner ≡ admin)))
      × HasRun (S.instantiate w.client.address owner code_id init_msg label funds ∷ []) w t
      × (tx_response_first_attribute (some t) "_contract_address" ≡ some address)

  -- The address that `InstantiateContract` returns without an error is that of the first
  -- `_contract_address` attribute of its own transaction: `BroadcastMsgs` has given this transaction,
  -- with code 0, for the message with these arguments, whose admin is the signer where none is given.
  pub instantiate_contract-IsCreated :
      (code_id : ℕ) (init_msg : Bytes) (label admin : String) (funds : Option P.Coins) (w : World P)
      (address : String)
      → (instantiate_contract P S code_id init_msg label admin funds w).0 ≡ ok address
      → IsCreated code_id init_msg label admin funds w address
  unfolding instantiate_contract
  instantiate_contract-IsCreated code_id init_msg label admin funds w address h =
      let (_, _, h1) =
        bind_inverse (require_signer P)
          (λ _.
            send_instantiate P S code_id init_msg label admin funds
            >>= attribute P S "_contract_address" no_address)
          w address h in
      let (t, e, h2) =
        bind_inverse (send_instantiate P S code_id init_msg label admin funds)
          (attribute P S "_contract_address" no_address) w address
          (rw (require_signer-world w) at h1) in
      (
        if admin == "" then w.client.address else admin,
        t,
        owner_of,
        executed_inverse _ w t e,
        or_err_inverse _ no_address address h2,
      )
    where
      owner_of :
          ((admin ≡ "") × ((if admin == "" then w.client.address else admin) ≡ w.client.address))
          ⊎ ((admin ≢ "") × ((if admin == "" then w.client.address else admin) ≡ admin))
      owner_of = elim (Bool-cases (admin == "")) [
        | inl e ↦ inl ((eq_iff admin "").0 e, rw e refl)
        | inr e ↦ inr (λ same. ground (arith, (eq_iff admin "").1 same), rw e refl)
      ]
