-- ===== src/Pool/Success.antt =====
-- What a method of the pool client (pkg/demoprime/pool/client.go) guarantees when it returns a
-- response.
use prov_go.Pool.Exec.{exec_lend}
use prov_go.Pool.Events.{flat_event_attrs}
use prov_go.Base.{
  List, Option, Result, Result-cases, String, arith, inl, inr, ok, some, ◌≡◌, ℕ, [], ◌∷◌, IsFirst,
}
use prov_go.Base.Dict.{get, Dict}
use prov_go.Platform.{Bytes, Platform, TxResponse}
use prov_go.Client.Monad.{Action, World}
use prov_go.Client.Submit.{check_code, require_signer, submit}
use prov_go.Pool.Json.{Json}
use prov_go.Pool.Block.{BlockReply, Header, header_of, txs_of}
use prov_go.Pool.Types.{LendResponseV1}
use prov_go.Pool.Metadata.{Located, event_response, tx_metadata_from}
use prov_go.Pool.Responses.{parse_lend}
use prov_go.Pool.Located.{
  IsLocated, tx_metadata_from-IsLocated, has_action, has_hash, tx_metadata_from_found,
}
use prov_go.Pool.Wasm.{
  Confirmed, Wasm, broadcast_and_wait, confirmed, execute, execute_on_behalf_of,
  execute_on_contract, respond, with_block,
}
use prov_go.Pool.Methods.{lend, lend_for}

module _ (P : Platform) (W : Wasm P) where
  -- A call that only gives confirmed transactions whose code is 0.
  abbrev pub Succeeds : Action P (Confirmed P W) → World P → Type 0
  Succeeds m w = (c : Confirmed P W) → (m w).0 ≡ ok c → c.tx.code ≡ 0

  pub confirmed-Succeeds : (msgs : List P.Msg) (w : World P) → Succeeds (confirmed P W msgs) w
  unfolding broadcast_and_wait with_block check_code
  confirmed-Succeeds msgs w c h = ground arith

  execute-Succeeds :
      (pool : String) (msg : Json) (funds : Option P.Coins) (w : World P)
      → Succeeds (execute P W pool msg funds) w
  unfolding execute execute_on_contract
  execute-Succeeds pool msg funds w = confirmed-Succeeds _ w

  execute_on_behalf_of-Succeeds :
      (pool granter : String) (msg : Json) (funds : Option P.Coins) (w : World P)
      → Succeeds (execute_on_behalf_of P W pool granter msg funds) w
  unfolding execute_on_behalf_of require_signer
  execute_on_behalf_of-Succeeds pool granter msg funds w c h = grind (arith, confirmed-Succeeds)

  pub respond_inverse :
      {V : Type 0} (m : Action P (Confirmed P W))
      (parse : (Bytes → Bytes) → Option TxResponse → Option BlockReply → Result V) (w : World P)
      (v : V)
      → (respond P W m parse w).0 ≡ ok v
      → (c : Confirmed P W) × ((m w).0 ≡ ok c) × (parse W.sum (some (c.tx)) (c.block) ≡ ok v)
  unfolding respond
  respond_inverse m parse w v h = elim (Result-cases (m w).0) [
    | inl (c, e) ↦ (c, e, ground arith)
    | inr (inl (x, e)) ↦ absurd (ground arith)
    | inr (inr (x, e)) ↦ absurd (ground arith)
  ]

  lend_of :
      (tx : TxResponse) (block : Option BlockReply) (v : LendResponseV1)
      → parse_lend W.sum (some tx) block ≡ ok v
      → (l : Located) × (tx_metadata_from W.sum (some tx) block "lend" ≡ ok l)
        × (v ≡ record {
          event = event_response l;
          lender = get "lender" l.attrs;
          amount = get "amount" l.attrs;
          scaled_amount = get "scaled_amount" l.attrs;
        })
  unfolding parse_lend
  lend_of tx block v h = elim (Result-cases (tx_metadata_from W.sum (some tx) block "lend")) [
    | inl (l, e) ↦ (l, e, ground arith)
    | inr (inl (x, e)) ↦ absurd (ground arith)
    | inr (inr (x, e)) ↦ absurd (ground arith)
  ]

  -- What `v` says is what an executed transaction and its block say: the transaction's code is 0, the
  -- block holds it, and the fields are those of its first event with the action "lend".
  abbrev IsReported : LendResponseV1 → Type 0
  IsReported v =
      (c : Confirmed P W) × (l : Located) × (c.tx.code ≡ 0)
      × IsLocated W.sum c.tx c.block "lend" l
      × (v ≡ record {
        event = event_response l;
        lender = get "lender" l.attrs;
        amount = get "amount" l.attrs;
        scaled_amount = get "scaled_amount" l.attrs;
      })

  report :
      (m : Action P (Confirmed P W)) (w : World P) (v : LendResponseV1)
      → Succeeds m w
      → (respond P W m parse_lend w).0 ≡ ok v
      → IsReported v
  report m w v good h =
      let (c, e, p) = respond_inverse m parse_lend w v h in
      let (l, q, same) = lend_of c.tx c.block v p in
      (c, l, good c e, tx_metadata_from-IsLocated W.sum c.tx c.block "lend" l q, same)

  -- A response that `Lend` returns without an error is backed by the chain: its transaction has code
  -- 0, its block holds the transaction, and the lender and the amounts are those of the first event
  -- with the action "lend".
  lend-IsReported :
      (pool : String) (funds : P.Coins) (w : World P) (v : LendResponseV1)
      → (lend P W pool funds w).0 ≡ ok v
      → IsReported v
  unfolding lend
  lend-IsReported pool funds w v h = report _ w v (execute-Succeeds pool _ (some funds) w) h

  -- A response that `LendFor` returns without an error is backed by the chain in the same way: by a
  -- transaction with code 0 in its block, and by its first event with the action "lend".
  lend_for-IsReported :
      (pool granter : String) (funds : P.Coins) (w : World P) (v : LendResponseV1)
      → (lend_for P W pool granter funds w).0 ≡ ok v
      → IsReported v
  unfolding lend_for
  lend_for-IsReported pool granter funds w v h =
      report _ w v (execute_on_behalf_of-Succeeds pool granter _ (some funds) w) h

  confirmed_found :
      (msgs : List P.Msg) (w : World P) (t : TxResponse) (block : Option BlockReply)
      → (submit P "pool" msgs w).0 ≡ ok t
      → t.code ≡ 0
      → (W.block_by_height t.height (submit P "pool" msgs w).1.node).0 ≡ ok block
      → (confirmed P W msgs w).0 ≡ ok (record { tx = t; block = block })
  unfolding broadcast_and_wait with_block check_code
  confirmed_found msgs w t block sent good got = ground arith

  respond_found :
      {V : Type 0} (m : Action P (Confirmed P W))
      (parse : (Bytes → Bytes) → Option TxResponse → Option BlockReply → Result V) (w : World P)
      (c : Confirmed P W) (v : V)
      → (m w).0 ≡ ok c
      → parse W.sum (some (c.tx)) (c.block) ≡ ok v
      → (respond P W m parse w).0 ≡ ok v
  unfolding respond
  respond_found m parse w c v e p = ground arith

  parse_lend_found :
      (t : TxResponse) (block : Option BlockReply) (l : Located)
      → tx_metadata_from W.sum (some t) block "lend" ≡ ok l
      → parse_lend W.sum (some t) block
        ≡ ok (record {
          event = event_response l;
          lender = get "lender" l.attrs;
          amount = get "amount" l.attrs;
          scaled_amount = get "scaled_amount" l.attrs;
        })
  unfolding parse_lend
  parse_lend_found t block l e = rw e

  -- If the message of `Lend` becomes a transaction with code 0, and the node gives the block at its
  -- height, which holds it, then `Lend` returns the first event with the action "lend", with its place.
  pub lend_succeeds :
      (pool : String) (funds : P.Coins) (w : World P) (t : TxResponse) (block : Option BlockReply)
      (h : Header) (txs : List Bytes) (i j : ℕ) (raw : Bytes) (attrs : Dict)
      → (submit P "pool" (W.execute_contract w.client.address pool exec_lend (some funds) ∷ []) w).0
        ≡ ok t
      → t.code ≡ 0
      → (W.block_by_height t.height
          (submit P "pool"
            (W.execute_contract w.client.address pool exec_lend (some funds) ∷ [])
            w).1.node).0
        ≡ ok block
      → header_of block ≡ some h
      → txs_of block ≡ some txs
      → IsFirst (has_hash W.sum t.tx_hash) txs j raw
      → IsFirst (has_action "lend") (flat_event_attrs (some t)) i attrs
      → (lend P W pool funds w).0
        ≡ ok (record {
          event = record {
            block_height = h.height;
            block_time = h.time;
            tx_hash = t.tx_hash;
            tx_index = j;
            tx_event_index = i;
            contract_addr = get "_contract_address" attrs;
          };
          lender = get "lender" attrs;
          amount = get "amount" attrs;
          scaled_amount = get "scaled_amount" attrs;
        })
  unfolding lend execute execute_on_contract event_response
  lend_succeeds pool funds w t block h txs i j raw attrs sent good got head data_of at_j at_i =
      respond_found _ parse_lend w (record { tx = t; block = block }) _
        (confirmed_found _ w t block sent good got)
        (parse_lend_found t block _
          (tx_metadata_from_found W.sum t block "lend" h txs i j raw attrs head data_of at_j at_i))
