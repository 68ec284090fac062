-- ===== src/Pool/Located.antt =====
-- What `txMetadataFrom` finds (pkg/demoprime/pool/responses.go, events.go), for any transaction and
-- block.
use prov_go.Base.{
  Bool, Error, IsFirst, IsNone, List, Option, Option-cases, String, [], arith, codes_eq, err,
  first_from, first_from-cases, first_from-of_IsFirst, first_from-of_IsNone, inl, inr, none, ok,
  or_err, refl, some, subst, sym, ℕ, ◌+◌, ◌==◌, ◌∙◌, ◌∷◌, ◌≡◌, ◌≢◌, ◌↔◌,
}
use prov_go.Base.Dict.{Dict, get}
use prov_go.Platform.{Bytes, TxResponse}
use prov_go.Pool.Events.{find_from, find_wasm_action_event, flat_event_attrs, no_action}
use prov_go.Pool.Block.{
  BlockReply, Header, block_info_from_block, hash_text, header_of, index_from, tx_index_in_block,
  txs_of, wanted,
}
use prov_go.Pool.Metadata.{Located, tx_metadata_from}

abbrev pub has_action : String → Dict → Bool
has_action action m = get "action" m == action

pub find_from-eq :
    (action : String) (i : ℕ) (list : List Dict)
    → find_from i action list ≡ or_err (first_from (has_action action) i list) (no_action action)
unfolding find_from first_from
find_from-eq action i [] = refl
find_from-eq action i (m ∷ list) = ground (arith, find_from-eq action (i + 1) list)

ok-injective : {a b : Located} → ok a ≡ ok b → a ≡ b
ok-injective p = cc

module _ (sum : Bytes → Bytes) where
  abbrev pub has_hash : String → Bytes → Bool
  has_hash hash raw = codes_eq (hash_text sum raw) (wanted hash)

  index_from-found :
      (hash : String) (i : ℕ) (txs : List Bytes) (d : ℕ) (raw : Bytes)
      → first_from (has_hash hash) i txs ≡ some (d, raw)
      → index_from sum i hash txs ≡ ok d
  unfolding index_from first_from
  index_from-found hash i [] d raw e = cc
  index_from-found hash i (t ∷ txs) d raw e =
      ground (arith, index_from-found hash (i + 1) txs d raw)

  index_from-missing :
      (hash : String) (i : ℕ) (txs : List Bytes)
      → first_from (has_hash hash) i txs ≡ none
      → (x : Error) × (index_from sum i hash txs ≡ err x)
  unfolding index_from first_from
  index_from-missing hash i [] e = (_, refl)
  index_from-missing hash i (t ∷ txs) e = ground (arith, index_from-missing hash (i + 1) txs)

  -- Where the block holds the transaction and the transaction has an event with the action,
  -- `txMetadataFrom` gives the first such event with its index, the first place of the transaction
  -- in the block, and the height and time of the block's header.
  pub tx_metadata_from_found :
      (t : TxResponse) (block : Option BlockReply) (action : String) (h : Header) (txs : List Bytes)
      (i j : ℕ) (raw : Bytes) (attrs : Dict)
      → header_of block ≡ some h
      → txs_of block ≡ some txs
      → IsFirst (has_hash t.tx_hash) txs j raw
      → IsFirst (has_action action) (flat_event_attrs (some t)) i attrs
      → tx_metadata_from sum (some t) block action
        ≡ ok (record {
          meta = record { tx_hash = t.tx_hash; tx_index = j; tx_event_index = i };
          attrs = attrs;
          info = record { block_height = h.height; block_time = h.time };
        })
  unfolding tx_metadata_from block_info_from_block tx_index_in_block find_wasm_action_event
  tx_metadata_from_found t block action h txs i j raw attrs head data_of at_j at_i = ground (
    arith,
    find_from-eq action 0 (flat_event_attrs (some t)),
    first_from-of_IsFirst (has_action action) 0 (flat_event_attrs (some t)) i attrs at_i,
    index_from-found (t.tx_hash) 0 txs j raw,
    first_from-of_IsFirst (has_hash t.tx_hash) 0 txs j raw at_j,
  )

  -- Where no event of the transaction has the action, `txMetadataFrom` gives no result.
  tx_metadata_from_missing :
      (t : TxResponse) (block : Option BlockReply) (action : String)
      → IsNone (has_action action) (flat_event_attrs (some t))
      → (l : Located) → tx_metadata_from sum (some t) block action ≢ ok l
  unfolding tx_metadata_from find_wasm_action_event
  tx_metadata_from_missing t block action absent l = ground (
    arith,
    find_from-eq action 0 (flat_event_attrs (some t)),
    first_from-of_IsNone (has_action action) 0 (flat_event_attrs (some t)) absent,
  )

  -- The other ways in which it gives an error.
  module _ (t : TxResponse) (block : Option BlockReply) (action : String) (l : Located) where
    tx_metadata_from_headless :
        header_of block ≡ none → tx_metadata_from sum (some t) block action ≢ ok l
    unfolding tx_metadata_from block_info_from_block
    tx_metadata_from_headless h = ground arith

    tx_metadata_from_dataless :
        txs_of block ≡ none → tx_metadata_from sum (some t) block action ≢ ok l
    unfolding tx_metadata_from tx_index_in_block
    tx_metadata_from_dataless h = ground arith

    tx_metadata_from_outside :
        (txs : List Bytes)
        → txs_of block ≡ some txs
        → first_from (has_hash t.tx_hash) 0 txs ≡ none
        → tx_metadata_from sum (some t) block action ≢ ok l
    unfolding tx_metadata_from tx_index_in_block
    tx_metadata_from_outside txs h e = ground (arith, (index_from-missing (t.tx_hash) 0 txs e).1)

  -- The result of `txMetadataFrom` for an included transaction.
  abbrev pub IsLocated : TxResponse → Option BlockReply → String → Located → Type 0
  IsLocated t block action l =
      (h : Header) × (txs : List Bytes) × (raw : Bytes) × (header_of block ≡ some h)
      × (txs_of block ≡ some txs)
      × (l.info ≡ record { block_height = h.height; block_time = h.time })
      × (l.meta.tx_hash ≡ t.tx_hash)
      × IsFirst (has_hash t.tx_hash) txs l.meta.tx_index raw
      × IsFirst (has_action action) (flat_event_attrs (some t)) l.meta.tx_event_index l.attrs

  -- Whatever `txMetadataFrom` returns without an error is so placed: the header's height and time,
  -- the first transaction of the block with the hash, the first event with the action.
  pub tx_metadata_from-IsLocated :
      (t : TxResponse) (block : Option BlockReply) (action : String) (l : Located)
      → tx_metadata_from sum (some t) block action ≡ ok l
      → IsLocated t block action l
  tx_metadata_from-IsLocated t block action l e = elim (Option-cases (header_of block)) [
    | inl bad ↦ absurd (tx_metadata_from_headless t block action l bad e)
    | inr (h, head) ↦ elim (Option-cases (txs_of block)) [
      | inl bad ↦ absurd (tx_metadata_from_dataless t block action l bad e)
      | inr (txs, data_of) ↦ elim (first_from-cases (has_hash t.tx_hash) 0 txs) [
        | inr (bad, _) ↦ absurd (tx_metadata_from_outside t block action l txs data_of bad e)
        | inl (j, raw, _, at_j) ↦
            elim (first_from-cases (has_action action) 0 (flat_event_attrs (some t))) [
              | inr (_, absent) ↦ absurd (tx_metadata_from_missing t block action absent l e)
              | inl (i, attrs, _, at_i) ↦
                  subst (IsLocated t block action)
                    (ok-injective (
                      sym (
                        tx_metadata_from_found t block action h txs i j raw attrs head data_of at_j
                          at_i)
                      ∙ e))
                    (h, txs, raw, head, data_of, refl, refl, at_j, at_i)
            ]
      ]
    ]
  ]

  located_is_found :
      (t : TxResponse) (block : Option BlockReply) (action : String) (l : Located)
      → IsLocated t block action l
      → tx_metadata_from sum (some t) block action ≡ ok l
  located_is_found t block action l (h, txs, raw, head, data_of, info, hash, at_j, at_i) =
      tx_metadata_from_found t block action h txs l.meta.tx_event_index l.meta.tx_index raw l.attrs
        head data_of at_j at_i
      ∙ cc

  -- `txMetadataFrom` gives a result for an included transaction exactly if it is the right one: the first
  -- event of the transaction with the action, with its index; the first place in the block of a
  -- transaction with the hash; and the height and time of the block's header.
  pub tx_metadata_from_iff :
      (t : TxResponse) (block : Option BlockReply) (action : String) (l : Located)
      → (tx_metadata_from sum (some t) block action ≡ ok l) ↔ IsLocated t block action l
  tx_metadata_from_iff t block action l =
      (tx_metadata_from-IsLocated t block action l, located_is_found t block action l)
