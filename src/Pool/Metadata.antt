-- ===== src/Pool/Metadata.antt =====
-- The event of a message and its place in the chain: `txMetadataFrom`
-- (pkg/demoprime/pool/responses.go). `sum` is `tmhash.Sum`.
use prov_go.Base.{String, Option, none, some, [], Result, ok, err, ◌>>=◌, Error, errorf}
use prov_go.Base.Dict.{Dict, get}
use prov_go.Platform.{Bytes, TxResponse}
use prov_go.Pool.Events.{find_wasm_action_event}
use prov_go.Pool.Block.{BlockReply, BlockInfo, block_info_from_block, tx_index_in_block}
use prov_go.Pool.Types.{TxMetadata, WasmTxEventResponse}

-- What `txMetadataFrom` gives on success.
pub record Located : Type 0 where
  pub meta : TxMetadata
  pub attrs : Dict
  pub info : BlockInfo

-- The composite literal `w` of every parser.
unfoldable pub event_response : Located → WasmTxEventResponse
event_response l = record {
  block_height = l.info.block_height;
  block_time = l.info.block_time;
  tx_hash = l.meta.tx_hash;
  tx_index = l.meta.tx_index;
  tx_event_index = l.meta.tx_event_index;
  contract_addr = get "_contract_address" l.attrs;
}

abbrev pub nil_tx : Error
nil_tx = errorf "pool: nil tx response" []

module _ (sum : Bytes → Bytes) (tx : Option TxResponse) (block : Option BlockReply) where
  unfoldable pub tx_metadata_from : String → Result Located
  tx_metadata_from action = elim tx [
    | none ↦ err nil_tx
    | some t ↦ do
      info ← block_info_from_block block
      (i, attrs) ← find_wasm_action_event (some t) action
      ix ← tx_index_in_block sum block (t.tx_hash)
      ok (record {
        meta = record { tx_hash = t.tx_hash; tx_index = ix; tx_event_index = i };
        attrs = attrs;
        info = info;
      })
  ]
