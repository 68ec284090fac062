-- ===== src/Pool/Block.antt =====
-- A block and the place of a transaction in it: `blockInfoFromBlock` (responses.go) and
-- `txIndexInBlock` (events.go) of pkg/demoprime/pool. `sum` is `tmhash.Sum`.
use prov_go.Base.{
  ℕ, ◌+◌, String, Option, none, some, List, [], ◌∷◌, map, Result, ok, err, errorf, str, codes,
  codes_eq, to_upper, trim_space, hex_encode, if◌then◌else◌,
}
use prov_go.Base.Int.{ℤ}
use prov_go.Platform.{Bytes}

-- The header's time is a count of nanoseconds; a missing one reads as the epoch.
pub record Header : Type 0 where
  pub height : ℤ
  pub time : ℕ

pub record SdkBlock : Type 0 where
  pub header : Option Header
  pub txs : Option (List Bytes)  -- the `Txs` of `Data`

-- `tendermint.GetBlockByHeightResponse`
pub record BlockReply : Type 0 where
  pub sdk_block : Option SdkBlock

pub record BlockInfo : Type 0 where
  pub block_height : ℤ
  pub block_time : ℕ

abbrev pub header_of : Option BlockReply → Option Header
header_of none = none
header_of (some b) = elim (b.sdk_block) [ none ↦ none | some k ↦ k.header ]

abbrev pub txs_of : Option BlockReply → Option (List Bytes)
txs_of none = none
txs_of (some b) = elim (b.sdk_block) [ none ↦ none | some k ↦ k.txs ]

unfoldable pub block_info_from_block : Option BlockReply → Result BlockInfo
block_info_from_block block = elim (header_of block) [
  | none ↦ err (errorf "pool: empty block response" [])
  | some h ↦ ok (record { block_height = h.height; block_time = h.time })
]

-- `strings.ToUpper(strings.TrimSpace(txHash))`
unfoldable pub wanted : String → List ℕ
unfolding to_upper trim_space
wanted hash = map to_upper (trim_space (codes hash))

module _ (sum : Bytes → Bytes) where
  -- `strings.ToUpper(hex.EncodeToString(tmhash.Sum(raw)))`
  unfoldable pub hash_text : Bytes → List ℕ
  unfolding to_upper hex_encode
  hash_text raw = map to_upper (hex_encode (sum raw))

  -- The loop over the block's transactions, with its index.
  unfoldable pub index_from : ℕ → String → List Bytes → Result ℕ
  index_from i hash [] = err (errorf "pool: tx hash %s not found in block txs" (str hash ∷ []))
  index_from i hash (raw ∷ txs) =
      if codes_eq (hash_text raw) (wanted hash) then ok i else index_from (i + 1) hash txs

  unfoldable pub tx_index_in_block : Option BlockReply → String → Result ℕ
  unfolding index_from
  tx_index_in_block block hash = elim (txs_of block) [
    | none ↦ err (errorf "pool: block has no tx data" [])
    | some txs ↦ index_from 0 hash txs
  ]
