-- ===== src/Metadata/Scopes.antt =====
-- The methods of pkg/provenance/metadata.go and group.go. The queries of the metadata module and the
-- packing of its messages are parameters. `UpdateRecords` takes the address of a variable of each
-- round of its loop: since Go 1.22 these are different variables.
use prov_go.Base.{ℕ, String, Option, none, some, List, [], ◌∷◌, map, Result, ok, err, panic, errorf}
use prov_go.Platform.{Platform, Bytes, TxReply}
use prov_go.Client.Monad.{Action, ◌>>=◌, lift, gets, call, deref, wrapping}
use prov_go.Client.Transact.{transact}
use prov_go.Metadata.Types.{
  Addresses, Scope, MsgWriteScopeRequest, MsgDeleteScopeRequest, MsgWriteSessionRequest,
  MsgWriteRecordRequest, must_parse, new_scope, new_delete_scope,
}

pub record NetAssetValue : Type 0 where
  pub price_denom : String
  pub price_amount : ℕ
  pub updated_block_height : ℕ

-- A reply holds a wrapper, and that the value: either pointer may be missing.
pub record Metadata (P : Platform) : Type 1 where
  pub ContractSpecification : Type 0
  pub ScopeSpecification : Type 0
  pub RecordSpecification : Type 0
  pub addresses : Addresses
  pub scope : String → P.State → Result (Option (Option Scope)) × P.State
  pub net_asset_values : String → P.State → Result (List NetAssetValue) × P.State
  pub contract_specification :
      String → P.State → Result (Option (Option ContractSpecification)) × P.State
  pub scope_specification : String → P.State → Result (Option (Option ScopeSpecification)) × P.State
  pub record_specification :
      String → P.State → Result (Option (Option RecordSpecification)) × P.State
  pub write_scope : MsgWriteScopeRequest → P.Msg
  pub delete_scope : MsgDeleteScopeRequest → P.Msg
  pub write_session : MsgWriteSessionRequest → P.Msg
  pub write_record : MsgWriteRecordRequest → P.Msg

module _ (P : Platform) (M : Metadata P) where
  unfoldable pub get_scope : String → Action P (Option Scope)
  get_scope scope_uuid = do found ← call (M.scope scope_uuid); deref found

  unfoldable pub get_nav : String → Action P (Option NetAssetValue)
  get_nav scope_id = do navs ← call (M.net_asset_values scope_id); lift (ok (first navs))
    where
      first : List NetAssetValue → Option NetAssetValue
      first [] = none
      first (nav ∷ _) = some nav

  unfoldable pub get_contract_spec : String → Action P (Option M.ContractSpecification)
  get_contract_spec spec_id = do found ← call (M.contract_specification spec_id); deref found

  unfoldable pub get_scope_spec : String → Action P (Option M.ScopeSpecification)
  get_scope_spec spec_id = do found ← call (M.scope_specification spec_id); deref found

  unfoldable pub get_record_spec :
      (contract_spec_uuid record_name : String) → Action P (Option M.RecordSpecification)
  get_record_spec contract_spec_uuid record_name = do
    spec ← lift (must_parse M.addresses contract_spec_uuid)
    found ← call (
        M.record_specification
          (M.addresses.address_string (M.addresses.record_spec_metadata_address spec record_name)))
    deref found

  -- The transaction of `CreateScope`, unless the scope is there.
  abbrev pub create_if_none :
      (scope_spec_uuid scope_uuid : String) → Option Scope → Action P TxReply
  create_if_none scope_spec_uuid scope_uuid (some s) = lift (err (errorf "scope already exists" []))
  create_if_none scope_spec_uuid scope_uuid none = do
    signer ← gets (λ c. c.address)
    msg ← lift (new_scope M.addresses signer scope_spec_uuid scope_uuid)
    transact P (M.write_scope msg ∷ [])

  unfoldable pub create_scope : (scope_spec_uuid scope_uuid : String) → Action P TxReply
  unfolding get_scope
  create_scope scope_spec_uuid scope_uuid = do
    scope ← wrapping "error getting scope: %w" (get_scope scope_uuid)
    create_if_none scope_spec_uuid scope_uuid scope

  unfoldable pub delete_scope : String → Action P TxReply
  delete_scope scope_uuid = do
    signer ← gets (λ c. c.address)
    msg ← lift (new_delete_scope M.addresses signer scope_uuid)
    transact P (M.delete_scope msg ∷ [])

  -- A nil slice of records is `none`.
  unfoldable pub update_records :
      MsgWriteSessionRequest → Option (List MsgWriteRecordRequest) → Action P TxReply
  update_records session none = lift (panic "records cannot be nil")
  update_records session (some records) =
      transact P (M.write_session session ∷ map M.write_record records)

-- `grouptypes.MsgSubmitProposal`
pub record MsgSubmitProposal : Type 0 where
  pub group_policy_address : String
  pub metadata : String
  pub title : String
  pub summary : String
  pub exec : String
  pub proposers : List String
  pub messages : List Bytes

-- `SetMsgs` packs the messages, and fails if one cannot be packed.
unfoldable pub wrap_group_proposal :
    (P : Platform)
    → (set_msgs : List P.Msg → Result (List Bytes))
    → (group_policy_address metadata title summary : String) → List P.Msg
    → Action P MsgSubmitProposal
wrap_group_proposal P set_msgs group_policy_address metadata title summary msgs = do
  address ← gets (λ c. c.address)
  packed ← lift (set_msgs msgs)
  lift (
      ok (record {
        group_policy_address = group_policy_address;
        metadata = metadata;
        title = title;
        summary = summary;
        exec = "EXEC_TRY";
        proposers = address ∷ [];
        messages = packed;
      }))
