-- ===== src/Metadata/Types.antt =====
-- The builders of pkg/provenance/types.go. The generated messages are records of the fields that are
-- set; the value of an enum is its name.
use prov_go.Base.{
  String, Bool, false, Option, none, some, List, [], ◌∷◌, Result, ok, panic, ◌>>=◌, ◌<>◌,
}
use prov_go.Base.Int.{ℤ}
use prov_go.Platform.{Platform, Bytes}

pub record Party : Type 0 where
  pub address : String
  pub role : String
  pub optional : Bool

pub record Scope : Type 0 where
  pub scope_id : Bytes
  pub specification_id : Bytes
  pub owners : List Party
  pub value_owner_address : String

pub record MsgWriteScopeRequest : Type 0 where
  pub scope : Scope
  pub signers : List String

pub record MsgDeleteScopeRequest : Type 0 where
  pub scope_id : Bytes
  pub signers : List String

pub record Session : Type 0 where
  pub name : String
  pub session_id : Bytes
  pub specification_id : Bytes
  pub parties : List Party

pub record MsgWriteSessionRequest : Type 0 where
  pub session : Session
  pub signers : List String

pub record Process : Type 0 where
  pub hash : String
  pub name : String
  pub method : String

pub record RecordInput : Type 0 where
  pub name : String
  pub type_name : String
  pub status : String
  pub hash : String

pub record RecordOutput : Type 0 where
  pub hash : String
  pub status : String

pub record Record : Type 0 where
  pub specification_id : Bytes
  pub session_id : Bytes
  pub name : String
  pub process : Process
  pub inputs : List RecordInput
  pub outputs : List RecordOutput

pub record MsgWriteRecordRequest : Type 0 where
  pub record_of : Record
  pub signers : List String

-- The UUIDs and the addresses of the metadata module.
pub record Addresses : Type 0 where
  pub parse_uuid : String → Option Bytes
  pub scope_metadata_address : Bytes → Bytes
  pub scope_spec_metadata_address : Bytes → Bytes
  pub session_metadata_address : Bytes → Bytes → Bytes
  pub contract_spec_metadata_address : Bytes → Bytes
  pub record_spec_metadata_address : Bytes → String → Bytes
  pub address_string : Bytes → String

abbrev owner : String → Party
owner signer = record { address = signer; role = "PARTY_TYPE_OWNER"; optional = false }

module _ (A : Addresses) where
  -- `uuid.MustParse`
  abbrev pub must_parse : String → Result Bytes
  must_parse s = elim (A.parse_uuid s) [ none ↦ panic ("uuid: Parse(" <> s <> ")") | some u ↦ ok u ]

  unfoldable pub new_scope :
      (signer scope_spec_uuid scope_uuid : String) → Result MsgWriteScopeRequest
  new_scope signer scope_spec_uuid scope_uuid = do
    id ← must_parse scope_uuid
    spec ← must_parse scope_spec_uuid
    ok (record {
      scope = record {
        scope_id = A.scope_metadata_address id;
        specification_id = A.scope_spec_metadata_address spec;
        owners = owner signer ∷ [];
        value_owner_address = signer;
      };
      signers = signer ∷ [];
    })

  unfoldable pub new_delete_scope : (signer scope_uuid : String) → Result MsgDeleteScopeRequest
  new_delete_scope signer scope_uuid = do
    id ← must_parse scope_uuid
    ok (record { scope_id = A.scope_metadata_address id; signers = signer ∷ [] })

  unfoldable pub new_session :
      (signer scope_uuid session_uuid session_name contract_spec_uuid : String)
      → Result MsgWriteSessionRequest
  new_session signer scope_uuid session_uuid session_name contract_spec_uuid = do
    scope ← must_parse scope_uuid
    session ← must_parse session_uuid
    spec ← must_parse contract_spec_uuid
    ok (record {
      session = record {
        name = session_name;
        session_id = A.session_metadata_address scope session;
        specification_id = A.contract_spec_metadata_address spec;
        parties = owner signer ∷ [];
      };
      signers = signer ∷ [];
    })

  unfoldable pub new_json_record :
      (signer process_name process_method contract_spec_uuid input_name record_name
        record_json : String)
      → (session_id : Bytes) → Result MsgWriteRecordRequest
  new_json_record signer process_name process_method contract_spec_uuid input_name record_name
        record_json session_id =
      do
        spec ← must_parse contract_spec_uuid
        ok (record {
          record_of = record {
            specification_id = A.record_spec_metadata_address spec record_name;
            session_id = session_id;
            name = record_name;
            process = record { hash = "{}"; name = process_name; method = process_method };
            inputs =
                record { name = input_name; type_name = "json"; status = "Proposed"; hash = "{}" }
                ∷ [];
            outputs = record { hash = record_json; status = "RESULT_STATUS_PASS" } ∷ [];
          };
          signers = signer ∷ [];
        })

-- `banktypes.MsgSend`
pub record MsgSend (P : Platform) : Type 0 where
  pub from_address : String
  pub to_address : String
  pub amount : P.Coins

-- `NewInt64Coin` panics on a negative amount or a malformed denom.
unfoldable pub new_bank_send :
    (P : Platform) → (from_address to_address denom : String) → ℤ → Result (MsgSend P)
new_bank_send P from_address to_address denom amount = do
  coins ← P.new_coins denom amount
  ok (record { from_address = from_address; to_address = to_address; amount = coins })
