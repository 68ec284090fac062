-- ===== src/Client/Submit.antt =====
-- From messages to an executed transaction: `RequireSigner` and `BroadcastMsgs`
-- (pkg/demoprime/contract/base_client.go). `broadcastAndWait` (pkg/demoprime/pool/client.go) begins
-- with the same calls under the prefix "pool" (see Pool/Wasm).
use prov_go.Base.{
  String, ◌<>◌, ◌==◌, Option, none, some, List, [], ◌∷◌, Result, ok, err, panic, Error, errorf, str,
  number, nat_eq, if◌then◌else◌, or_err,
}
use prov_go.Platform.{Platform, Bytes, TxResponse, TxReply}
use prov_go.Client.Monad.{World, Action, ◌>>=◌, lift, gets, wrapping}
use prov_go.Client.Defs.{next_sequence, sign_tx, broadcast_tx, wait_on_tx}

abbrev pub no_signer : Error
no_signer = errorf "demoprime/contract: provenance client has no signer" []

-- The hash of a reply, if there is one.
abbrev pub hash_of : TxReply → Option String
hash_of r = elim (r.tx_response) [
  | none ↦ none
  | some t ↦ if t.tx_hash == "" then none else some (t.tx_hash)
]

-- How a call that gives both a `*sdk.TxResponse` and an error has ended: a failed transaction comes
-- with its response.
pub data Executed (A : Type 0) : Type 0 where
  done : A → Executed A
  failed : Option TxResponse → Error → Executed A
  panicked : String → Executed A

abbrev pub code_error : String → TxResponse → Error
code_error pkg t =
    errorf (pkg <> ": tx failed code=%d codespace=%s raw_log=%s")
      (number t.code ∷ str t.codespace ∷ str t.raw_log ∷ [])

-- The check of the transaction's code.
unfoldable pub check_code : String → Result TxResponse → Executed TxResponse
check_code pkg (ok t) = if nat_eq t.code 0 then done t else failed (some t) (code_error pkg t)
check_code pkg (err e) = failed none e
check_code pkg (panic s) = panicked s

module _ (P : Platform) where
  -- The key of the signer.
  unfoldable pub require_signer : Action P Bytes
  require_signer = do lift (or_err (← gets (λ c. c.priv_key)) no_signer)

  -- Broadcast the signed transaction, and wait for its response.
  unfoldable pub confirm : String → Bytes → Action P TxResponse
  confirm pkg tx = do
    reply ← wrapping (pkg <> ": broadcast: %w") (broadcast_tx P tx)
    hash ← lift (or_err (hash_of reply) (errorf (pkg <> ": empty broadcast response") []))
    got ← wrapping (pkg <> ": wait on tx: %w") (wait_on_tx P hash)
    lift (or_err got.tx_response (errorf (pkg <> ": nil tx in get-tx response") []))

  -- Sign with the next sequence number, broadcast, and wait.
  unfoldable pub submit : String → List P.Msg → Action P TxResponse
  submit pkg msgs = do
    key ← require_signer
    sequence ← next_sequence P
    account_number ← gets (λ c. c.account_number)
    tx ← wrapping (pkg <> ": sign tx: %w") (sign_tx P msgs key account_number sequence 0)
    confirm pkg tx

  unfoldable pub broadcast_msgs : List P.Msg → World P → Executed TxResponse × World P
  broadcast_msgs msgs w =
      let (r, w') = submit "demoprime/contract" msgs w in (check_code "demoprime/contract" r, w')
