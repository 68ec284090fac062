-- ===== src/Attributes/Defs.antt =====
-- The two goroutines of `AddAttributes` (pkg/provenance/attribute.go), each as a function of what it
-- reads. The queue between them holds as many messages as there are attributes, so the first never
-- waits for the second. The progress display is left out.
use prov_go.Base.{
  ℕ, ◌*◌, String, ◌==◌, List, [], ◌∷◌, ◌++◌, Result, ok, err, panic, errorf, str, length, nat_eq,
  is_nil, if◌then◌else◌,
}
use prov_go.Platform.{Platform, TxReply}
use prov_go.Client.Monad.{World, Action, ◌>>=◌, gets, deref}
use prov_go.Client.Defs.{next_sequence, sign_tx, broadcast_tx}

pub record Attribute : Type 0 where
  pub name : String
  pub acct : String
  pub json_value : String

-- `attrtypes.MsgAddAttributeRequest` of type JSON
pub record MsgAddAttribute : Type 0 where
  pub name : String
  pub value : String
  pub account : String
  pub owner : String

-- The body of the loop over the attributes: `existing` is what `GetAttributes` gives for the name
-- and the account.
unfoldable pub prepare {ℓ} :
    {A : Type ℓ} → String → Attribute → Result (List A) → Result MsgAddAttribute
prepare owner a (err e) = err e
prepare owner a (panic s) = panic s
prepare owner a (ok (_ ∷ _)) =
    err (errorf "attribute already exists %s %s" (str a.name ∷ str a.acct ∷ []))
prepare owner a (ok []) = ok (record {
  name = a.name;
  value = (if a.json_value == "" then "{}" else a.json_value);
  account = a.acct;
  owner = owner;
})

abbrev pub batch_size : ℕ
batch_size = 75

-- The loop over the queue, with the buffer `buff`; the list ends where the queue is closed.
unfoldable pub batches_from {ℓ} : {A : Type ℓ} → List A → List A → List (List A)
batches_from buff [] = if is_nil buff then [] else buff ∷ []
batches_from buff (m ∷ queue) =
    let full = (buff ++ m ∷ []) ∷ batches_from [] queue in
    let more = batches_from (buff ++ m ∷ []) queue in
    if nat_eq (length (buff ++ m ∷ [])) batch_size then full else more

unfoldable pub batches {ℓ} : {A : Type ℓ} → List A → List (List A)
unfolding batches_from
batches = batches_from []

module _ (P : Platform) where
  -- One transaction of a batch. A client without a key panics on it.
  unfoldable pub send_batch : List P.Msg → Action P TxReply
  send_batch buff = do
    key ← deref (← gets (λ c. c.priv_key))
    account_number ← gets (λ c. c.account_number)
    sequence ← next_sequence P
    tx ← sign_tx P buff key account_number sequence (10_000_000_000 * length buff)
    broadcast_tx P tx

  -- The batches one after the other: a batch that fails does not stop the next. The results are those
  -- sent over the two channels, in order.
  unfoldable pub send_batches : List (List P.Msg) → World P → List (Result TxReply) × World P
  send_batches [] w = ([], w)
  send_batches (b ∷ bs) w =
      let (r, w') = send_batch b w in let (rs, w'') = send_batches bs w' in (r ∷ rs, w'')
