-- ===== src/Attributes/Prepared.antt =====
-- What the goroutines of `AddAttributes` (pkg/provenance/attribute.go) come to, one after the other.
use prov_go.Base.{
  ◌≡◌, refl, ap, List, [], ◌∷◌, ◌++◌, true, false, Result, ok, err, panic, Error, String, nat_eq,
  length,
}
use prov_go.Platform.{Platform, TxReply}
use prov_go.Client.Monad.{World}
use prov_go.Attributes.Defs.{
  Attribute, MsgAddAttribute, prepare, batch_size, batches_from, send_batch, send_batches,
}

abbrev pub message {ℓ} : {M : Type ℓ} → (MsgAddAttribute → M) → Result MsgAddAttribute → List M
message pack (ok m) = pack m ∷ []
message pack (err e) = []
message pack (panic s) = []

abbrev pub refusal : Result MsgAddAttribute → List Error
refusal (ok m) = []
refusal (err e) = e ∷ []
refusal (panic s) = []

module _ {M A : Type 0} (pack : MsgAddAttribute → M) (owner : String)
    (existing : Attribute → Result (List A)) where
  -- The messages of the attributes that pass their check, and the errors of the others, in order.
  unfoldable pub prepared : List Attribute → List M
  prepared [] = []
  prepared (a ∷ more) = message pack (prepare owner a (existing a)) ++ prepared more

  unfoldable pub refused : List Attribute → List Error
  refused [] = []
  refused (a ∷ more) = refusal (prepare owner a (existing a)) ++ refused more

  pub prepared-ok :
      (a : Attribute) (more : List Attribute) (m : MsgAddAttribute)
      → prepare owner a (existing a) ≡ ok m
      → prepared (a ∷ more) ≡ pack m ∷ prepared more
  unfolding prepared
  prepared-ok a more m e = ap (λ r. message pack r ++ prepared more) e

  pub refused-ok :
      (a : Attribute) (more : List Attribute) (m : MsgAddAttribute)
      → prepare owner a (existing a) ≡ ok m
      → refused (a ∷ more) ≡ refused more
  unfolding refused
  refused-ok a more m e = ap (λ r. refusal r ++ refused more) e

  pub prepared-err :
      (a : Attribute) (more : List Attribute) (x : Error)
      → prepare owner a (existing a) ≡ err x
      → prepared (a ∷ more) ≡ prepared more
  unfolding prepared
  prepared-err a more x e = ap (λ r. message pack r ++ prepared more) e

  pub refused-err :
      (a : Attribute) (more : List Attribute) (x : Error)
      → prepare owner a (existing a) ≡ err x
      → refused (a ∷ more) ≡ x ∷ refused more
  unfolding refused
  refused-err a more x e = ap (λ r. refusal r ++ refused more) e

-- One more message in the buffer, and the end of the queue.
module _ {M : Type 0} where
  pub batches_from-full :
      (buff queue : List M) (m : M)
      → nat_eq (length (buff ++ m ∷ [])) batch_size ≡ true
      → batches_from buff (m ∷ queue) ≡ (buff ++ m ∷ []) ∷ batches_from [] queue
  unfolding batches_from
  batches_from-full buff queue m e = rw e refl

  pub batches_from-more :
      (buff queue : List M) (m : M)
      → nat_eq (length (buff ++ m ∷ [])) batch_size ≡ false
      → batches_from buff (m ∷ queue) ≡ batches_from (buff ++ m ∷ []) queue
  unfolding batches_from
  batches_from-more buff queue m e = rw e refl

module _ (P : Platform) where
  -- The outcomes of some batches, with that of one more.
  abbrev pub one_more :
      List P.Msg → List (Result TxReply) × World P → List (Result TxReply) × World P
  one_more batch (answers, w) = (answers ++ (send_batch P batch w).0 ∷ [], (send_batch P batch w).1)

  pub send_batches-append :
      (done : List (List P.Msg)) (batch : List P.Msg) (w : World P)
      → send_batches P (done ++ batch ∷ []) w ≡ one_more batch (send_batches P done w)
  unfolding send_batches
  send_batches-append [] batch w = refl
  send_batches-append (b ∷ done) batch w =
      ap (λ (x : List (Result TxReply) × World P). ((send_batch P b w).0 ∷ x.0, x.1))
        (send_batches-append done batch (send_batch P b w).1)
