-- ===== src/Tests/Adding.antt =====
-- A run of the goroutines of `AddAttributes` (pkg/provenance/attribute.go) on an attribute that exists
-- and one that does not.
use prov_go.Base.{
  ℕ, ◌≡◌, ◌≤◌, ◌⊎◌, refl, ap, true, List, [], ◌∷◌, Result, ok, err, arith, ◌==◌, if◌then◌else◌,
  Error, errorf, str, String,
}
use prov_go.Client.Defs.{
  next_sequence, sign_tx, draft_tx, finish_tx, simulate_tx, fee_coins, broadcast_tx,
}
use prov_go.Platform.{TxReply}
use prov_go.Client.Monad.{World}
use prov_go.Attributes.Defs.{Attribute, MsgAddAttribute, prepare, batches, send_batch, send_batches}
use prov_go.Attributes.System.{
  Adding, Step, Reach, start, later, enqueue, refuse, report, close, take, end, send, respond,
  closed, finished, answering,
}
use prov_go.Attributes.Prepared.{prepared, refused}
use prov_go.Attributes.Added.{add_attributes-sequential}
use prov_go.Attributes.Progress.{steps, IsPanicked, add_attributes_ends}
use prov_go.Tests.Sample.{calm, calm_world, lend_reply}

abbrev old : Attribute
old = record { name = "old"; acct = "tp1a"; json_value = "{}" }

abbrev fresh : Attribute
fresh = record { name = "new"; acct = "tp1b"; json_value = "" }

abbrev existing : Attribute → Result (List ℕ)
existing a = if a.name == "old" then ok (1 ∷ []) else ok []

abbrev pack : MsgAddAttribute → String
pack m = m.name

abbrev attrs : List Attribute
attrs = old ∷ fresh ∷ []

abbrev exists : Error
exists = errorf "attribute already exists %s %s" (str "old" ∷ str "tp1a" ∷ [])

abbrev message : MsgAddAttribute
message = record { name = "new"; value = "{}"; account = "tp1b"; owner = "tp1owner" }

old_refused : prepare "tp1owner" old (existing old) ≡ err exists
unfolding prepare
old_refused = refl

fresh_passes : prepare "tp1owner" fresh (existing fresh) ≡ ok message
unfolding prepare
fresh_passes = refl

abbrev sent : Result TxReply × World calm
sent = send_batch calm ("new" ∷ []) calm_world

batch_passes : sent.0 ≡ ok lend_reply
unfolding send_batch next_sequence sign_tx draft_tx finish_tx simulate_tx fee_coins broadcast_tx
batch_passes = refl

abbrev added : Adding calm pack "tp1owner" existing attrs
added = record {
  preparer = closed;
  left = [];
  queue = [];
  sender = finished;
  buff = [];
  world = sent.1;
  refusals = exists ∷ [];
  answers = ok lend_reply ∷ [];
}

added_run : Reach calm pack "tp1owner" existing attrs calm_world added
added_run =
    later
      (later
        (later
          (later
            (later
              (later (later (later start (refuse refl refl old_refused)) (report refl))
                (enqueue refl refl fresh_passes (omega arith)))
              (close refl refl))
            (take refl refl))
          (end refl refl refl))
        (send refl))
      (respond (ap (λ r. answering r true) batch_passes))

add_attributes-sequential_example :
    (added.refusals ≡ refused pack "tp1owner" existing attrs)
    × ((added.answers, added.world)
        ≡ send_batches calm (batches (prepared pack "tp1owner" existing attrs)) calm_world)
add_attributes-sequential_example =
    add_attributes-sequential calm pack "tp1owner" existing attrs calm_world added_run refl

add_attributes_ends_example :
    (steps calm pack "tp1owner" existing attrs calm_world added_run ≤ 13)
    × ((added.sender ≡ finished)
        ⊎ IsPanicked calm pack "tp1owner" existing attrs calm_world added
        ⊎ (t : Adding calm pack "tp1owner" existing attrs) × Step calm pack "tp1owner" existing
            attrs added t)
add_attributes_ends_example =
    add_attributes_ends calm pack "tp1owner" existing attrs calm_world added_run
