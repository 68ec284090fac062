-- ===== src/Attributes/Progress.antt =====
-- The goroutines of `AddAttributes` (pkg/provenance/attribute.go) come to an end: they never wait for each other for good.
use prov_go.Base.{
  ℕ, Bool, true, false, ◌*◌, ◌≡◌, refl, ap, List, [], ◌∷◌, ◌++◌, ◌+◌, ◌≤◌, ◌<◌, ◌⊎◌, inl, inr,
  Result, ok, err, panic, String, length, arith, length-append,
}
use prov_go.Platform.{Platform, TxReply}
use prov_go.Client.Monad.{World}
use prov_go.Attributes.Defs.{Attribute, MsgAddAttribute, prepare, send_batch}
use prov_go.Attributes.System.{
  Preparer, checking, refusing, closed, Sender, reading, sending, answering, finished, Adding,
  filled, flushed, resume, Step, enqueue, refuse, report, close, take, end, send, respond, complain,
  Reach, start, later,
}

module _ (P : Platform) (pack : MsgAddAttribute → P.Msg) (owner : String) {A : Type 0}
    (existing : Attribute → Result (List A)) (attrs : List Attribute) (w : World P) where
  abbrev State : Type 0
  State = Adding P pack owner existing attrs

  abbrev Next : State → State → Type 0
  Next = Step P pack owner existing attrs

  abbrev HasRoom : State → Type 0
  HasRoom s = length s.queue + length s.left ≤ length attrs

  Step-HasRoom : {s t : State} → HasRoom s → Next s t → HasRoom t
  Step-HasRoom {s} h (enqueue {m} e l _ _) =
      let k = ap length l in let n = length-append s.queue (pack m ∷ []) in omega arith
  Step-HasRoom h (refuse _ l _) = let k = ap length l in omega arith
  Step-HasRoom h (report _) = h
  Step-HasRoom h (close _ _) = h
  Step-HasRoom h (take _ q) = let k = ap length q in omega arith
  Step-HasRoom h (end _ _ _) = h
  Step-HasRoom h (send _) = h
  Step-HasRoom h (respond _) = h
  Step-HasRoom h (complain _) = h

  Reach-HasRoom : {s : State} → Reach P pack owner existing attrs w s → HasRoom s
  Reach-HasRoom start = omega arith
  Reach-HasRoom (later r p) = Step-HasRoom (Reach-HasRoom r) p

  -- The check of the next attribute panics, or the transaction of a batch has panicked.
  abbrev pub IsPanicked : State → Type 0
  IsPanicked s =
      ((a : Attribute) × (why : String) × (more : List Attribute) × (s.preparer ≡ checking)
        × (s.left ≡ a ∷ more)
        × (prepare owner a (existing a) ≡ panic why))
      ⊎ (why : String) × (last : Bool) × (s.sender ≡ answering (panic why) last)

  abbrev CanGoOn : State → Type 0
  CanGoOn s = IsPanicked s ⊎ (t : State) × Next s t

  check_next :
      (s : State) (a : Attribute) (more : List Attribute) (r : Result MsgAddAttribute)
      → s.preparer ≡ checking
      → s.left ≡ a ∷ more
      → length s.queue < length attrs
      → prepare owner a (existing a) ≡ r
      → CanGoOn s
  check_next s a more (ok m) e l room c = inr (_, enqueue e l c room)
  check_next s a more (err x) e l room c = inr (_, refuse e l c)
  check_next s a more (panic why) e l room c = inl (inl (a, why, more, e, l, c))

  waiting :
      (s : State) (p : Preparer) (left : List Attribute)
      → HasRoom s
      → s.sender ≡ reading
      → s.queue ≡ []
      → s.preparer ≡ p
      → s.left ≡ left
      → CanGoOn s
  waiting s checking [] h r q e l = inr (_, close e l)
  waiting s checking (a ∷ more) h r q e l =
      let k = ap length l in
      check_next s a more (prepare owner a (existing a)) e l (omega arith) refl
  waiting s (refusing x) left h r q e l = inr (_, report e)
  waiting s closed left h r q e l = inr (_, end r q e)

  go_on :
      (s : State) (c : Sender P.Msg) (queue : List P.Msg)
      → HasRoom s
      → s.sender ≡ c
      → s.queue ≡ queue
      → (s.sender ≡ finished) ⊎ CanGoOn s
  go_on s reading [] h e q = inr (waiting s s.preparer s.left h e q refl refl)
  go_on s reading (m ∷ more) h e q = inr (inr (_, take e q))
  go_on s (sending batch last) queue h e q = inr (inr (_, send e))
  go_on s (answering (ok reply) last) queue h e q = inr (inr (_, respond e))
  go_on s (answering (err x) last) queue h e q = inr (inr (_, complain e))
  go_on s (answering (panic why) last) queue h e q = inr (inl (inr (why, last, e)))
  go_on s finished queue h e q = inl e

  -- What is left to be done, in steps at most.
  abbrev preparer_work : Preparer → ℕ
  preparer_work checking = 1
  preparer_work (refusing _) = 2
  preparer_work closed = 0

  abbrev sender_work : Sender P.Msg → ℕ
  sender_work reading = 4
  sender_work (sending _ false) = 6
  sender_work (sending _ true) = 3
  sender_work (answering _ false) = 5
  sender_work (answering _ true) = 2
  sender_work finished = 0

  abbrev work : State → ℕ
  work s =
      4 * length s.left + preparer_work s.preparer + (3 * length s.queue + sender_work s.sender)

  sender_work-filled :
      (buff : List P.Msg) → sender_work (filled P pack owner existing attrs buff) ≤ 6
  sender_work-filled buff = ground arith

  sender_work-flushed :
      (buff : List P.Msg) → sender_work (flushed P pack owner existing attrs buff) ≤ 3
  sender_work-flushed buff = ground arith

  sender_work-resume :
      (r : Result TxReply) (last : Bool)
      → sender_work (resume P pack owner existing attrs last) < sender_work (answering r last)
  sender_work-resume r true = omega arith
  sender_work-resume r false = omega arith

  sender_work-answering :
      (batch : List P.Msg) (r : Result TxReply) (last : Bool)
      → sender_work (answering r last) < sender_work (sending batch last)
  sender_work-answering batch r true = omega arith
  sender_work-answering batch r false = omega arith

  Step-work : {s t : State} → Next s t → work t < work s
  Step-work {s} (enqueue {m} e l _ _) =
      let k = ap length l in let n = length-append s.queue (pack m ∷ []) in omega arith
  Step-work (refuse e l _) = let k = ap length l in let i = ap preparer_work e in omega arith
  Step-work (report e) = let i = ap preparer_work e in omega arith
  Step-work (close e _) = let i = ap preparer_work e in omega arith
  Step-work {s} (take {m} e q) =
      let k = ap length q in
      let i = ap sender_work e in let j = sender_work-filled (s.buff ++ m ∷ []) in omega arith
  Step-work {s} (end e _ _) =
      let i = ap sender_work e in let j = sender_work-flushed s.buff in omega arith
  Step-work {s} (send {batch} {last} e) =
      let i = ap sender_work e in
      let j = sender_work-answering batch (send_batch P batch s.world).0 last in omega arith
  Step-work (respond {reply} {last} e) =
      let i = ap sender_work e in let j = sender_work-resume (ok reply) last in omega arith
  Step-work (complain {e = x} {last} e) =
      let i = ap sender_work e in let j = sender_work-resume (err x) last in omega arith

  pub steps : {s : State} → Reach P pack owner existing attrs w s → ℕ
  steps start = 0
  steps (later r _) = steps r + 1

  steps-work :
      {s : State} (r : Reach P pack owner existing attrs w s)
      → steps r + work s ≤ 4 * length attrs + 5
  unfolding steps
  steps-work start = omega arith
  steps-work (later r p) = let h = steps-work r in let k = Step-work p in omega arith

  -- `AddAttributes` with a caller that receives comes to an end: a run of its goroutines has at most
  -- four steps for each attribute and five more, and until the goroutine that sends has ended or one
  -- of them panics, one of them can go on.
  pub add_attributes_ends :
      {s : State} (r : Reach P pack owner existing attrs w s)
      → (steps r ≤ 4 * length attrs + 5)
        × ((s.sender ≡ finished) ⊎ IsPanicked s ⊎ (t : State) × Next s t)
  add_attributes_ends {s} r =
      let h = steps-work r in (omega arith, go_on s s.sender s.queue (Reach-HasRoom r) refl refl)
