-- ===== src/Attributes/Batched.antt =====
-- The batches that the goroutines of `AddAttributes` (pkg/provenance/attribute.go) send, as an invariant
-- of their steps.
use prov_go.Base.{
  ◌≡◌, refl, ap, sym, subst, ◌∙◌, Bool, true, false, Bool-cases, inl, inr, List, [], ◌∷◌, ◌++◌,
  append_assoc, append-nil, Result, String, nat_eq, length,
}
use prov_go.Platform.{Platform}
use prov_go.Client.Monad.{World}
use prov_go.Attributes.Defs.{Attribute, MsgAddAttribute, batch_size, batches, batches_from}
use prov_go.Attributes.System.{
  Preparer, checking, refusing, closed, Sender, reading, sending, answering, finished, filled,
  flushed, resume, Step, enqueue, refuse, report, close, take, end, send, respond, complain,
}
use prov_go.Attributes.Prepared.{
  prepared, prepared-ok, prepared-err, batches_from-full, batches_from-more,
}
use prov_go.Attributes.Reported.{State, EndsAt, next_done}

module _ (P : Platform) (pack : MsgAddAttribute → P.Msg) (owner : String) {A : Type 0}
    (existing : Attribute → Result (List A)) (attrs : List Attribute) (w : World P) where
  abbrev pub messages : List Attribute → List P.Msg
  messages = prepared pack owner existing

  -- Once the queue has ended, nothing is in it, and nothing comes.
  abbrev IsLast : Bool → Preparer → List P.Msg → Type 0
  IsLast false p queue = Unit
  IsLast true p queue = (p ≡ closed) × (queue ≡ [])

  -- The batches sent, and those that the rest will come to, are those of all messages.
  abbrev pub BatchedAt :
      List (List P.Msg) → Preparer → List P.Msg → (buff rest : List P.Msg) → Sender P.Msg → Type 0
  BatchedAt done p queue buff rest reading =
      done ++ batches_from buff rest ≡ batches (messages attrs)
  BatchedAt done p queue buff rest (sending batch last) =
      (done ++ batch ∷ batches_from [] rest ≡ batches (messages attrs)) × IsLast last p queue
  BatchedAt done p queue buff rest (answering _ last) =
      (done ++ batches_from [] rest ≡ batches (messages attrs))
      × ((buff ≡ []) × IsLast last p queue)
  BatchedAt done p queue buff rest finished = (done ≡ batches (messages attrs)) × (p ≡ closed)

  abbrev pub IsBatched : List (List P.Msg) → State P pack owner existing attrs w → Type 0
  IsBatched done s = BatchedAt done s.preparer s.queue s.buff (s.queue ++ messages s.left) s.sender

  -- While the queue has not ended, the first goroutine may go on.
  live :
      (done : List (List P.Msg)) (p p' : Preparer) (queue queue' buff rest : List P.Msg)
      (c : Sender P.Msg)
      → ¬ (p ≡ closed)
      → BatchedAt done p queue buff rest c
      → BatchedAt done p' queue' buff rest c
  live done p p' queue queue' buff rest reading open_still h = h
  live done p p' queue queue' buff rest (sending batch false) open_still (h, _) = (h, tt)
  live done p p' queue queue' buff rest (sending batch true) open_still (h, (e, _)) =
      absurd (open_still e)
  live done p p' queue queue' buff rest (answering r false) open_still (h, (b, _)) = (h, (b, tt))
  live done p p' queue queue' buff rest (answering r true) open_still (h, (b, (e, _))) =
      absurd (open_still e)
  live done p p' queue queue' buff rest finished open_still (h, e) = absurd (open_still e)

  still :
      {p : Preparer} (s : State P pack owner existing attrs w)
      → s.preparer ≡ p
      → ¬ (p ≡ closed)
      → ¬ (s.preparer ≡ closed)
  still s e n q = n (sym e ∙ q)

  at_rest :
      (done : List (List P.Msg)) (s : State P pack owner existing attrs w) (rest : List P.Msg)
      → s.queue ++ messages s.left ≡ rest
      → IsBatched done s
      → BatchedAt done s.preparer s.queue s.buff rest s.sender
  at_rest done s rest e h = subst (λ x. BatchedAt done s.preparer s.queue s.buff x s.sender) e h

  take-BatchedAt :
      (done : List (List P.Msg)) (p : Preparer) (queue buff rest : List P.Msg) (m : P.Msg)
      → done ++ batches_from buff (m ∷ rest) ≡ batches (messages attrs)
      → BatchedAt done p queue
          (buff ++ m ∷ [])
          rest
          (filled P pack owner existing attrs (buff ++ m ∷ []))
  take-BatchedAt done p queue buff rest m h =
      elim (Bool-cases (nat_eq (length (buff ++ m ∷ [])) batch_size)) [
        | inl full ↦
            rw full (ap (λ x. done ++ x) (sym (batches_from-full buff rest m full)) ∙ h, tt)
        | inr more ↦ rw more (ap (λ x. done ++ x) (sym (batches_from-more buff rest m more)) ∙ h)
      ]

  end-BatchedAt :
      (done : List (List P.Msg)) (p : Preparer) (queue buff : List P.Msg)
      → p ≡ closed
      → queue ≡ []
      → done ++ batches_from buff [] ≡ batches (messages attrs)
      → BatchedAt done p queue buff [] (flushed P pack owner existing attrs buff)
  unfolding batches_from
  end-BatchedAt done p queue [] e q h = (sym (append-nil done) ∙ h, e)
  end-BatchedAt done p queue (x ∷ buff) e q h = (h, (e, q))

  resume-BatchedAt :
      (done : List (List P.Msg)) (p : Preparer) (queue buff rest : List P.Msg) (last : Bool)
      → done ++ batches_from [] rest ≡ batches (messages attrs)
      → buff ≡ []
      → IsLast last p queue
      → (p ≡ closed → queue ≡ [] → rest ≡ [])
      → BatchedAt done p queue buff rest (resume P pack owner existing attrs last)
  unfolding batches_from
  resume-BatchedAt done p queue buff rest false h b l none_left = rw b h
  resume-BatchedAt done p queue buff rest true h b (e, q) none_left =
      (sym (append-nil done) ∙ ap (λ x. done ++ batches_from [] x) (sym (none_left e q)) ∙ h, e)

  rest_empty :
      (s : State P pack owner existing attrs w)
      → EndsAt P pack owner existing attrs w s.preparer s.left
      → s.preparer ≡ closed
      → s.queue ≡ []
      → s.queue ++ messages s.left ≡ []
  unfolding prepared
  rest_empty s h e q =
      ap (λ x. x ++ messages s.left) q
      ∙ ap messages (subst (λ p. EndsAt P pack owner existing attrs w p s.left) e h)

  pub Step-IsBatched :
      (done : List (List P.Msg)) {s t : State P pack owner existing attrs w}
      → EndsAt P pack owner existing attrs w s.preparer s.left
      → IsBatched done s
      → (p : Step P pack owner existing attrs s t)
      → IsBatched (next_done P pack owner existing attrs w done p) t
  Step-IsBatched done {s} g h (enqueue {a} {more} {m} e l r _) =
      live done s.preparer s.preparer s.queue _ s.buff _ s.sender (still s e (λ q. cc)) (
        at_rest done s ((s.queue ++ pack m ∷ []) ++ messages more)
          (ap (λ x. s.queue ++ x) (ap messages l ∙ prepared-ok pack owner existing a more m r)
            ∙ sym (append_assoc s.queue (pack m ∷ []) (messages more)))
          h)
  Step-IsBatched done {s} g h (refuse {a} {more} {e = x} e l r) =
      live done s.preparer (refusing x) s.queue s.queue s.buff _ s.sender (still s e (λ q. cc)) (
        at_rest done s (s.queue ++ messages more)
          (ap (λ y. s.queue ++ y) (ap messages l ∙ prepared-err pack owner existing a more x r)) h)
  Step-IsBatched done {s} g h (report e) =
      live done s.preparer checking s.queue s.queue s.buff _ s.sender (still s e (λ q. cc)) h
  Step-IsBatched done {s} g h (close e _) =
      live done s.preparer closed s.queue s.queue s.buff _ s.sender (still s e (λ q. cc)) h
  Step-IsBatched done {s} g h (take {m} {more} e q) =
      take-BatchedAt done s.preparer more s.buff (more ++ messages s.left) m (
        subst (BatchedAt done s.preparer s.queue s.buff (m ∷ (more ++ messages s.left))) e
          (at_rest done s _ (ap (λ x. x ++ messages s.left) q) h))
  Step-IsBatched done {s} g h (end e q c) =
      subst
        (λ rest.
          BatchedAt done s.preparer s.queue s.buff rest
            (flushed P pack owner existing attrs s.buff))
        (sym (rest_empty s g c q))
        (end-BatchedAt done s.preparer s.queue s.buff c q (
          subst (BatchedAt done s.preparer s.queue s.buff []) e
            (at_rest done s [] (rest_empty s g c q) h)))
  Step-IsBatched done {s} g h (send {batch} {last} e) =
      let (all, l) = subst (BatchedAt done s.preparer s.queue s.buff _) e h in
      (append_assoc done (batch ∷ []) _ ∙ all, (refl, l))
  Step-IsBatched done {s} g h (respond {last} e) =
      let (all, (b, l)) = subst (BatchedAt done s.preparer s.queue s.buff _) e h in
      resume-BatchedAt done s.preparer s.queue s.buff _ last all b l (rest_empty s g)
  Step-IsBatched done {s} g h (complain {last} e) =
      let (all, (b, l)) = subst (BatchedAt done s.preparer s.queue s.buff _) e h in
      resume-BatchedAt done s.preparer s.queue s.buff _ last all b l (rest_empty s g)
