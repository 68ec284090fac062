-- ===== src/Attributes/Reported.antt =====
-- What the two goroutines of `AddAttributes` (pkg/provenance/attribute.go) report to the caller, as an
-- invariant of their steps: the refused attributes, and the outcome of each batch sent.
use prov_go.Base.{
  ◌≡◌, refl, ap, sym, subst, ◌∙◌, Bool, true, false, List, [], ◌∷◌, ◌++◌, append_assoc, append-nil,
  Result, ok, err, Error, String, arith,
}
use prov_go.Platform.{Platform, TxReply}
use prov_go.Client.Monad.{World}
use prov_go.Attributes.Defs.{Attribute, MsgAddAttribute, send_batches}
use prov_go.Attributes.System.{
  Preparer, refusing, closed, Sender, answering, Adding, filled, flushed, resume, Step, enqueue,
  refuse, report, close, take, end, send, respond, complain,
}
use prov_go.Attributes.Prepared.{refused, refused-ok, refused-err, one_more, send_batches-append}

module _ (P : Platform) (pack : MsgAddAttribute → P.Msg) (owner : String) {A : Type 0}
    (existing : Attribute → Result (List A)) (attrs : List Attribute) (w : World P) where
  abbrev pub State : Type 0
  State = Adding P pack owner existing attrs

  abbrev pub errors : List Attribute → List Error
  errors = refused pack owner existing

  -- What was answered, with the answer that is still to be reported.
  abbrev pub pending : Sender P.Msg → List (Result TxReply)
  pending (answering r _) = r ∷ []
  pending _ = []

  abbrev pub IsAnswered : List (List P.Msg) → State → Type 0
  IsAnswered done s = send_batches P done w ≡ (s.answers ++ pending s.sender, s.world)

  abbrev pub held : Preparer → List Error
  held (refusing e) = e ∷ []
  held _ = []

  abbrev pub IsRefused : State → Type 0
  IsRefused s = s.refusals ++ (held s.preparer ++ errors s.left) ≡ errors attrs

  abbrev pub EndsAt : Preparer → List Attribute → Type 0
  EndsAt closed left = left ≡ []
  EndsAt _ left = Unit

  -- The batches sent after a step.
  abbrev pub next_done :
      {s t : State} → List (List P.Msg) → Step P pack owner existing attrs s t → List (List P.Msg)
  next_done done (send {batch} _) = done ++ batch ∷ []
  next_done done _ = done

  pub Step-EndsAt :
      {s t : State}
      → EndsAt s.preparer s.left
      → Step P pack owner existing attrs s t
      → EndsAt t.preparer t.left
  Step-EndsAt {s} h (enqueue {more} e _ _ _) = subst (λ p. EndsAt p more) (sym e) tt
  Step-EndsAt h (refuse _ _ _) = tt
  Step-EndsAt h (report _) = tt
  Step-EndsAt h (close _ e) = e
  Step-EndsAt h (take _ _) = h
  Step-EndsAt h (end _ _ _) = h
  Step-EndsAt h (send _) = h
  Step-EndsAt h (respond _) = h
  Step-EndsAt h (complain _) = h

  pending-resume : (last : Bool) → pending (resume P pack owner existing attrs last) ≡ []
  pending-resume true = refl
  pending-resume false = refl

  pending-filled : (buff : List P.Msg) → pending (filled P pack owner existing attrs buff) ≡ []
  pending-filled buff = ground arith

  pending-flushed : (buff : List P.Msg) → pending (flushed P pack owner existing attrs buff) ≡ []
  pending-flushed buff = ground arith

  pub Step-IsRefused :
      {s t : State} → IsRefused s → Step P pack owner existing attrs s t → IsRefused t
  Step-IsRefused {s} h (enqueue {a} {more} {m} e l r _) =
      ap (λ x. s.refusals ++ (held s.preparer ++ x))
        (sym (ap errors l ∙ refused-ok pack owner existing a more m r))
      ∙ h
  Step-IsRefused {s} h (refuse {a} {more} {e = x} e l r) =
      ap (λ y. s.refusals ++ y)
        (sym (
          ap (λ p. held p ++ errors s.left) e
          ∙ ap errors l
          ∙ refused-err pack owner existing a more x r))
      ∙ h
  Step-IsRefused {s} h (report {e = x} e) =
      append_assoc s.refusals (x ∷ []) (errors s.left)
      ∙ ap (λ p. s.refusals ++ (held p ++ errors s.left)) (sym e)
      ∙ h
  Step-IsRefused {s} h (close e _) = ap (λ p. s.refusals ++ (held p ++ errors s.left)) (sym e) ∙ h
  Step-IsRefused h (take _ _) = h
  Step-IsRefused h (end _ _ _) = h
  Step-IsRefused h (send _) = h
  Step-IsRefused h (respond _) = h
  Step-IsRefused h (complain _) = h

  pub Step-IsAnswered :
      (done : List (List P.Msg)) {s t : State}
      → IsAnswered done s
      → (p : Step P pack owner existing attrs s t) → IsAnswered (next_done done p) t
  Step-IsAnswered done h (enqueue _ _ _ _) = h
  Step-IsAnswered done h (refuse _ _ _) = h
  Step-IsAnswered done h (report _) = h
  Step-IsAnswered done h (close _ _) = h
  Step-IsAnswered done {s} h (take {m} e _) =
      h
      ∙ ap (λ x. (s.answers ++ x, s.world)) (ap pending e ∙ sym (pending-filled (s.buff ++ m ∷ [])))
  Step-IsAnswered done {s} h (end e _ _) =
      h ∙ ap (λ x. (s.answers ++ x, s.world)) (ap pending e ∙ sym (pending-flushed s.buff))
  Step-IsAnswered done {s} h (send {batch} e) =
      send_batches-append P done batch w
      ∙ ap (one_more P batch) (
          h
          ∙ ap (λ x. (s.answers ++ x, s.world)) (ap pending e)
          ∙ ap (λ x. (x, s.world)) (append-nil s.answers))
  Step-IsAnswered done {s} h (respond {reply} {last} e) =
      h
      ∙ ap (λ x. (s.answers ++ x, s.world)) (ap pending e)
      ∙ ap (λ x. (x, s.world))
          (sym (append-nil _)
            ∙ ap (λ y. (s.answers ++ ok reply ∷ []) ++ y) (sym (pending-resume last)))
  Step-IsAnswered done {s} h (complain {e = x} {last} e) =
      h
      ∙ ap (λ x. (s.answers ++ x, s.world)) (ap pending e)
      ∙ ap (λ x. (x, s.world))
          (sym (append-nil _)
            ∙ ap (λ y. (s.answers ++ err x ∷ []) ++ y) (sym (pending-resume last)))
