-- ===== src/Attributes/Added.antt =====
-- What `AddAttributes` (pkg/provenance/attribute.go) has done when its goroutines have ended, for
-- every interleaving of them with the caller.
use prov_go.Base.{◌≡◌, refl, ap, sym, subst, ◌∙◌, List, [], ◌++◌, append-nil, Result, String}
use prov_go.Platform.{Platform}
use prov_go.Client.Monad.{World}
use prov_go.Attributes.Defs.{Attribute, MsgAddAttribute, batches, send_batches}
use prov_go.Attributes.System.{finished, Reach, start, later}
use prov_go.Attributes.Prepared.{prepared, refused}
use prov_go.Attributes.Reported.{
  State, errors, pending, IsAnswered, held, IsRefused, EndsAt, next_done, Step-EndsAt,
  Step-IsRefused, Step-IsAnswered,
}
use prov_go.Attributes.Batched.{BatchedAt, IsBatched, Step-IsBatched}

module _ (P : Platform) (pack : MsgAddAttribute → P.Msg) (owner : String) {A : Type 0}
    (existing : Attribute → Result (List A)) (attrs : List Attribute) (w : World P) where
  abbrev Good : State P pack owner existing attrs w → Type 0
  Good s =
      (done : List (List P.Msg)) × (EndsAt P pack owner existing attrs w s.preparer s.left
        × (IsRefused P pack owner existing attrs w s
            × (IsAnswered P pack owner existing attrs w done s
                × IsBatched P pack owner existing attrs w done s)))

  Reach-Good :
      {s : State P pack owner existing attrs w} → Reach P pack owner existing attrs w s → Good s
  unfolding send_batches batches
  Reach-Good start = ([], (tt, (refl, (refl, refl))))
  Reach-Good (later r p) =
      let (done, (g, (h, (a, b)))) = Reach-Good r in
      (
        next_done P pack owner existing attrs w done p,
        (
          Step-EndsAt P pack owner existing attrs w g p,
          (
            Step-IsRefused P pack owner existing attrs w h p,
            (
              Step-IsAnswered P pack owner existing attrs w done a p,
              Step-IsBatched P pack owner existing attrs w done g b p,
            ),
          ),
        ),
      )

  -- Once both goroutines of `AddAttributes` have ended, whatever their interleaving with the caller: the
  -- caller has received the error of each attribute that failed its check, in order, and the outcome
  -- of each batch of the messages of the others, in order; and the client and the node are as after
  -- these batches, sent one after the other. The answer of `GetAttributes` is the same at any moment.
  pub add_attributes-sequential :
      {s : State P pack owner existing attrs w}
      → Reach P pack owner existing attrs w s
      → s.sender ≡ finished
      → (s.refusals ≡ refused pack owner existing attrs)
        × ((s.answers, s.world) ≡ send_batches P (batches (prepared pack owner existing attrs)) w)
  unfolding prepared refused
  add_attributes-sequential {s} r e =
      let (done, (ends, (h, (a, b)))) = Reach-Good r in
      let (all, c) =
        subst (BatchedAt P pack owner existing attrs w done s.preparer s.queue s.buff _) e b in
      let none_left = subst (λ p. EndsAt P pack owner existing attrs w p s.left) c ends in
      (
        sym (append-nil _)
            ∙ ap (λ x. s.refusals ++ x)
                (sym (
                  ap
                    (λ p.
                      held P pack owner existing attrs w p
                      ++ errors P pack owner existing attrs w s.left)
                    c
                  ∙ ap (errors P pack owner existing attrs w) none_left))
            ∙ h,
        sym (ap (λ x. (x, s.world)) (append-nil s.answers))
            ∙ sym
                (ap (λ x. (s.answers ++ x, s.world)) (ap (pending P pack owner existing attrs w) e))
            ∙ sym a
            ∙ ap (λ x. send_batches P x w) all,
      )
