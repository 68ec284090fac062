-- ===== src/Stream/Invariant.antt =====
-- What holds of the goroutine and its channels at every moment, given the items received so far.
use prov_go.Base.{
  Bool, Error, List, Option, [], append-nil, append_assoc, cancelled, false, if◌then◌else◌, inl,
  inr, none, refl, some, subst, sym, true, ℕ, ◌++◌, ◌∙◌, ◌∷◌, ◌≡◌, ◌⊎◌,
}
use prov_go.Stream.Channel.{
  Link, Produce, Stream, abort, answer, close_err, close_items, crashed, failing, finished,
  interrupt, last_page, no_pagination, opened, page, refuse, refused, report, request, send,
  sending, shut_err, shut_items, turn_page, Producer,
}
use prov_go.Stream.Fetched.{
  Fetched, IsCause, IsListing, IsPartial, IsPartial-of_Fetched, IsPartial-page, at, last_one,
  none_yet, one_more,
}

module _ {A : Type 0} (st : Stream A) (got : List A) where
  -- The goroutine has left its loop: all was sent, or the error is in its channel.
  abbrev pub HasEnded : Link A → Type 0
  HasEnded l =
      ((l.fault ≡ none) × IsListing st.fetch (got ++ l.buffer))
      ⊎ ((e : Error) × (l.fault ≡ some e)
          × IsPartial st.fetch (got ++ l.buffer)
          × IsCause st.fetch l.cancelled e)

  abbrev pub HoldsAt : Link A → Producer A → Type 0
  HoldsAt l (request key) =
      Fetched st.fetch (got ++ l.buffer) (at key)
      × (l.fault ≡ none)
      × (l.fault_closed ≡ false)
      × (l.buffer_closed ≡ false)
  HoldsAt l (sending left next) =
      ((xs ys : List A) × (key : List ℕ) × Fetched st.fetch xs (at key)
        × (st.fetch key ≡ page ys next)
        × ((got ++ l.buffer) ++ left ≡ xs ++ ys))
      × (l.fault ≡ none)
      × (l.fault_closed ≡ false)
      × (l.buffer_closed ≡ false)
  HoldsAt l (failing e) =
      IsPartial st.fetch (got ++ l.buffer)
      × IsCause st.fetch l.cancelled e
      × (l.fault ≡ none)
      × (l.fault_closed ≡ false)
      × (l.buffer_closed ≡ false)
  HoldsAt l close_err = HasEnded l × (l.fault_closed ≡ false) × (l.buffer_closed ≡ false)
  HoldsAt l close_items = HasEnded l × (l.fault_closed ≡ true) × (l.buffer_closed ≡ false)
  HoldsAt l finished = HasEnded l × (l.fault_closed ≡ true) × (l.buffer_closed ≡ true)
  HoldsAt l crashed = (l.fault ≡ none) × (l.fault_closed ≡ false) × (l.buffer_closed ≡ false)

  abbrev pub Holds : Link A → Type 0
  Holds l = HoldsAt l l.producer

-- One lemma for each step of the goroutine.
module _ {A : Type 0} (st : Stream A) (got : List A) (l : Link A) where
  answer-Holds :
      {key : List ℕ} {xs : List A} {next : Option (List ℕ)}
      → HoldsAt st got l (request key)
      → st.fetch key ≡ page xs next
      → Holds st got (record l { producer = sending xs next })
  answer-Holds {key} {xs} (f, h, i, j) e = ((got ++ l.buffer, xs, key, f, e, refl), h, i, j)

  IsCause-refused :
      (done : Bool) {key : List ℕ} {e : Error}
      → st.fetch key ≡ refused e
      → IsCause st.fetch done (if done then cancelled else e)
  IsCause-refused true r = inr (refl, refl)
  IsCause-refused false {key} r = inl (key, r)

  request-failing :
      {key : List ℕ} (e : Error)
      → HoldsAt st got l (request key)
      → IsCause st.fetch l.cancelled e
      → Holds st got (record l { producer = failing e })
  request-failing e (f, h, i, j) c = (IsPartial-of_Fetched st.fetch f, c, h, i, j)

  sending-failing :
      (left : List A) (next : Option (List ℕ))
      → HoldsAt st got l (sending left next)
      → l.cancelled ≡ true
      → Holds st got (record l { producer = failing cancelled })
  sending-failing left next ((us, ys, key, f, e, p), h, i, j) c =
      (IsPartial-page st.fetch _ left next f e p, inr (refl, c), h, i, j)

  send-Holds :
      (x : A) (xs : List A) (next : Option (List ℕ))
      → HoldsAt st got l (sending (x ∷ xs) next)
      → Holds st got (record l { producer = sending xs next; buffer = l.buffer ++ x ∷ [] })
  send-Holds x xs next ((us, ys, key, f, e, p), h, i, j) =
      ((us, ys, key, f, e, rw (← p) (simp append_assoc)), h, i, j)

  turn_page-Holds :
      (b : ℕ) (bs : List ℕ)
      → HoldsAt st got l (sending [] (some (b ∷ bs)))
      → Holds st got (record l { producer = request (b ∷ bs) })
  turn_page-Holds b bs ((us, ys, key, f, e, p), h, i, j) = (
    subst (λ zs. Fetched st.fetch zs (at (b ∷ bs))) (sym p ∙ append-nil _) (one_more f e),
    h,
    i,
    j,
  )

  last_page-Holds :
      HoldsAt st got l (sending [] (some [])) → Holds st got (record l { producer = close_err })
  last_page-Holds ((us, ys, key, f, e, p), h, i, j) =
      (inl (h, subst (λ zs. IsListing st.fetch zs) (sym p ∙ append-nil _) (last_one f e)), i, j)

module _ {A : Type 0} (st : Stream A) where
  pub Holds-opened : Holds st [] opened
  Holds-opened = (none_yet, refl, refl, refl)

  -- A step of the goroutine keeps the invariant.
  pub Produce-Holds :
      (got : List A) {l l' : Link A} → Holds st got l → Produce st l l' → Holds st got l'
  Produce-Holds got {l} h (answer p e) = answer-Holds st got l (subst (HoldsAt st got l) p h) e
  Produce-Holds got {l} h (refuse p e) =
      request-failing st got l _ (subst (HoldsAt st got l) p h)
        (IsCause-refused st got l l.cancelled e)
  Produce-Holds got {l} h (interrupt p c) =
      request-failing st got l _ (subst (HoldsAt st got l) p h) (inr (refl, c))
  Produce-Holds got {l} h (send p room) = send-Holds st got l _ _ _ (subst (HoldsAt st got l) p h)
  Produce-Holds got {l} h (abort p c) =
      sending-failing st got l _ _ (subst (HoldsAt st got l) p h) c
  Produce-Holds got {l} h (turn_page p) =
      turn_page-Holds st got l _ _ (subst (HoldsAt st got l) p h)
  Produce-Holds got {l} h (last_page p) = last_page-Holds st got l (subst (HoldsAt st got l) p h)
  Produce-Holds got {l} h (no_pagination p) =
      let (_, a, b, c) = subst (HoldsAt st got l) p h in (a, b, c)
  Produce-Holds got {l} h (report {e} p) =
      let (f, c, _, i, j) = subst (HoldsAt st got l) p h in (inr (e, refl, f, c), i, j)
  Produce-Holds got {l} h (shut_err p) =
      let (e, i, j) = subst (HoldsAt st got l) p h in (e, refl, j)
  Produce-Holds got {l} h (shut_items p) =
      let (e, i, j) = subst (HoldsAt st got l) p h in (e, i, refl)

  -- A goroutine that has only its channels left to close.
  abbrev pub IsPast : Producer A → Type 0
  IsPast close_err = Unit
  IsPast close_items = Unit
  IsPast finished = Unit
  IsPast _ = ⊥

  -- The item channel is closed only after the goroutine has left its loop.
  pub HasEnded-of_closed :
      (got : List A) (l : Link A) (p : Producer A)
      → HoldsAt st got l p
      → l.buffer_closed ≡ true
      → HasEnded st got l × IsPast p
  HasEnded-of_closed got l (request _) (_, _, _, j) c = cc
  HasEnded-of_closed got l (sending _ _) (_, _, _, j) c = cc
  HasEnded-of_closed got l (failing _) (_, _, _, _, j) c = cc
  HasEnded-of_closed got l close_err (_, _, j) c = cc
  HasEnded-of_closed got l close_items (_, _, j) c = cc
  HasEnded-of_closed got l finished (e, _, _) c = (e, tt)
  HasEnded-of_closed got l crashed (_, _, j) c = cc

  HasEnded-fault :
      (got : List A) (l : Link A) {e : Error}
      → HasEnded st got l
      → l.fault ≡ some e
      → IsCause st.fetch l.cancelled e
  HasEnded-fault got l (inl (h, _)) q = cc
  HasEnded-fault got l {e} (inr (e', h, _, c)) q =
      subst (IsCause st.fetch l.cancelled) {x = e'} {y = e} (cc) c

  -- An error in its channel has a cause, and the goroutine that put it there is past its loop.
  pub IsCause-of_fault :
      (got : List A) (l : Link A) {e : Error} (p : Producer A)
      → HoldsAt st got l p
      → l.fault ≡ some e
      → IsCause st.fetch l.cancelled e × IsPast p
  IsCause-of_fault got l (request _) (_, h, _, _) q = cc
  IsCause-of_fault got l (sending _ _) (_, h, _, _) q = cc
  IsCause-of_fault got l (failing _) (_, _, h, _, _) q = cc
  IsCause-of_fault got l close_err (h, _, _) q = (HasEnded-fault got l h q, tt)
  IsCause-of_fault got l close_items (h, _, _) q = (HasEnded-fault got l h q, tt)
  IsCause-of_fault got l finished (h, _, _) q = (HasEnded-fault got l h q, tt)
  IsCause-of_fault got l crashed (h, _, _) q = cc

  pub Produce-IsPast : {l l' : Link A} → IsPast l.producer → Produce st l l' → IsPast l'.producer
  Produce-IsPast h (answer p e) = absurd (subst IsPast p h)
  Produce-IsPast h (refuse p e) = absurd (subst IsPast p h)
  Produce-IsPast h (interrupt p c) = absurd (subst IsPast p h)
  Produce-IsPast h (send p room) = absurd (subst IsPast p h)
  Produce-IsPast h (abort p c) = absurd (subst IsPast p h)
  Produce-IsPast h (turn_page p) = absurd (subst IsPast p h)
  Produce-IsPast h (last_page p) = tt
  Produce-IsPast h (no_pagination p) = absurd (subst IsPast p h)
  Produce-IsPast h (report p) = tt
  Produce-IsPast h (shut_err p) = tt
  Produce-IsPast h (shut_items p) = tt

  -- The goroutine never touches the context.
  pub Produce-cancelled : {l l' : Link A} → Produce st l l' → l'.cancelled ≡ l.cancelled
  Produce-cancelled (answer p e) = refl
  Produce-cancelled (refuse p e) = refl
  Produce-cancelled _ = refl

  module _ (acc acc' : List A) (l : Link A) (xs : List A)
      (same : acc' ++ xs ≡ acc ++ l.buffer) where
    HasEnded-move : HasEnded st acc l → HasEnded st acc' (record l { buffer = xs })
    HasEnded-move (inl (h, f)) = inl (h, rw same f)
    HasEnded-move (inr (e, h, f, c)) = inr (e, h, rw same f, c)

    -- Only the items received and buffered together matter.
    pub HoldsAt-move :
        (p : Producer A) → HoldsAt st acc l p → HoldsAt st acc' (record l { buffer = xs }) p
    HoldsAt-move (request _) (f, h, i, j) = (rw same f, h, i, j)
    HoldsAt-move (sending _ _) ((us, ys, key, f, e, p), h, i, j) =
        ((us, ys, key, f, e, rw same p), h, i, j)
    HoldsAt-move (failing _) (f, c, h, i, j) = (rw same f, c, h, i, j)
    HoldsAt-move close_err (h, i, j) = (HasEnded-move h, i, j)
    HoldsAt-move close_items (h, i, j) = (HasEnded-move h, i, j)
    HoldsAt-move finished (h, i, j) = (HasEnded-move h, i, j)
    HoldsAt-move crashed h = h
