-- ===== src/Stream/Safety.antt =====
-- What the callers that gather a stream return.
use prov_go.Base.{
  Bool, Error, List, Result, [], append-nil, append_assoc, err, false, inl, inr, none, ok, panic,
  refl, some, subst, sym, true, ℕ, ◌++◌, ◌∙◌, ◌∷◌, ◌≡◌, ◌≢◌, ◌⊎◌,
}
use prov_go.Stream.Channel.{
  Link, Produce, Stream, close_err, close_items, crashed, failing, finished, refused, request,
  sending, Producer,
}
use prov_go.Stream.Fetched.{IsCause, IsListing, IsPartial}
use prov_go.Stream.Invariant.{
  HasEnded, HasEnded-of_closed, Holds, Holds-opened, HoldsAt, HoldsAt-move, IsCause-of_fault,
  IsPast, Produce-Holds, Produce-IsPast, Produce-cancelled,
}
use prov_go.Stream.Collect.{
  Advance, Reach, System, advance, cancel, collecting, complete, give_up, idle, later, notice,
  produce, receive, returned, start, Collector,
}

module _ {A : Type 0} (st : Stream A) where
  -- A successful result holds all items, unless the stream has ended by an error, in which case
  -- it may hold only the items before it.
  abbrev pub IsSound : Bool → Result (List A) → Type 0
  IsSound done (ok xs) =
      IsListing st.fetch xs ⊎ (IsPartial st.fetch xs × ((e : Error) × IsCause st.fetch done e))
  IsSound done (err e) = IsCause st.fetch done e
  IsSound done (panic _) = ⊥

  -- The goroutine can end without its receiver.
  abbrev pub IsFree : Link A → Type 0
  IsFree l = (l.cancelled ≡ true) ⊎ IsPast st l.producer

  abbrev pub GoodAt : Link A → Collector A → Type 0
  GoodAt l (collecting acc) = Holds st acc l
  GoodAt l (returned r) = IsSound l.cancelled r × IsFree l

  abbrev pub Good : System A → Type 0
  Good s = GoodAt s.link s.collector

  IsCause-cancel : {done : Bool} {e : Error} → IsCause st.fetch done e → IsCause st.fetch true e
  IsCause-cancel (inl h) = inl h
  IsCause-cancel (inr (h, _)) = inr (h, refl)

  IsSound-cancel : (done : Bool) (r : Result (List A)) → IsSound done r → IsSound true r
  IsSound-cancel done (ok xs) (inl h) = inl h
  IsSound-cancel done (ok xs) (inr (p, (e, c))) = inr (p, (e, IsCause-cancel c))
  IsSound-cancel done (err e) c = IsCause-cancel c
  IsSound-cancel done (panic _) h = h

  pub Produce-GoodAt :
      {l l' : Link A} (c : Collector A) → GoodAt l c → Produce st l l' → GoodAt l' c
  Produce-GoodAt (collecting acc) h p = Produce-Holds st acc h p
  Produce-GoodAt {l} {l'} (returned r) (sound, free) p =
      (subst (λ b. IsSound b r) (sym (Produce-cancelled st p)) sound, go free)
    where
      go : IsFree l → IsFree l'
      go (inl c) = inl (Produce-cancelled st p ∙ c)
      go (inr past) = inr (Produce-IsPast st past p)

  HasEnded-cancel :
      (acc : List A) (l : Link A)
      → HasEnded st acc l
      → HasEnded st acc (record l { cancelled = true })
  HasEnded-cancel acc l (inl h) = inl h
  HasEnded-cancel acc l (inr (e, h, p, c)) = inr (e, h, p, IsCause-cancel c)

  cancel-HoldsAt :
      (acc : List A) (l : Link A) (p : Producer A)
      → HoldsAt st acc l p
      → HoldsAt st acc (record l { cancelled = true }) p
  cancel-HoldsAt acc l (request _) h = h
  cancel-HoldsAt acc l (sending _ _) h = h
  cancel-HoldsAt acc l (failing _) (f, c, h, i, j) = (f, IsCause-cancel c, h, i, j)
  cancel-HoldsAt acc l close_err (h, i, j) = (HasEnded-cancel acc l h, i, j)
  cancel-HoldsAt acc l close_items (h, i, j) = (HasEnded-cancel acc l h, i, j)
  cancel-HoldsAt acc l finished (h, i, j) = (HasEnded-cancel acc l h, i, j)
  cancel-HoldsAt acc l crashed h = h

  pub cancel-GoodAt :
      (l : Link A) (c : Collector A) → GoodAt l c → GoodAt (record l { cancelled = true }) c
  cancel-GoodAt l (collecting acc) h = cancel-HoldsAt acc l l.producer h
  cancel-GoodAt l (returned r) (sound, _) = (IsSound-cancel l.cancelled r sound, inl refl)

  IsSound-ended :
      (l : Link A) (acc : List A) → l.buffer ≡ [] → HasEnded st acc l → IsSound l.cancelled (ok acc)
  IsSound-ended l acc e (inl (_, f)) = inl (rw (e, append-nil) at f)
  IsSound-ended l acc e (inr (x, _, f, c)) = inr (rw (e, append-nil) at f, (x, c))

  pub complete-GoodAt :
      (l : Link A) (acc : List A)
      → Holds st acc l
      → l.buffer ≡ []
      → l.buffer_closed ≡ true
      → GoodAt l (returned (ok acc))
  complete-GoodAt l acc h none_left closed =
      let (ended, past) = HasEnded-of_closed st acc l l.producer h closed in
      (IsSound-ended l acc none_left ended, inr past)

  pub notice-GoodAt :
      (l : Link A) (acc : List A) {e : Error}
      → Holds st acc l
      → l.fault ≡ some e
      → GoodAt (record l { fault = none }) (returned (err e))
  notice-GoodAt l acc h q =
      let (cause, past) = IsCause-of_fault st acc l l.producer h q in (cause, inr past)

  pub receive-Holds :
      (l : Link A) (acc xs : List A) (x : A)
      → Holds st acc l
      → l.buffer ≡ x ∷ xs
      → Holds st (acc ++ x ∷ []) (record l { buffer = xs })
  receive-Holds l acc xs x h e =
      HoldsAt-move st acc (acc ++ x ∷ []) l xs (rw (append_assoc, e)) l.producer h

  Advance-Good : {s t : System A} → Good s → Advance st s t → Good t
  Advance-Good {s} h (produce p) = Produce-GoodAt s.collector h p
  Advance-Good {s} h (give_up p c) = (inr (refl, c), inl c)
  Advance-Good {s} h (receive p e) = receive-Holds s.link _ _ _ (subst (GoodAt s.link) p h) e
  Advance-Good {s} h (complete p e c) = complete-GoodAt s.link _ (subst (GoodAt s.link) p h) e c
  Advance-Good {s} h (notice p q) = notice-GoodAt s.link _ (subst (GoodAt s.link) p h) q

  pub Reach-Good : {s : System A} → Reach st s → Good s
  Reach-Good start = Holds-opened st
  Reach-Good (later r (advance a)) = Advance-Good (Reach-Good r) a
  Reach-Good (later {s} r cancel) = cancel-GoodAt s.link s.collector (Reach-Good r)
  Reach-Good (later r (idle _ _ _)) = Reach-Good r

-- For each of the five queries: if no query fails and the context is not cancelled, the slice that
-- the caller returns without an error holds all items of all pages, in order.
pub collect_complete :
    {A : Type 0} (st : Stream A) {s : System A} {xs : List A}
    → Reach st s
    → s.collector ≡ returned (ok xs)
    → s.cancelled ≡ false
    → ((key : List ℕ) (e : Error) → st.fetch key ≢ refused e)
    → IsListing st.fetch xs
collect_complete st {s} {xs} r p live answers = go (subst (GoodAt st s.link) p (Reach-Good st r)).0
  where
    go : IsSound st s.cancelled (ok xs) → IsListing st.fetch xs
    go (inl f) = f
    go (inr (_, (e, inl (key, q)))) = absurd (answers key e q)
    go (inr (_, (e, inr (_, c)))) = cc

-- Whatever the caller returns is sound, cancelled or not: it does not panic; an error is one that a
-- query gave, or that of a cancelled context; a slice without an error is all items of the query,
-- or, where a query gave an error or the context is cancelled, items with which its pages begin.
pub collect-IsSound :
    {A : Type 0} (st : Stream A) {s : System A} {r : Result (List A)}
    → Reach st s
    → s.collector ≡ returned r
    → IsSound st s.cancelled r
collect-IsSound st {s} w p = (subst (GoodAt st s.link) p (Reach-Good st w)).0
