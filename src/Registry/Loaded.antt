-- ===== src/Registry/Loaded.antt =====
-- What the registry loader has done when it ends.
use prov_go.Base.{
  ℕ, zero, suc, ◌+◌, ◌≡◌, ◌≢◌, refl, ap, sym, subst, ◌∙◌, concat, append_assoc, ◌⊎◌, inl, inr,
  Option, some, List, [], ◌∷◌, ◌++◌, Result, ok, err, panic, Bool-cases, ltb, length, All, arith,
  Error, none, if◌then◌else◌,
}
use prov_go.Platform.{Platform, TxResponse, TxReply}
use prov_go.Client.Monad.{World, deref, bind_inverse, bind_ok}
use prov_go.Client.Defs.{wait_on_tx}
use prov_go.Registry.Slices.{slice, slice_end, slices_from, slices, max_per_tx, IsSlice, slices_cut}
use prov_go.Registry.Update.{
  Registry, registry_bulk_update, fatal, relabel, check_found, end_round, await_sent, await_reply,
  has_succeeded, load_batch, load_from, load, Loading,
}

module _ (P : Platform) (R : Registry P) where
  -- A slice whose transaction was sent from the world `w`, and then found in a block with code 0, which
  -- leaves the world `u`.
  abbrev pub IsConfirmed : List R.Entry → World P → World P → Type 0
  IsConfirmed batch w u =
      (reply : TxReply) × (sent : TxResponse) × (got : TxReply) × (t : TxResponse)
      × ((registry_bulk_update P R batch w).0 ≡ ok reply)
      × (reply.tx_response ≡ some sent)
      × ((wait_on_tx P sent.tx_hash (registry_bulk_update P R batch w).1).0 ≡ ok got)
      × (got.tx_response ≡ some t)
      × (t.code ≡ 0)
      × (u ≡ (wait_on_tx P sent.tx_hash (registry_bulk_update P R batch w).1).1)

  -- The slices were confirmed one after the other, the first one from the world `w`.
  abbrev pub AllConfirmed : List (List R.Entry) → World P → Type 0
  AllConfirmed [] w = Unit
  AllConfirmed (batch ∷ batches) w = (u : World P) × IsConfirmed batch w u × AllConfirmed batches u

  fatal_inverse :
      {A : Type 0} (f : Error → Error) (r : Result A) (a : A) → relabel P R f r ≡ ok a → r ≡ ok a
  fatal_inverse f (ok b) a h = h
  fatal_inverse f (err e) a h = absurd (ground arith)
  fatal_inverse f (panic s) a h = absurd (ground arith)

  deref_inverse :
      {A : Type 0} (o : Option A) (w : World P) (a : A) → (deref {P = P} o w).0 ≡ ok a → o ≡ some a
  deref_inverse none w a h = absurd (ground arith)
  deref_inverse (some b) w a h = ground arith

  deref_world : {A : Type 0} (o : Option A) (w : World P) → (deref {P = P} o w).1 ≡ w
  deref_world none w = refl
  deref_world (some a) w = refl

  has_succeeded_inverse :
      (o : Option TxResponse) (e : Error) (u : Unit {0})
      → (if has_succeeded P R o then ok tt else err e) ≡ ok u
      → (t : TxResponse) × (o ≡ some t) × (t.code ≡ 0)
  has_succeeded_inverse none e u h = absurd (ground arith)
  has_succeeded_inverse (some t) e u h = (t, refl, ground arith)

  load_batch-IsConfirmed :
      (i end : ℕ) (batch : List R.Entry) (w : World P) (u : Unit {0})
      → (load_batch P R i end batch w).0 ≡ ok u
      → IsConfirmed batch w (load_batch P R i end batch w).1
  unfolding load_batch
  load_batch-IsConfirmed i end batch w u h =
      let (reply, e, h1) =
        bind_inverse (fatal P R _ (registry_bulk_update P R batch)) (await_reply P R) w u h in
      let w1 = (registry_bulk_update P R batch w).1 in
      let (sent, e1, h2) = bind_inverse (deref (reply.tx_response)) (await_sent P R) w1 u h1 in
      let same = deref_inverse (reply.tx_response) w1 sent e1 in
      let (got, e2, h3) =
        bind_inverse (fatal P R _ (wait_on_tx P sent.tx_hash)) (check_found P R sent) w1 u
          (rw (deref_world (reply.tx_response) w1) at h2) in
      let (t, e3, good) = has_succeeded_inverse (got.tx_response) _ u h3 in
      let after_send =
        bind_ok (fatal P R _ (registry_bulk_update P R batch)) (await_reply P R) w reply e in
      let after_reply = bind_ok (deref (reply.tx_response)) (await_sent P R) w1 sent e1 in
      let after_wait =
        bind_ok (fatal P R _ (wait_on_tx P sent.tx_hash)) (check_found P R sent) w1 got e2 in
      let ends =
        after_send
        ∙ after_reply
        ∙ ap (await_sent P R sent) (deref_world (reply.tx_response) w1)
        ∙ after_wait in
      (
        reply,
        sent,
        got,
        t,
        fatal_inverse _ _ reply e,
        same,
        fatal_inverse _ _ got e2,
        e3,
        good,
        ap (λ (x : Result (Unit {0}) × World P). x.1) ends,
      )

  -- A list of slices, from which `reported` is what the loader has reported.
  abbrev Reports : List (List R.Entry) → World P → Loading P R → Type 0
  Reports batches w l =
      (rest : List (List R.Entry)) × (l.reported ++ rest ≡ batches)
      × AllConfirmed (l.reported) w
      × (((l.outcome ≡ ok tt) × (rest ≡ [])) ⊎ ((l.outcome ≢ ok tt) × (rest ≢ [])))

  end_round-Reports :
      (i end : ℕ) (batch : List R.Entry) (batches : List (List R.Entry)) (w : World P)
      (next : Loading P R × World P)
      → Reports batches (load_batch P R i end batch w).1 next.0
      → (r : Result (Unit {0})) → (load_batch P R i end batch w).0 ≡ r
      → (w' : World P) → Reports (batch ∷ batches) w (end_round P R batch r w' next).0
  end_round-Reports i end batch batches w next (rest, cut, sure, how) (ok u) e w' = (
    rest,
    ap (λ x. batch ∷ x) cut,
    ((load_batch P R i end batch w).1, load_batch-IsConfirmed i end batch w u e, sure),
    how,
  )
  end_round-Reports i end batch batches w next h (err x) e w' =
      (batch ∷ batches, refl, tt, inr (λ q. ground arith, λ q. ground arith))
  end_round-Reports i end batch batches w next h (panic x) e w' =
      (batch ∷ batches, refl, tt, inr (λ q. ground arith, λ q. ground arith))

  load_from-Reports :
      (n i : ℕ) (entries : List R.Entry) (w : World P)
      → Reports (slices_from n i entries) w (load_from P R n i entries w).0
  unfolding load_from slices_from
  load_from-Reports zero i entries w = ([], refl, tt, inl (refl, refl))
  load_from-Reports (suc n) i entries w = elim (Bool-cases (ltb i (length entries))) [
    | inr past ↦ rw past ([], refl, tt, inl (refl, refl))
    | inl more ↦
        let end = slice_end i entries in
        let batch = slice i end entries in
        rw more (
          end_round-Reports i end batch (slices_from n (i + max_per_tx) entries) w _
            (load_from-Reports n (i + max_per_tx) entries (load_batch P R i end batch w).1) _ refl
            _)
  ]

  concat-append : (xs ys : List (List R.Entry)) → concat (xs ++ ys) ≡ concat xs ++ concat ys
  concat-append [] ys = refl
  concat-append (x ∷ xs) ys =
      ap (λ t. x ++ t) (concat-append xs ys) ∙ sym (append_assoc x (concat xs) (concat ys))

  All-split :
      (entries : List R.Entry) (xs ys : List (List R.Entry))
      → All (IsSlice entries) (xs ++ ys)
      → All (IsSlice entries) xs × All (IsSlice entries) ys
  All-split entries [] ys h = (tt, h)
  All-split entries (x ∷ xs) ys (h, hs) =
      let (first, second) = All-split entries xs ys hs in ((h, first), second)

  concat-nonempty :
      (entries : List R.Entry) (xs : List (List R.Entry))
      → All (IsSlice entries) xs
      → xs ≢ []
      → concat xs ≢ []
  concat-nonempty entries [] h some_slice e = some_slice refl
  concat-nonempty entries ([] ∷ xs) ((positive, _), _) some_slice e = absurd (omega arith)
  concat-nonempty entries ((y ∷ ys) ∷ xs) h some_slice e = ground arith

  -- What has been reported of the entries: they are cut into what the reported slices hold, in order, and
  -- the entries that are left.
  abbrev pub IsReport : List R.Entry → World P → Loading P R → Type 0
  IsReport entries w l =
      (left : List R.Entry) × (concat (l.reported) ++ left ≡ entries)
      × All (IsSlice entries) (l.reported)
      × AllConfirmed (l.reported) w
      × (((l.outcome ≡ ok tt) × (left ≡ [])) ⊎ ((l.outcome ≢ ok tt) × (left ≢ [])))

  -- The slices that the loader reports, of one to fifteen entries each, hold the first entries, in order;
  -- one after the other each was sent, and found in a block with code 0. The loader ends without an error exactly when
  -- they hold all the entries: otherwise some entry is left.
  pub load_reports :
      (entries : List R.Entry) (w : World P) → IsReport entries w (load P R entries w).0
  unfolding load slices
  load_reports entries w =
      let l = (load P R entries w).0 in
      let (rest, cut, sure, how) = load_from-Reports (length entries) 0 entries w in
      let (whole, sized) = slices_cut entries in
      let (first, others) =
        All-split entries (l.reported) rest (subst (All (IsSlice entries)) (sym cut) sized) in
      (
        concat rest,
        sym (concat-append (l.reported) rest) ∙ ap concat cut ∙ whole,
        first,
        sure,
        elim how [
          | inl (done, none_left) ↦ inl (done, ap concat none_left)
          | inr (failed, some_left) ↦ inr (failed, concat-nonempty entries rest others some_left)
        ],
      )
