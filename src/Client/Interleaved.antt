-- ===== src/Client/Interleaved.antt =====
-- What the goroutines that share a client can rely on (pkg/provenance/prov.go), in any interleaving.
use prov_go.Base.{
  ℕ, zero, suc, ◌+◌, ◌%◌, ◌^◌, ◌<◌, ◌≡◌, ◌≢◌, refl, subst, ◌⊎◌, inl, inr, String, ◌==◌, false,
  Option, none, some, List, [], ◌∷◌, arith, All, get_elem?,
}
use native.Mathlib.Decide.{ℕ_discrete}
use prov_go.Platform.{Platform}
use prov_go.Client.Monad.{World}
use prov_go.Client.Mutex.{
  Service, auth, took, stored, Shared, Caller, user, reset, Pc, idle, next_lock, next_read,
  next_write, next_unlock, client_lock, client_test, client_make, client_unlock, reset_query,
  reset_lock, reset_store, reset_unlock, back, put_at-some, Move, call_next, call_reset, lock_next,
  read_next, write_next, unlock_next, lock_client, test_none, test_some, make_client, unlock_client,
  query_ok, query_failed, lock_reset, store_reset, unlock_reset, Goroutines, Step, Reach, pick,
  start, later,
}
use prov_go.Client.Locked.{Replays, IsMade, InvAt}
use prov_go.Client.Kept.{Reach-Inv}

-- The number of a call that has stored it, and has yet to give the mutex back.
abbrev pub HasStored : Pc → (sequence settled : ℕ) → Type 0
HasStored (next_unlock current) n k = (current ≡ k) × (n ≡ (k + 1) % 2 ^ 64)
HasStored (reset_unlock stored_one) n k = n ≡ stored_one
HasStored _ n k = ⊥

-- The statements that a call has left at most.
abbrev pub rank : Pc → ℕ
rank idle = 0
rank (next_unlock _) = 1
rank (next_write _) = 2
rank next_read = 3
rank next_lock = 4
rank (reset_unlock _) = 1
rank (reset_store _) = 2
rank (reset_lock _) = 3
rank reset_query = 4
rank (client_unlock _ _) = 5
rank (client_make _ _) = 6
rank (client_test _ _) = 7
rank (client_lock _ _) = 8

module _ (P : Platform) (w : World P) (address : String) where
  abbrev pub Runs : Goroutines address → Type 0
  Runs = Reach address w.client.sequence

  settled_at :
      (m : Shared) (i : ℕ) (p : Pc)
      → m.holder ≡ some i
      → InvAt P w m i p
      → (n : ℕ) × Replays P w m.history n × ((m.sequence ≡ n) ⊎ HasStored p m.sequence n)
  settled_at m i next_read e (_, r) = (m.sequence, r, inl refl)
  settled_at m i (next_write _) e ((_, r), _) = (m.sequence, r, inl refl)
  settled_at m i (next_unlock c) e (_, (r, s)) = (c, r, inr (refl, s))
  settled_at m i (client_test _ _) e (_, r) = (m.sequence, r, inl refl)
  settled_at m i (client_make _ _) e ((_, r), _) = (m.sequence, r, inl refl)
  settled_at m i (client_unlock _ _) e ((_, r), _) = (m.sequence, r, inl refl)
  settled_at m i (reset_store _) e (_, r) = (m.sequence, r, inl refl)
  settled_at m i (reset_unlock _) e (_, (s, (k, r))) = (k, r, inr s)
  settled_at m i idle e n = absurd (n e)
  settled_at m i next_lock e n = absurd (n e)
  settled_at m i (client_lock _ _) e n = absurd (n e)
  settled_at m i reset_query e n = absurd (n e)
  settled_at m i (reset_lock _) e n = absurd (n e)

  -- However the goroutines interleave, the calls of `NextSequence` and the stores of `ResetSequence` that
  -- have ended have the results of the same calls one after the other, in the order in which they gave
  -- the mutex back; and the client's number is the one that these leave, unless one more call has
  -- stored its number and has not ended.
  pub calls_sequential :
      {s : Goroutines address}
      → Runs s
      → (n : ℕ) × Replays P w s.shared.history n
        × ((s.shared.sequence ≡ n) ⊎ (i : ℕ) × HasStored (s.pc i) s.shared.sequence n)
  calls_sequential {s} r = go s.shared.holder refl
    where
      go :
          (h : Option ℕ)
          → s.shared.holder ≡ h
          → (n : ℕ) × Replays P w s.shared.history n
            × ((s.shared.sequence ≡ n) ⊎ (i : ℕ) × HasStored (s.pc i) s.shared.sequence n)
      go none e = (s.shared.sequence, (Reach-Inv P w address r).kept.free e, inl refl)
      go (some i) e =
          let (n, h, c) = settled_at s.shared i (s.pc i) e ((Reach-Inv P w address r).at i) in
          (n, h, elim c [ inl x ↦ inl x | inr x ↦ inr (i, x) ])

  given_at :
      (clients : Service → Option ℕ) (given : List (Service × ℕ)) (i : ℕ) (e : Service × ℕ)
      → All (λ (x : Service × ℕ). clients x.0 ≡ some x.1) given
      → get_elem? given i ≡ some e
      → clients e.0 ≡ some e.1
  given_at clients [] i e h g = cc
  given_at clients (x ∷ given) zero e (h, hs) g =
      subst (λ (y : Service × ℕ). clients y.0 ≡ some y.1) (cc) h
  given_at clients (x ∷ given) (suc i) e (h, hs) g = given_at clients given i e hs g

  made_one : (o : Option ℕ) (p count : ℕ) → o ≡ some p → IsMade P w o count → count ≡ 1
  made_one none p count e h = cc
  made_one (some q) p count e h = h

  -- Two goroutines that get the query client of one service get the same one, and it is the only one
  -- that has been made.
  pub clients_shared :
      {s : Goroutines address} {k : Service} {p q : ℕ}
      → Runs s
      → (i j : ℕ) → get_elem? s.shared.given i ≡ some (k, p)
      → get_elem? s.shared.given j ≡ some (k, q)
      → (p ≡ q) × (s.shared.made k ≡ 1)
  clients_shared {s} {k} {p} {q} r i j at_i at_j =
      let kept = (Reach-Inv P w address r).kept in
      let first = given_at s.shared.clients s.shared.given i (k, p) kept.given at_i in
      let second = given_at s.shared.clients s.shared.given j (k, q) kept.given at_j in
      (cc, made_one (s.shared.clients k) p (s.shared.made k) first (kept.made k))

  -- A move of a goroutine towards the end of its call.
  abbrev GoesOnAt : Shared → ℕ → Pc → Type 0
  GoesOnAt m i p = (m' : Shared) × (p' : Pc) × Move address i m p m' p' × (rank p' < rank p)

  abbrev pub GoesOn : Goroutines address → ℕ → Type 0
  GoesOn s i = GoesOnAt s.shared i (s.pc i)

  rank-back : (c : Caller) → rank (back c) < 5
  rank-back user = omega arith
  rank-back reset = omega arith

  test_goes_on :
      (m : Shared) (i : ℕ) (k : Service) (c : Caller) (o : Option ℕ)
      → m.clients k ≡ o
      → GoesOnAt m i (client_test k c)
  test_goes_on m i k c none e = (_, _, test_none e, omega arith)
  test_goes_on m i k c (some p) e = (_, _, test_some e, omega arith)

  holder_goes_on :
      (m : Shared) (i : ℕ) (p : Pc) → m.holder ≡ some i → InvAt P w m i p → GoesOnAt m i p
  holder_goes_on m i next_read e h = (_, _, read_next, omega arith)
  holder_goes_on m i (next_write _) e h = (_, _, write_next, omega arith)
  holder_goes_on m i (next_unlock _) e h = (_, _, unlock_next, omega arith)
  holder_goes_on m i (client_test k c) e h = test_goes_on m i k c (m.clients k) refl
  holder_goes_on m i (client_make _ _) e h = (_, _, make_client, omega arith)
  holder_goes_on m i (client_unlock _ c) e (_, (_, made)) = (_, _, unlock_client made, rank-back c)
  holder_goes_on m i (reset_store _) e h = (_, _, store_reset, omega arith)
  holder_goes_on m i (reset_unlock _) e h = (_, _, unlock_reset, omega arith)
  holder_goes_on m i idle e n = absurd (n e)
  holder_goes_on m i next_lock e n = absurd (n e)
  holder_goes_on m i (client_lock _ _) e n = absurd (n e)
  holder_goes_on m i reset_query e n = absurd (n e)
  holder_goes_on m i (reset_lock _) e n = absurd (n e)

  free_goes_on :
      (m : Shared) (i : ℕ) (p : Pc) → m.holder ≡ none → p ≢ idle → InvAt P w m i p → GoesOnAt m i p
  free_goes_on m i next_read e n (h, _) = cc
  free_goes_on m i (next_write _) e n ((h, _), _) = cc
  free_goes_on m i (next_unlock _) e n (h, _) = cc
  free_goes_on m i (client_test k c) e n (h, _) = cc
  free_goes_on m i (client_make _ _) e n ((h, _), _) = cc
  free_goes_on m i (client_unlock _ c) e n ((h, _), _) = cc
  free_goes_on m i (reset_store _) e n (h, _) = cc
  free_goes_on m i (reset_unlock _) e n (h, _) = cc
  free_goes_on m i idle e n h = absurd (n refl)
  free_goes_on m i next_lock e n h = (_, _, lock_next e, omega arith)
  free_goes_on m i (client_lock _ _) e n h = (_, _, lock_client e, omega arith)
  free_goes_on m i reset_query e n h = (_, _, query_failed, omega arith)
  free_goes_on m i (reset_lock _) e n h = (_, _, lock_reset e, omega arith)

  -- No deadlock: while a goroutine is in a call, that goroutine or the one that holds the mutex has a
  -- move which brings its own call closer to its end. `ResetSequence` does not hold the mutex while it
  -- gets the query client for its query, which takes it.
  pub no_deadlock :
      {s : Goroutines address}
      → Runs s
      → (i : ℕ) → s.pc i ≢ idle
      → (j : ℕ) × ((j ≡ i) ⊎ (s.shared.holder ≡ some j)) × GoesOn s j
  no_deadlock {s} r i busy = go s.shared.holder refl
    where
      go :
          (h : Option ℕ)
          → s.shared.holder ≡ h
          → (j : ℕ) × ((j ≡ i) ⊎ (s.shared.holder ≡ some j)) × GoesOn s j
      go none e =
          (i, inl refl, free_goes_on s.shared i (s.pc i) e busy ((Reach-Inv P w address r).at i))
      go (some j) e =
          (j, inr e, holder_goes_on s.shared j (s.pc j) e ((Reach-Inv P w address r).at j))

module _ (address : String) where
  -- The steps from one state to another.
  pub data Run (s : Goroutines address) : Goroutines address → Type 0 where
    here : Run s s
    next : {t u : Goroutines address} → Run s t → Step address t u → Run s u

  -- Goroutine 0 has the answer `n` of the query of `ResetSequence`, and is before the store.
  abbrev pub IsBetween : ℕ → Goroutines address → Type 0
  IsBetween n s = s.pc 0 ≡ reset_lock n

  -- An interleaving in which a number is taken twice: where both the client and the node start with `n`,
  -- some run comes to a point at which a goroutine has the answer of the query of `ResetSequence`, and
  -- no number has been taken; from there, while that goroutine is before its store, `n` is taken; and
  -- from there, after the store of `n`, `n` is taken again.
  pub number_taken_twice :
      (n : ℕ)
      → (address == "") ≡ false
      → (queried between again : Goroutines address) × Reach address n queried
        × IsBetween n queried
        × (queried.shared.history ≡ [])
        × Run queried between
        × IsBetween n between
        × (between.shared.history ≡ took n ∷ [])
        × Run between again
        × (again.shared.history ≡ took n ∷ stored n ∷ took n ∷ [])
  unfolding ℕ_discrete
  number_taken_twice n a =
      let asks =
        later
          (later
            (later
              (later (later (later start (pick 0 (call_reset a))) (pick 0 (lock_client refl)))
                (pick 0 (test_none refl)))
              (pick 0 make_client))
            (pick 0 (unlock_client (put_at-some auth 0 (λ _. none)))))
          (pick 0 (query_ok n)) in
      let takes =
        next
          (next
            (next (next (next here (pick 1 call_next)) (pick 1 (lock_next refl)))
              (pick 1 read_next))
            (pick 1 write_next))
          (pick 1 unlock_next) in
      let stores =
        next (next (next here (pick 0 (lock_reset refl))) (pick 0 store_reset))
          (pick 0 unlock_reset) in
      let again =
        next
          (next
            (next (next (next stores (pick 1 call_next)) (pick 1 (lock_next refl)))
              (pick 1 read_next))
            (pick 1 write_next))
          (pick 1 unlock_next) in
      (_, _, _, asks, refl, refl, takes, refl, refl, again, refl)
