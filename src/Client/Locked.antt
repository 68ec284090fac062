-- ===== src/Client/Locked.antt =====
-- What holds in every interleaving of the goroutines that share a client under its mutex
-- (pkg/provenance/prov.go).
use prov_go.Base.{
  ℕ, ◌+◌, ◌%◌, ◌^◌, ◌≡◌, ◌≢◌, refl, ap, subst, ◌⊎◌, inl, inr, String, Option, none, some, List, [],
  ◌∷◌, ◌++◌, ok, All,
}
use prov_go.Platform.{Platform}
use prov_go.Client.Monad.{World}
use prov_go.Client.Defs.{next_sequence, set_sequence}
use prov_go.Client.Mutex.{
  Service, Ended, took, stored, Shared, Caller, user, reset, Pc, idle, next_lock, next_read,
  next_write, next_unlock, client_lock, client_test, client_make, client_unlock, reset_query,
  reset_lock, reset_store, reset_unlock, back, put_at-some, Move, call_next, call_client,
  call_reset, lock_next, read_next, write_next, unlock_next, lock_client, test_none, test_some,
  make_client, unlock_client, query_ok, query_failed, lock_reset, store_reset, unlock_reset,
}

module _ (P : Platform) where
  -- The calls in `h`, one after the other from `w`, have these results, and leave the number `n`.
  abbrev pub Replays : World P → List Ended → ℕ → Type 0
  Replays w [] n = w.client.sequence ≡ n
  Replays w (took k ∷ h) n = ((next_sequence P w).0 ≡ ok k) × Replays (next_sequence P w).1 h n
  Replays w (stored k ∷ h) n = Replays (set_sequence P k w).1 h n

  pub Replays-took :
      (w : World P) (h : List Ended) (n : ℕ)
      → Replays w h n
      → Replays w (h ++ took n ∷ []) ((n + 1) % 2 ^ 64)
  unfolding next_sequence
  Replays-took w [] n e = (ap ok e, ap (λ k. (k + 1) % 2 ^ 64) e)
  Replays-took w (took k ∷ h) n (e, r) = (e, Replays-took (next_sequence P w).1 h n r)
  Replays-took w (stored k ∷ h) n r = Replays-took (set_sequence P k w).1 h n r

  pub Replays-stored :
      (w : World P) (h : List Ended) (n k : ℕ) → Replays w h n → Replays w (h ++ stored k ∷ []) k
  Replays-stored w [] n k e = refl
  Replays-stored w (took j ∷ h) n k (e, r) = (e, Replays-stored (next_sequence P w).1 h n k r)
  Replays-stored w (stored j ∷ h) n k r = Replays-stored (set_sequence P j w).1 h n k r

  module _ (w : World P) where
    abbrev pub Settled : Shared → Type 0
    Settled m = Replays w m.history m.sequence

    abbrev pub Held : Shared → ℕ → Type 0
    Held m i = (m.holder ≡ some i) × Settled m

    -- What holds where goroutine `i` stands.
    abbrev pub InvAt : Shared → ℕ → Pc → Type 0
    InvAt m i next_read = Held m i
    InvAt m i (next_write current) = Held m i × (m.sequence ≡ current)
    InvAt m i (next_unlock current) =
        (m.holder ≡ some i) × (Replays w m.history current × (m.sequence ≡ (current + 1) % 2 ^ 64))
    InvAt m i (client_test k c) = Held m i
    InvAt m i (client_make k c) = Held m i × (m.clients k ≡ none)
    InvAt m i (client_unlock k c) = Held m i × ((p : ℕ) × (m.clients k ≡ some p))
    InvAt m i (reset_store n) = Held m i
    InvAt m i (reset_unlock n) =
        (m.holder ≡ some i) × ((m.sequence ≡ n) × ((k : ℕ) × Replays w m.history k))
    InvAt m i idle = m.holder ≢ some i
    InvAt m i next_lock = m.holder ≢ some i
    InvAt m i (client_lock k c) = m.holder ≢ some i
    InvAt m i reset_query = m.holder ≢ some i
    InvAt m i (reset_lock n) = m.holder ≢ some i

    -- A client of each service is made at most once.
    abbrev pub IsMade : Option ℕ → ℕ → Type 0
    IsMade none count = count ≡ 0
    IsMade (some p) count = count ≡ 1

    abbrev pub IsGiven : (Service → Option ℕ) → Service × ℕ → Type 0
    IsGiven clients e = clients e.0 ≡ some e.1

    pub record IsKept (m : Shared) : Type 0 where
      pub free : m.holder ≡ none → Settled m
      pub made : (k : Service) → IsMade (m.clients k) (m.made k)
      pub given : All (IsGiven m.clients) m.given

    -- A move of another goroutine leaves what holds here, if this one does not hold the mutex.
    pub other :
        (m m' : Shared) (j : ℕ) (p : Pc)
        → m.holder ≢ some j
        → m'.holder ≢ some j
        → InvAt m j p
        → InvAt m' j p
    other m m' j next_read n n' (h, _) = absurd (n h)
    other m m' j (next_write _) n n' ((h, _), _) = absurd (n h)
    other m m' j (next_unlock _) n n' (h, _) = absurd (n h)
    other m m' j (client_test _ _) n n' (h, _) = absurd (n h)
    other m m' j (client_make _ _) n n' ((h, _), _) = absurd (n h)
    other m m' j (client_unlock _ _) n n' ((h, _), _) = absurd (n h)
    other m m' j (reset_store _) n n' (h, _) = absurd (n h)
    other m m' j (reset_unlock _) n n' (h, _) = absurd (n h)
    other m m' j idle n n' h = n'
    other m m' j next_lock n n' h = n'
    other m m' j (client_lock _ _) n n' h = n'
    other m m' j reset_query n n' h = n'
    other m m' j (reset_lock _) n n' h = n'

    module _ (address : String) where
      -- The moves that change what is shared are those of a goroutine that gets or holds the mutex.
      pub apart :
          {m m' : Shared} {i : ℕ} {p p' : Pc}
          → Move address i m p m' p'
          → InvAt m i p
          → (j : ℕ) → i ≢ j
          → (m' ≡ m) ⊎ ((m.holder ≢ some j) × (m'.holder ≢ some j))
      apart call_next h j n = inl refl
      apart (call_client _) h j n = inl refl
      apart (call_reset _) h j n = inl refl
      apart (lock_next e) h j n = inr (λ q. cc, λ q. n (cc))
      apart read_next h j n = inl refl
      apart write_next ((h, _), _) j n = inr (λ q. n (cc), λ q. n (cc))
      apart unlock_next (h, _) j n = inr (λ q. n (cc), λ q. cc)
      apart (lock_client e) h j n = inr (λ q. cc, λ q. n (cc))
      apart (test_none _) h j n = inl refl
      apart (test_some _) h j n = inl refl
      apart make_client ((h, _), _) j n = inr (λ q. n (cc), λ q. n (cc))
      apart (unlock_client _) ((h, _), _) j n = inr (λ q. n (cc), λ q. cc)
      apart (query_ok _) h j n = inl refl
      apart query_failed h j n = inl refl
      apart (lock_reset e) h j n = inr (λ q. cc, λ q. n (cc))
      apart store_reset (h, _) j n = inr (λ q. n (cc), λ q. n (cc))
      apart unlock_reset (h, _) j n = inr (λ q. n (cc), λ q. cc)

      back_at : (m : Shared) (i : ℕ) (c : Caller) → m.holder ≡ none → InvAt m i (back c)
      back_at m i user e = λ q. cc
      back_at m i reset e = λ q. cc

      pub Move-InvAt :
          {m m' : Shared} {i : ℕ} {p p' : Pc}
          → Move address i m p m' p'
          → InvAt m i p
          → IsKept m
          → InvAt m' i p'
      Move-InvAt call_next h k = h
      Move-InvAt (call_client _) h k = h
      Move-InvAt (call_reset _) h k = h
      Move-InvAt (lock_next e) h k = (refl, k.free e)
      Move-InvAt read_next h k = (h, refl)
      Move-InvAt {m} (write_next {current}) ((h, r), e) k =
          (h, (subst (Replays w m.history) e r, ap (λ n. (n + 1) % 2 ^ 64) e))
      Move-InvAt unlock_next h k = λ q. cc
      Move-InvAt (lock_client e) h k = (refl, k.free e)
      Move-InvAt (test_none e) h k = (h, e)
      Move-InvAt (test_some {p} e) h k = (h, (p, e))
      Move-InvAt {m} (make_client {k}) (h, e) kept =
          (h, (m.made_in_all, put_at-some k m.made_in_all m.clients))
      Move-InvAt {m} {i} (unlock_client {k} {c} {p} e) h kept =
          back_at (record m { holder = none; given = m.given ++ (k, p) ∷ [] }) i c refl
      Move-InvAt (query_ok _) h k = h
      Move-InvAt query_failed h k = h
      Move-InvAt (lock_reset e) h k = (refl, k.free e)
      Move-InvAt {m} store_reset (h, r) k = (h, (refl, (m.sequence, r)))
      Move-InvAt unlock_reset h k = λ q. cc
