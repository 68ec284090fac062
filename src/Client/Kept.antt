-- ===== src/Client/Kept.antt =====
-- That every move of a goroutine keeps what holds under the client's mutex (pkg/provenance/prov.go).
use prov_go.Base.{
  ℕ, ◌+◌, ◌≡◌, refl, sym, ap, subst, ◌∙◌, inl, inr, String, Option, none, some, List, [], ◌∷◌, ◌++◌,
  arith, All, All-append,
}
use mathlib.Core.Logic.{if_pos, if_neg}
use native.Mathlib.Decide.{ℕ_discrete}
use prov_go.Platform.{Platform}
use prov_go.Client.Monad.{World}
use prov_go.Client.Mutex.{
  Service, Service-discrete, took, stored, Shared, Pc, Goroutines, pick, Reach, start, later,
  move_to, put_at, one_more, Move, call_next, call_client, call_reset, lock_next, read_next,
  write_next, unlock_next, lock_client, test_none, test_some, make_client, unlock_client, query_ok,
  query_failed, lock_reset, store_reset, unlock_reset,
}
use prov_go.Client.Locked.{
  Replays, Replays-took, Replays-stored, InvAt, IsMade, IsGiven, IsKept, other, apart, Move-InvAt,
}

module _ (P : Platform) (w : World P) (address : String) where
  IsMade-after :
      (k : Service) (p : ℕ) (clients : Service → Option ℕ) (made : Service → ℕ)
      → clients k ≡ none
      → ((j : Service) → IsMade P w (clients j) (made j))
      → (j : Service) → IsMade P w (put_at k p clients j) (one_more k made j)
  IsMade-after k p clients made e h j = elim (Service-discrete k j) [
    | yes same ↦
        rw
          (
            if_pos (Service-discrete k j) same (some p) (clients j),
            if_pos (Service-discrete k j) same (made j + 1) (made j),
          )
          (let first = subst (λ o. IsMade P w o (made k)) e (h k) in omega (arith, ap made same))
    | no differ ↦
        rw
          (
            if_neg (Service-discrete k j) differ (some p) (clients j),
            if_neg (Service-discrete k j) differ (made j + 1) (made j),
          )
          (h j)
  ]

  IsGiven-after :
      (k : Service) (p : ℕ) (clients : Service → Option ℕ) (given : List (Service × ℕ))
      → clients k ≡ none
      → All (IsGiven P w clients) given
      → All (IsGiven P w (put_at k p clients)) given
  IsGiven-after k p clients [] e h = tt
  IsGiven-after k p clients ((j, q) ∷ given) e (h, hs) = (
    if_neg (Service-discrete k j) (λ same. cc (ap clients same)) (some p) (clients j) ∙ h,
    IsGiven-after k p clients given e hs,
  )

  Move-IsKept :
      {m m' : Shared} {i : ℕ} {p p' : Pc}
      → Move address i m p m' p'
      → InvAt P w m i p
      → IsKept P w m
      → IsKept P w m'
  Move-IsKept call_next h k = k
  Move-IsKept (call_client _) h k = k
  Move-IsKept (call_reset _) h k = k
  Move-IsKept (lock_next e) h k = record { free = λ q. cc; made = k.made; given = k.given }
  Move-IsKept read_next h k = k
  Move-IsKept write_next ((h, _), _) k = record { free = λ q. cc; made = k.made; given = k.given }
  Move-IsKept {m} (unlock_next {current}) (h, (r, e)) k = record {
    free = λ _.
        subst (Replays P w (m.history ++ took current ∷ [])) (sym e)
          (Replays-took P w m.history current r);
    made = k.made;
    given = k.given;
  }
  Move-IsKept (lock_client e) h k = record { free = λ q. cc; made = k.made; given = k.given }
  Move-IsKept (test_none _) h k = k
  Move-IsKept (test_some _) h k = k
  Move-IsKept {m} (make_client {k}) ((h, _), e) kept = record {
    free = λ q. cc;
    made = IsMade-after k m.made_in_all m.clients m.made e kept.made;
    given = IsGiven-after k m.made_in_all m.clients m.given e kept.given;
  }
  Move-IsKept {m} (unlock_client {k} {p} e) ((h, r), _) kept = record {
    free = λ _. r;
    made = kept.made;
    given = All-append (IsGiven P w m.clients) m.given ((k, p) ∷ []) kept.given (e, tt);
  }
  Move-IsKept (query_ok _) h k = k
  Move-IsKept query_failed h k = k
  Move-IsKept (lock_reset e) h k = record { free = λ q. cc; made = k.made; given = k.given }
  Move-IsKept store_reset (h, _) k = record { free = λ q. cc; made = k.made; given = k.given }
  Move-IsKept {m} (unlock_reset {n}) (h, (e, (j, r))) k = record {
    free = λ _.
        subst (Replays P w (m.history ++ stored n ∷ [])) (sym e)
          (Replays-stored P w m.history j n r);
    made = k.made;
    given = k.given;
  }

  pub record Inv (s : Goroutines address) : Type 0 where
    pub at : (i : ℕ) → InvAt P w s.shared i (s.pc i)
    pub kept : IsKept P w s.shared

  pc_after :
      {m m' : Shared} {i : ℕ} {p' : Pc} (pc : ℕ → Pc)
      → Move address i m (pc i) m' p'
      → ((j : ℕ) → InvAt P w m j (pc j))
      → IsKept P w m
      → (j : ℕ) → InvAt P w m' j (move_to address i p' pc j)
  pc_after {m} {m'} {i} {p'} pc mv at kept j = elim (ℕ_discrete i j) [
    | yes same ↦
        rw (if_pos (ℕ_discrete i j) same p' (pc j))
          (subst (λ x. InvAt P w m' x p') same (Move-InvAt P w address mv (at i) kept))
    | no differ ↦
        rw (if_neg (ℕ_discrete i j) differ p' (pc j)) (elim (apart P w address mv (at i) j differ) [
          | inl same ↦ subst (λ x. InvAt P w x j (pc j)) (sym same) (at j)
          | inr (n, n') ↦ other P w m m' j (pc j) n n' (at j)
        ])
  ]

  pub Reach-Inv : {s : Goroutines address} → Reach address w.client.sequence s → Inv s
  Reach-Inv start = record {
    at = λ i q. cc;
    kept = record { free = λ _. refl; made = λ _. refl; given = tt };
  }
  Reach-Inv (later {s} r (pick i mv)) =
      let inv = Reach-Inv r in
      record { at = pc_after s.pc mv inv.at inv.kept; kept = Move-IsKept mv (inv.at i) inv.kept }
