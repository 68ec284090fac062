-- ===== src/Tests/Sharing.antt =====
-- Runs of goroutines that share a client (pkg/provenance/prov.go).
use prov_go.Base.{ℕ, ◌≡◌, ◌≢◌, refl, ◌⊎◌, none, some, [], ◌∷◌}
use native.Mathlib.Decide.{ℕ_discrete}
use prov_go.Client.Mutex.{
  Goroutines, Reach, start, later, pick, call_next, call_client, lock_next, read_next, write_next,
  unlock_next, lock_client, test_none, test_some, make_client, unlock_client, bank, put_at-some,
  took, stored, idle,
}
use prov_go.Client.Locked.{Replays}
use prov_go.Client.Interleaved.{
  HasStored, GoesOn, calls_sequential, clients_shared, no_deadlock, number_taken_twice, Run,
  IsBetween,
}
use prov_go.Tests.Sample.{calm, calm_world}

-- Goroutine 0 has taken the number 11, and goroutine 1 is about to store its number.
abbrev taking : (s : Goroutines "tp1a") × Reach "tp1a" 11 s
unfolding ℕ_discrete
taking =
    let first =
      later
        (later
          (later (later (later start (pick 0 call_next)) (pick 0 (lock_next refl)))
            (pick 0 read_next))
          (pick 0 write_next))
        (pick 0 unlock_next) in
    (
      _,
      later
          (later (later (later first (pick 0 call_next)) (pick 1 call_next))
            (pick 1 (lock_next refl)))
          (pick 1 read_next),
    )

calls_sequential_example :
    (n : ℕ) × Replays calm calm_world taking.0.shared.history n
    × ((taking.0.shared.sequence ≡ n)
        ⊎ (i : ℕ) × HasStored (taking.0.pc i) taking.0.shared.sequence n)
calls_sequential_example = calls_sequential calm calm_world "tp1a" taking.1

waits : taking.0.pc 0 ≢ idle
unfolding taking
waits e = cc

no_deadlock_example :
    (j : ℕ) × ((j ≡ 0) ⊎ (taking.0.shared.holder ≡ some j))
    × GoesOn calm calm_world "tp1a" taking.0 j
no_deadlock_example = no_deadlock calm calm_world "tp1a" taking.1 0 waits

-- Two goroutines have the bank client.
abbrev sharing : (s : Goroutines "tp1a") × Reach "tp1a" 11 s
unfolding ℕ_discrete
sharing =
    let first =
      later
        (later
          (later (later (later start (pick 0 (call_client bank))) (pick 1 (call_client bank)))
            (pick 1 (lock_client refl)))
          (pick 1 (test_none refl)))
        (pick 1 make_client) in
    let second =
      later
        (later (later first (pick 1 (unlock_client (put_at-some bank 0 (λ _. none)))))
          (pick 0 (lock_client refl)))
        (pick 0 (test_some (put_at-some bank 0 (λ _. none)))) in
    (_, later second (pick 0 (unlock_client (put_at-some bank 0 (λ _. none)))))

clients_shared_example : (◌≡◌ {A = ℕ} 0 0) × (sharing.0.shared.made bank ≡ 1)
unfolding sharing
clients_shared_example = clients_shared calm calm_world "tp1a" {k = bank} sharing.1 0 1 refl refl

number_taken_twice_example :
    (queried between again : Goroutines "tp1a") × Reach "tp1a" 42 queried
    × IsBetween "tp1a" 42 queried
    × (queried.shared.history ≡ [])
    × Run "tp1a" queried between
    × IsBetween "tp1a" 42 between
    × (between.shared.history ≡ took 42 ∷ [])
    × Run "tp1a" between again
    × (again.shared.history ≡ took 42 ∷ stored 42 ∷ took 42 ∷ [])
number_taken_twice_example = number_taken_twice "tp1a" 42 refl
