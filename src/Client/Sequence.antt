-- ===== src/Client/Sequence.antt =====
-- The numbers that the callers of `NextSequence` (pkg/provenance/prov.go) get. The mutex makes each
-- call one step, so that concurrent callers are served in some order.
use prov_go.Base.{arith, ok, suc, zero, ℕ, ◌%◌, ◌+◌, ◌<◌, ◌^◌, ◌≡◌, ◌≢◌}
use prov_go.Platform.{Platform}
use prov_go.Client.Monad.{World}
use prov_go.Client.Defs.{next_sequence}

module _ (P : Platform) where
  -- The world after the first `i` calls of `NextSequence`, and the number that the next one gets.
  pub after_calls : ℕ → World P → World P
  after_calls zero w = w
  after_calls (suc i) w = (next_sequence P (after_calls i w)).1

  sequence-after_calls :
      (i : ℕ) (w : World P)
      → w.client.sequence < 2 ^ 64
      → (after_calls i w).client.sequence ≡ (w.client.sequence + i) % 2 ^ 64
  unfolding after_calls next_sequence
  sequence-after_calls zero w h = omega arith
  sequence-after_calls (suc i) w h = omega (arith, sequence-after_calls i w h)

  -- For a number below 2^64: the call after `i` others gets the client's number plus `i`, on 64 bits, and the numbers of two
  -- calls differ, unless 2^64 calls or more lie between them.
  pub next_sequence_distinct :
      (i j : ℕ) (w : World P)
      → w.client.sequence < 2 ^ 64
      → i < j
      → j < i + 2 ^ 64
      → ((next_sequence P (after_calls i w)).0 ≡ ok ((w.client.sequence + i) % 2 ^ 64))
        × ((next_sequence P (after_calls i w)).0 ≢ (next_sequence P (after_calls j w)).0)
  unfolding next_sequence
  next_sequence_distinct i j w h lt near = (
    rw (sequence-after_calls i w h),
    ground (arith, sequence-after_calls i w h, sequence-after_calls j w h),
  )
