-- ===== src/Contract/Height.antt =====
-- The heights of pkg/demoprime/contract/base_client.go. The node's latest block is a parameter.
use prov_go.Base.{
  ℕ, ◌+◌, ◌-◌, ◌%◌, ◌^◌, ◌<◌, ◌≤◌, ◌≡◌, ◌⊎◌, inl, inr, Bool-cases, some, Result, ok, arith, errorf,
  [], or_err, ltb,
}
use prov_go.Base.Int.{ℤ, pos, negsuc, as_int64, is_negative}
use prov_go.Platform.{Platform}
use prov_go.Client.Monad.{World, Action, ◌>>=◌, ◌>>◌, lift, call, guard, bind_ok}
use prov_go.Base.{not}
use prov_go.Pool.Block.{BlockReply, header_of}

abbrev pub default_relative_timeout_height : ℤ
default_relative_timeout_height = pos 10

-- The 64 bits of an `int64`, and its sum with another, which wraps around.
abbrev pub bits : ℤ → ℕ
bits (pos n) = n
bits (negsuc n) = 2 ^ 64 - 1 - n

abbrev pub add_int64 : ℤ → ℤ → ℤ
add_int64 a b = as_int64 ((bits a + bits b) % 2 ^ 64)

module _ (P : Platform) (latest : P.State → Result BlockReply × P.State) where
  unfoldable pub current_height : Action P ℤ
  current_height = do
    reply ← call latest
    header ← lift (
        or_err (header_of (some reply))
          (errorf "demoprime/contract: empty GetLatestBlock sdk_block" []))
    lift (ok header.height)

  abbrev pub timeout_from : (relative_timeout_height height : ℤ) → Action P ℤ
  timeout_from relative_timeout_height height = do
    guard (not (is_negative relative_timeout_height))
        (errorf "demoprime/contract: RelativeTimeoutHeight cannot be negative" [])
    lift (ok (add_int64 height relative_timeout_height))

  unfoldable pub calculate_timeout_height : (relative_timeout_height : ℤ) → Action P ℤ
  unfolding current_height
  calculate_timeout_height relative_timeout_height = do
    height ← current_height
    timeout_from relative_timeout_height height

  timeout_from_bounds :
      (r h : ℕ) (w : World P)
      → r < 2 ^ 63
      → h < 2 ^ 63
      → ((h + r < 2 ^ 63) × ((timeout_from (pos r) (pos h) w).0 ≡ ok (pos (h + r))))
        ⊎ ((2 ^ 63 ≤ h + r) × (n : ℕ) × ((timeout_from (pos r) (pos h) w).0 ≡ ok (negsuc n)))
  timeout_from_bounds r h w small low = elim (Bool-cases (ltb (h + r) (2 ^ 63))) [
    | inl fits ↦ inl (ground arith, ground arith)
    | inr over ↦ inr (ground arith, 2 ^ 64 - 1 - (h + r), ground arith)
  ]

  -- Where the latest block has a height and neither it nor the relative timeout is negative:
  -- CalculateTimeoutHeight gives their sum if it fits in an int64, and a negative height otherwise.
  pub calculate_timeout_height_bounds :
      (r h : ℕ) (w : World P)
      → r < 2 ^ 63
      → h < 2 ^ 63
      → (current_height w).0 ≡ ok (pos h)
      → ((h + r < 2 ^ 63) × ((calculate_timeout_height (pos r) w).0 ≡ ok (pos (h + r))))
        ⊎ ((2 ^ 63 ≤ h + r) × (n : ℕ) × ((calculate_timeout_height (pos r) w).0 ≡ ok (negsuc n)))
  unfolding calculate_timeout_height
  calculate_timeout_height_bounds r h w small low e =
      rw (bind_ok current_height (timeout_from (pos r)) w (pos h) e)
        (timeout_from_bounds r h (current_height w).1 small low)
