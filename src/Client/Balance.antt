-- ===== src/Client/Balance.antt =====
-- `GetBalance` (pkg/provenance/bank.go). The query of the bank module, and whether a text is a valid
-- denom, are parameters.
use prov_go.Base.{
  Bool, String, Option, none, some, Result, ok, err, panic, cancelled, ◌<>◌, if◌then◌else◌,
}
use prov_go.Platform.{Platform}
use prov_go.Client.Monad.{Action, call}
use prov_go.Marker.Account.{Coin}

pub record Bank (P : Platform) : Type 0 where
  pub balance : (address denom : String) → P.State → Result (Option Coin) × P.State
  pub is_valid_denom : String → Bool

module _ (P : Platform) (B : Bank P) where
  -- `sdk.NewInt64Coin(denom, 0)`
  abbrev pub zero_coin : String → Result Coin
  zero_coin denom =
      if B.is_valid_denom denom
      then ok (record { denom = denom; amount = 0 })
      else panic ("invalid denom: " <> denom)

  -- `done` says whether the context is done when an error comes back.
  abbrev pub balance_of : (done : Bool) → String → Result (Option Coin) → Result Coin
  balance_of done denom (ok none) = zero_coin denom
  balance_of done denom (ok (some coin)) = ok coin
  balance_of done denom (err e) = err (if done then cancelled else e)
  balance_of done denom (panic s) = panic s

  unfoldable pub get_balance : (done : Bool) → (address denom : String) → Action P Coin
  get_balance done address denom w =
      let (r, w') = call (B.balance address denom) w in (balance_of done denom r, w')
