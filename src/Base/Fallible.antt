-- ===== src/Base/Fallible.antt =====
-- Go's `(value, error)` results, with the panics that the program can raise.
use Prim.Native.Nat.{ℕ}
use Prim.Native.String.{String}
use mathlib.Core.Path.{◌≡◌, refl}
use mathlib.Core.Logic.{◌⊎◌, inl, inr}
use mathlib.Core.Option.{Option, none, some}
use mathlib.Core.List.{List, []}
use prov_go.Base.Int.{ℤ}

-- An operand of a format text.
pub data Operand : Type 0 where
  str : String → Operand
  number : ℕ → Operand
  signed : ℤ → Operand

-- `errorf` is `fmt.Errorf` with its format and operands. `wrapf` is an `Errorf` whose last verb is
-- `%w`. `cancelled` is `ctx.Err()`.
pub data Error : Type 0 where
  errorf : String → List Operand → Error
  wrapf : String → List Operand → Error → Error
  cancelled : Error

abbrev pub wrap : String → Error → Error
wrap s = wrapf s []

pub data Result {ℓ} (A : Type ℓ) : Type ℓ where
  ok : A → Result A
  err : Error → Result A
  panic : String → Result A

infixl 5 ◌>>=◌ ◌>>◌
abbrev pub ◌>>=◌ {ℓ κ} : {A : Type ℓ} {B : Type κ} → Result A → (A → Result B) → Result B
ok a >>= f = f a
err e >>= f = err e
panic s >>= f = panic s

abbrev pub ◌>>◌ {ℓ} : {B : Type ℓ} → Result (Unit {0}) → Result B → Result B
m >> k = m >>= λ _. k

abbrev pub or_err {ℓ} : {A : Type ℓ} → Option A → Error → Result A
or_err none e = err e
or_err (some a) e = ok a

-- `if err != nil { return fmt.Errorf("...: %w", err) }`
abbrev pub wrap_err {ℓ} : {A : Type ℓ} → String → Result A → Result A
wrap_err s (ok a) = ok a
wrap_err s (err e) = err (wrap s e)
wrap_err s (panic t) = panic t

pub Result-cases {ℓ} :
    {A : Type ℓ} (r : Result A)
    → ((a : A) × (r ≡ ok a)) ⊎ (((e : Error) × (r ≡ err e)) ⊎ ((s : String) × (r ≡ panic s)))
Result-cases (ok a) = inl (a, refl)
Result-cases (err e) = inr (inl (e, refl))
Result-cases (panic s) = inr (inr (s, refl))
