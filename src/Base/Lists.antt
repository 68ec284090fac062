-- ===== src/Base/Lists.antt =====
-- Lists measured by native numbers, under the library's names.
use Prim.Native.Nat.{ℕ, zero, suc, ◌+◌, ◌-◌, ◌<◌, ◌≤◌}
use mathlib.Core.Path.{◌≡◌, refl, subst, ◌∙◌}
use mathlib.Core.Logic.{◌⊎◌, inl, inr}
use mathlib.Core.Option.{Option, none, some, some-injective}
use mathlib.Core.Bool.{Bool, true, false, ◌&&◌}
use mathlib.Core.List.{List, [], ◌∷◌, ◌++◌}
use native.Mathlib.Omega.{arith}
use prov_go.Base.Tests.{nat_eq, if◌then◌else◌, Bool-cases}

module _ {ℓ} {A : Type ℓ} where
  abbrev pub length : List A → ℕ
  length [] = 0
  length (x ∷ xs) = suc (length xs)

  abbrev pub take : ℕ → List A → List A
  take zero xs = []
  take (suc n) [] = []
  take (suc n) (x ∷ xs) = x ∷ take n xs

  abbrev pub drop : ℕ → List A → List A
  drop zero xs = xs
  drop (suc n) [] = []
  drop (suc n) (x ∷ xs) = drop n xs

  abbrev pub concat : List (List A) → List A
  concat [] = []
  concat (xs ∷ xss) = xs ++ concat xss

  pub length-append : (xs ys : List A) → length (xs ++ ys) ≡ length xs + length ys
  length-append [] ys = omega arith
  length-append (x ∷ xs) ys = omega (arith, length-append xs ys)

-- A predicate by recursion, which the tactics read and build.
abbrev pub All {ℓ κ} : {A : Type ℓ} → (A → Type κ) → List A → Type κ
All P [] = Unit
All P (x ∷ xs) = P x × All P xs

pub All-append {ℓ κ} :
    {A : Type ℓ} (P : A → Type κ) (xs ys : List A) → All P xs → All P ys → All P (xs ++ ys)
All-append P [] ys hx hy = hy
All-append P (x ∷ xs) ys hx hy = (hx.0, All-append P xs ys hx.1 hy)

-- Equality of byte strings and of lists of code points.
abbrev pub codes_eq : List ℕ → List ℕ → Bool
codes_eq [] [] = true
codes_eq [] (_ ∷ _) = false
codes_eq (_ ∷ _) [] = false
codes_eq (x ∷ xs) (y ∷ ys) = nat_eq x y && codes_eq xs ys

-- The first item that passes a test, with its index counted from `i`.
module _ {ℓ} {A : Type ℓ} where
  abbrev pub get_elem? : List A → ℕ → Option A
  get_elem? [] i = none
  get_elem? (x ∷ xs) zero = some x
  get_elem? (x ∷ xs) (suc i) = get_elem? xs i

  unfoldable pub first_from : (A → Bool) → ℕ → List A → Option (ℕ × A)
  first_from test i [] = none
  first_from test i (x ∷ xs) = if test x then some (i, x) else first_from test (i + 1) xs

  -- What it means to be the first.
  abbrev pub IsFirst : (A → Bool) → List A → ℕ → A → Type ℓ
  IsFirst test xs i x =
      (get_elem? xs i ≡ some x)
      × (test x ≡ true)
      × ((j : ℕ) (y : A) → j < i → get_elem? xs j ≡ some y → test y ≡ false)

  abbrev pub IsNone : (A → Bool) → List A → Type ℓ
  IsNone test xs = (j : ℕ) (y : A) → get_elem? xs j ≡ some y → test y ≡ false

  pub IsFirst-cons :
      (test : A → Bool) (y : A) (ys : List A) (d : ℕ) (x : A)
      → test y ≡ false
      → IsFirst test ys d x
      → IsFirst test (y ∷ ys) (suc d) x
  IsFirst-cons test y ys d x fail (e, t, f) = (e, t, before)
    where
      before : (j : ℕ) (z : A) → j < suc d → get_elem? (y ∷ ys) j ≡ some z → test z ≡ false
      before zero z lt q = subst (λ v. test v ≡ false) (some-injective y z q) fail
      before (suc j) z lt q = f j z (omega arith) q

  pub IsNone-cons :
      (test : A → Bool) (y : A) (ys : List A)
      → test y ≡ false
      → IsNone test ys
      → IsNone test (y ∷ ys)
  IsNone-cons test y ys fail h zero z q = subst (λ v. test v ≡ false) (some-injective y z q) fail
  IsNone-cons test y ys fail h (suc j) z q = h j z q

  -- A loop that stops at the first item that passes finds it, or no item passes.
  pub first_from-cases :
      (test : A → Bool) (k : ℕ) (xs : List A)
      → ((d : ℕ) × (x : A) × (first_from test k xs ≡ some (k + d, x)) × IsFirst test xs d x)
        ⊎ ((first_from test k xs ≡ none) × IsNone test xs)
  unfolding first_from
  first_from-cases test k [] = inr (refl, λ j y q. cc)
  first_from-cases test k (y ∷ ys) = elim (Bool-cases (test y)) [
    | inl pass ↦ inl (0, y, rw pass (ground arith), (refl, pass, λ j z lt q. absurd (omega arith)))
    | inr fail ↦ elim (first_from-cases test (k + 1) ys) [
      | inl (d, x, e, f) ↦
          inl (suc d, x, rw (fail, e) (ground arith), IsFirst-cons test y ys d x fail f)
      | inr (e, h) ↦ inr (rw (fail, e), IsNone-cons test y ys fail h)
    ]
  ]

  pub first_from-of_IsFirst :
      (test : A → Bool) (k : ℕ) (xs : List A) (d : ℕ) (x : A)
      → IsFirst test xs d x
      → first_from test k xs ≡ some (k + d, x)
  unfolding first_from
  first_from-of_IsFirst test k [] d x (e, t, f) = cc
  first_from-of_IsFirst test k (y ∷ ys) zero x (e, t, f) = ground arith
  first_from-of_IsFirst test k (y ∷ ys) (suc d) x (e, t, f) = rw (f 0 y (omega arith) refl) (
      first_from-of_IsFirst test (k + 1) ys d x (e, t, λ j z lt q. f (suc j) z (omega arith) q)
      ∙ ground arith)

  pub first_from-of_IsNone :
      (test : A → Bool) (k : ℕ) (xs : List A) → IsNone test xs → first_from test k xs ≡ none
  unfolding first_from
  first_from-of_IsNone test k [] h = refl
  first_from-of_IsNone test k (y ∷ ys) h =
      rw (h 0 y refl) (first_from-of_IsNone test (k + 1) ys (λ j z q. h (suc j) z q))

module _ {ℓ} {A : Type ℓ} where
  pub take-append-drop : (n : ℕ) (xs : List A) → take n xs ++ drop n xs ≡ xs
  take-append-drop zero xs = refl
  take-append-drop (suc n) [] = refl
  take-append-drop (suc n) (x ∷ xs) = rw (take-append-drop n xs)

  pub drop-drop : (m n k : ℕ) (xs : List A) → k ≡ n + m → drop m (drop n xs) ≡ drop k xs
  drop-drop m zero k xs e = let same : k ≡ m = omega arith in rw same
  drop-drop zero (suc n) zero [] e = refl
  drop-drop zero (suc n) (suc k) [] e = refl
  drop-drop (suc m) (suc n) zero [] e = refl
  drop-drop (suc m) (suc n) (suc k) [] e = refl
  drop-drop m (suc n) zero (x ∷ xs) e = absurd (omega arith)
  drop-drop m (suc n) (suc k) (x ∷ xs) e = drop-drop m n k xs (omega arith)

  pub drop-eq-nil : (n : ℕ) (xs : List A) → length xs ≤ n → drop n xs ≡ []
  drop-eq-nil zero [] h = refl
  drop-eq-nil zero (x ∷ xs) h = absurd (omega arith)
  drop-eq-nil (suc n) [] h = refl
  drop-eq-nil (suc n) (x ∷ xs) h = drop-eq-nil n xs (omega arith)

  pub take-eq_self : (n : ℕ) (xs : List A) → length xs ≤ n → take n xs ≡ xs
  take-eq_self zero [] h = refl
  take-eq_self zero (x ∷ xs) h = absurd (omega arith)
  take-eq_self (suc n) [] h = refl
  take-eq_self (suc n) (x ∷ xs) h = rw (take-eq_self n xs (omega arith))

  pub length-drop : (n : ℕ) (xs : List A) → length (drop n xs) ≡ length xs - n
  length-drop zero xs = omega arith
  length-drop (suc n) [] = omega arith
  length-drop (suc n) (x ∷ xs) = omega (arith, length-drop n xs)

  pub length-take-le : (n : ℕ) (xs : List A) → length (take n xs) ≤ n
  length-take-le zero xs = omega arith
  length-take-le (suc n) [] = omega arith
  length-take-le (suc n) (x ∷ xs) = omega (arith, length-take-le n xs)

  pub length-take-pos : (n : ℕ) (xs : List A) → 0 < n → 0 < length xs → 0 < length (take n xs)
  length-take-pos zero xs h k = h
  length-take-pos (suc n) [] h k = k
  length-take-pos (suc n) (x ∷ xs) h k = omega arith
