-- ===== src/Pool/Decimal.antt =====
-- A number's decimal text (`(*big.Int).String`), read back.
use prov_go.Base.{
  ℕ, zero, suc, ◌+◌, ◌-◌, ◌*◌, ◌/◌, ◌%◌, ◌<◌, ◌≤◌, ◌≡◌, refl, ◌∙◌, ap, List, [], ◌∷◌, ◌++◌,
  append_assoc, append-nil, Bool-cases, inl, inr, ltb, arith, All, All-append, codes,
}
use prov_go.Base.Int.{pos, negsuc}
use prov_go.Base.Ascii.{codes-text_of}
use prov_go.Pool.Json.{digits_of, decimal}

-- The number that a row of digits stands for, with `n` before it.
unfoldable pub value_from : ℕ → List ℕ → ℕ
value_from n [] = n
value_from n (c ∷ cs) = value_from (n * 10 + (c - b'0')) cs

abbrev pub IsAscii : ℕ → Type 0
IsAscii c = c < 128

digits_of-IsAscii : (f n : ℕ) → n ≤ f → All IsAscii (digits_of f n)
unfolding digits_of
digits_of-IsAscii zero n h = (omega arith, tt)
digits_of-IsAscii (suc f) n h = elim (Bool-cases (ltb n 10)) [
  | inl small ↦ rw small (ground arith, tt)
  | inr large ↦ rw large (
      All-append IsAscii (digits_of f (n / 10)) _ (digits_of-IsAscii f (n / 10) (ground arith))
        (omega arith, tt))
]

abbrev pub IsDigit : ℕ → Type 0
IsDigit c = (b'0' ≤ c) × (c ≤ b'9')

pub digits_of-IsDigit : (f n : ℕ) → n ≤ f → All IsDigit (digits_of f n)
unfolding digits_of
digits_of-IsDigit zero n h = ((omega arith, omega arith), tt)
digits_of-IsDigit (suc f) n h = elim (Bool-cases (ltb n 10)) [
  | inl small ↦ rw small ((omega arith, ground arith), tt)
  | inr large ↦ rw large (
      All-append IsDigit (digits_of f (n / 10)) ((b'0' + n % 10) ∷ [])
        (digits_of-IsDigit f (n / 10) (ground arith)) ((omega arith, omega arith), tt))
]

-- A reader that takes a row's digits one by one, as long as the number stays within its bound.
module _ {A : Type 0} (read : ℕ → List ℕ → A) (Fits : ℕ → Type 0)
    (smaller : (m n : ℕ) → m ≤ n → Fits n → Fits m)
    (step : (n d : ℕ) (cs : List ℕ)
      → d < 10
      → Fits (n * 10 + d)
      → read n ((b'0' + d) ∷ cs) ≡ read (n * 10 + d) cs) where
  read_first : (n : ℕ) (cs : List ℕ) → n < 10 → Fits n → read 0 ((b'0' + n) ∷ cs) ≡ read n cs
  read_first n cs h fits =
      step 0 n cs h (smaller (0 * 10 + n) n (omega arith) fits) ∙ ap (λ k. read k cs) (omega arith)

  pub read-digits_of :
      (f n : ℕ) (cs : List ℕ) → n ≤ f → Fits n → read 0 (digits_of f n ++ cs) ≡ read n cs
  unfolding digits_of
  read-digits_of zero n cs h fits = read_first n cs (omega arith) fits
  read-digits_of (suc f) n cs h fits = elim (Bool-cases (ltb n 10)) [
    | inl small ↦ rw small (read_first n cs (ground arith) fits)
    | inr large ↦
        let same : n / 10 * 10 + n % 10 ≡ n = omega arith in
        rw
          (
            large,
            append_assoc (digits_of f (n / 10)) ((b'0' + n % 10) ∷ []) cs,
            read-digits_of f (n / 10) ((b'0' + n % 10) ∷ cs) (ground arith)
                (smaller (n / 10) n (omega arith) fits),
            step (n / 10) (n % 10) cs (omega arith) (rw same fits),
            same,
          )
          refl
  ]

snoc-nonempty : (s : List ℕ) (c : ℕ) → ¬ (s ++ c ∷ [] ≡ [])
snoc-nonempty [] c e = ground arith
snoc-nonempty (d ∷ s) c e = ground arith

pub digits_of-nonempty : (f n : ℕ) → ¬ (digits_of f n ≡ [])
unfolding digits_of
digits_of-nonempty zero n e = ground arith
digits_of-nonempty (suc f) n e = elim (Bool-cases (ltb n 10)) [
  | inl small ↦ ground arith
  | inr large ↦ snoc-nonempty (digits_of f (n / 10)) (b'0' + n % 10) (ground arith)
]

pub codes-decimal : (n : ℕ) → codes (decimal (pos n)) ≡ digits_of n n
unfolding decimal
codes-decimal n = codes-text_of (digits_of n n) (digits_of-IsAscii n n (omega arith))

pub codes-decimal_negsuc : (n : ℕ) → codes (decimal (negsuc n)) ≡ b'-' ∷ digits_of (suc n) (suc n)
unfolding decimal
codes-decimal_negsuc n =
    codes-text_of (b'-' ∷ digits_of (suc n) (suc n))
      (omega arith, digits_of-IsAscii (suc n) (suc n) (omega arith))

value_from-step :
    (n d : ℕ) (cs : List ℕ) → value_from n ((b'0' + d) ∷ cs) ≡ value_from (n * 10 + d) cs
unfolding value_from
value_from-step n d cs = let same : b'0' + d - b'0' ≡ d = omega arith in rw same refl

-- The decimal text of a number stands for that number.
pub value_from-decimal : (n : ℕ) → value_from 0 (codes (decimal (pos n))) ≡ n
unfolding value_from
value_from-decimal n =
    rw (codes-decimal n, ← append-nil (digits_of n n))
      (read-digits_of value_from (λ _. Unit {0}) (λ _ _ _ _. tt)
        (λ n d cs _ _. value_from-step n d cs) n n [] (omega arith) tt)
