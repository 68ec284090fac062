-- ===== src/Pool/Reader/Numbers.antt =====
-- The numbers of `json.Marshal` (Pool/Text) are read back.
use prov_go.Base.{
  ℕ, suc, ◌+◌, ◌-◌, ◌*◌, ◌<◌, ◌≤◌, ◌≡◌, ◌≢◌, refl, ◌∙◌, true, false, List, [], ◌∷◌, ◌++◌, some,
  arith, All, codes,
}
use prov_go.Base.Int.{ℤ, pos, negsuc}
use prov_go.Pool.Json.{int, digits_of, decimal}
use prov_go.Pool.Decimal.{
  IsDigit, digits_of-IsDigit, digits_of-nonempty, read-digits_of, codes-decimal,
  codes-decimal_negsuc,
}
use prov_go.Pool.Reader.{is_digit, read_digits, digit, start_of, natural, read_value}

-- A text that does not go on with a digit.
abbrev pub Ends : List ℕ → Type 0
Ends [] = Unit
Ends (c ∷ s) = is_digit c ≡ false

read_digits-Ends : (n : ℕ) (rest : List ℕ) → Ends rest → read_digits n rest ≡ (n, rest)
unfolding read_digits
read_digits-Ends n [] h = refl
read_digits-Ends n (c ∷ s) h = rw (read_digits, h) refl

is_digit-digit : (c : ℕ) → IsDigit c → is_digit c ≡ true
unfolding is_digit
is_digit-digit c (low, high) = ground arith

read_digits-step :
    (n d : ℕ) (s : List ℕ) → d < 10 → read_digits n ((b'0' + d) ∷ s) ≡ read_digits (n * 10 + d) s
unfolding read_digits
read_digits-step n d s h =
    let same : b'0' + d - b'0' ≡ d = omega arith in
    rw (read_digits, is_digit-digit (b'0' + d) (omega arith, omega arith), same) refl

read_digits-digits_of :
    (n : ℕ) (rest : List ℕ) → Ends rest → read_digits 0 (digits_of n n ++ rest) ≡ (n, rest)
read_digits-digits_of n rest h =
    read-digits_of read_digits (λ _. Unit {0}) (λ _ _ _ _. tt)
      (λ m d s small _. read_digits-step m d s small) n n rest (omega arith) tt
    ∙ read_digits-Ends n rest h

-- A row of digits starts with one.
pub digits_of-head :
    (f n : ℕ) → n ≤ f → (c : ℕ) × (s : List ℕ) × (digits_of f n ≡ c ∷ s) × IsDigit c
digits_of-head f n h = first (digits_of f n) refl (digits_of-nonempty f n) (digits_of-IsDigit f n h)
  where
    first :
        (s : List ℕ)
        → digits_of f n ≡ s
        → (digits_of f n ≢ [])
        → All IsDigit (digits_of f n)
        → (c : ℕ) × (t : List ℕ) × (digits_of f n ≡ c ∷ t) × IsDigit c
    first [] e some_digit digits = absurd (some_digit e)
    first (c ∷ s) e some_digit digits = (c, s, e, (rw e at digits).0)

start_of-digit : (c : ℕ) → IsDigit c → start_of c ≡ digit
unfolding start_of
start_of-digit c (low, high) = ground arith

read_value-digit :
    (c : ℕ) (s : List ℕ) (f : ℕ)
    → IsDigit c
    → read_value (suc f) (c ∷ s) ≡ natural (read_digits 0 (c ∷ s))
unfolding read_value
read_value-digit c s f h = rw (read_value, start_of-digit c h) refl

pub read_value-int :
    (i : ℤ) (rest : List ℕ) (f : ℕ)
    → Ends rest
    → read_value (suc f) (codes (decimal i) ++ rest) ≡ some (int i, rest)
unfolding read_value
read_value-int (pos n) rest f h =
    let (c, s, e, is) = digits_of-head n n (omega arith) in
    let all = read_digits-digits_of n rest h in
    rw (codes-decimal n, e, read_value-digit c (s ++ rest) f is, rw e at all) refl
read_value-int (negsuc n) rest f h =
    rw (codes-decimal_negsuc n, read_digits-digits_of (suc n) rest h) refl
