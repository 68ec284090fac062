-- ===== src/Pool/Reader/Texts.antt =====
-- The texts of `json.Marshal` (Pool/Text) are read back with their escapes undone.
use Prim.Native.Char.{Char, char, code, nul, IsScalar}
use text.Mathlib.TextEquality.{Char-path}
use prov_go.Base.{
  ℕ, ◌||◌, ◌+◌, ◌*◌, ◌/◌, ◌%◌, ◌<◌, ◌≡◌, refl, String, List, [], ◌∷◌, ◌++◌, some, arith, inl, inr,
  Bool-cases, true, false, ltb, nat_eq, codes, hex_digit, append_assoc,
}
use prov_go.Pool.Text.{unicode_escape, escaped, escape_all}
use mathlib.Core.Logic.{dite}
use prov_go.Pool.Reader.{
  IsScalar-dec, char_of, string_of, plain, hex_value, unescaped, and_then, read_chars, read_text,
}

code-dite :
    (n : ℕ) (d : Dec (IsScalar n)) → IsScalar n → code (dite d (λ h. char n h) (λ _. nul)) ≡ n
code-dite n (yes _) h = refl
code-dite n (no k) h = absurd (k h)

char_of-code : (c : Char) → char_of (code c) ≡ c
unfolding char_of
char_of-code (char n h) = Char-path _ (char n h) (code-dite n (IsScalar-dec n) h)

string_of-codes : (s : String) → string_of (codes s) ≡ s
unfolding string_of
string_of-codes String.[] = refl
string_of-codes (String.◌∷◌ c s) = rw (char_of-code c, string_of-codes s) refl

hex_value-hex_digit : (d : ℕ) → d < 16 → hex_value (hex_digit d) ≡ d
unfolding hex_value hex_digit
hex_value-hex_digit d h = ground arith

read_chars-unicode :
    (c : ℕ) (s : List ℕ)
    → c < 0x10000
    → read_chars plain (unicode_escape c ++ s) ≡ and_then c (read_chars plain s)
unfolding read_chars unicode_escape
read_chars-unicode c s h =
    let value : (((0 * 16 + c / 4096 % 16) * 16 + c / 256 % 16) * 16 + c / 16 % 16) * 16 + c % 16
        ≡ c =
      omega arith in
    rw
      (
        hex_value-hex_digit (c / 4096 % 16) (omega arith),
        hex_value-hex_digit (c / 256 % 16) (omega arith),
        hex_value-hex_digit (c / 16 % 16) (omega arith),
        hex_value-hex_digit (c % 16) (omega arith),
        value,
      )
      refl

escaped-unicode :
    (c : ℕ)
    → (nat_eq c b'"' || nat_eq c b'\\') ≡ false
    → (ltb c 32
        || nat_eq c b'<'
        || nat_eq c b'>'
        || nat_eq c b'&'
        || nat_eq c 0x2028
        || nat_eq c 0x2029)
      ≡ true
    → (nat_eq c 8 || nat_eq c 12 || nat_eq c 10 || nat_eq c 13 || nat_eq c 9) ≡ false
    → escaped c ≡ unicode_escape c
unfolding escaped
escaped-unicode c ordinary special long = ground arith

read_chars-escaped :
    (c : ℕ) (s : List ℕ) → read_chars plain (escaped c ++ s) ≡ and_then c (read_chars plain s)
unfolding read_chars escaped unescaped
read_chars-escaped c s = elim (Bool-cases (nat_eq c b'"' || nat_eq c b'\\')) [
  | inl e ↦ ground arith
  | inr ordinary ↦
      elim (Bool-cases (
        ltb c 32
        || nat_eq c b'<'
        || nat_eq c b'>'
        || nat_eq c b'&'
        || nat_eq c 0x2028
        || nat_eq c 0x2029)) [
          | inr itself ↦ ground arith
          | inl special ↦
              let short : c < 0x10000 = ground arith in
              elim (Bool-cases
                (nat_eq c 8 || nat_eq c 12 || nat_eq c 10 || nat_eq c 13 || nat_eq c 9)) [
                  | inl control ↦ ground arith
                  | inr long ↦
                      rw (escaped-unicode c ordinary special long) (read_chars-unicode c s short)
                ]
        ]
]

read_chars-escape_all :
    (s rest : List ℕ) → read_chars plain (escape_all s ++ b'"' ∷ rest) ≡ some (s, rest)
unfolding read_chars escape_all
read_chars-escape_all [] rest = refl
read_chars-escape_all (c ∷ s) rest =
    rw
      (
        append_assoc (escaped c) (escape_all s) (b'"' ∷ rest),
        read_chars-escaped c (escape_all s ++ b'"' ∷ rest),
        read_chars-escape_all s rest,
      )
      refl

-- A quoted text, after its opening quote.
pub read_text-escape_all :
    (s : String) (rest : List ℕ) → read_text (escape_all (codes s) ++ b'"' ∷ rest) ≡ some (s, rest)
unfolding read_text
read_text-escape_all s rest = rw (read_chars-escape_all (codes s) rest, string_of-codes s) refl
