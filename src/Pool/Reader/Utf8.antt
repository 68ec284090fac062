-- ===== src/Pool/Reader/Utf8.antt =====
-- The UTF-8 of a text (Pool/Text) is decoded to its code points.
use Prim.Native.Char.{char}
use prov_go.Base.{
  ℕ, zero, suc, ◌+◌, ◌-◌, ◌*◌, ◌<◌, ◌≡◌, refl, inl, inr, true, false, Option, none, some, List, [],
  ◌∷◌, ◌++◌, String, Bool-cases, arith, All, All-append, ltb, codes,
}
use prov_go.Base.Int.{ℤ, pos, negsuc}
use prov_go.Pool.Json.{Json, null, text, int, bool, array, object, nil, cons, end, field, decimal}
use prov_go.Pool.Decimal.{IsDigit, digits_of-IsDigit, codes-decimal, codes-decimal_negsuc}
use prov_go.Pool.Text.{
  escaped, escape_all, quoted, separated, print, print_items, print_fields, utf8_of, utf8, marshal,
}
use prov_go.Pool.Reader.{◌>>=◌, read_json}
use prov_go.Pool.Reader.RoundTrip.{read_json-print}

unfoldable pub and_code : ℕ → Option (List ℕ) → Option (List ℕ)
and_code c none = none
and_code c (some s) = some (c ∷ s)

-- With this many bytes to come of the code that has begun with `n`.
unfoldable pub decode_utf8 : ℕ → ℕ → List ℕ → Option (List ℕ)
unfolding and_code
decode_utf8 zero n [] = some []
decode_utf8 (suc left) n [] = none
decode_utf8 zero n (b ∷ s) = elim (ltb b 0x80) [
  | true ↦ and_code b (decode_utf8 0 0 s)
  | false ↦ elim (ltb b 0xe0) [
    | true ↦ decode_utf8 1 (b - 0xc0) s
    | false ↦ elim (ltb b 0xf0) [
      | true ↦ decode_utf8 2 (b - 0xe0) s
      | false ↦ decode_utf8 3 (b - 0xf0) s
    ]
  ]
]
decode_utf8 (suc zero) n (b ∷ s) = and_code (n * 64 + (b - 0x80)) (decode_utf8 0 0 s)
decode_utf8 (suc (suc left)) n (b ∷ s) = decode_utf8 (suc left) (n * 64 + (b - 0x80)) s

abbrev IsCode : ℕ → Type 0
IsCode c = c < 0x200000

decode_utf8-utf8_of :
    (c : ℕ) (s : List ℕ)
    → IsCode c
    → decode_utf8 0 0 (utf8_of c ++ s) ≡ and_code c (decode_utf8 0 0 s)
unfolding decode_utf8 utf8_of
decode_utf8-utf8_of c s h = elim (Bool-cases (ltb c 0x80)) [
  | inl one ↦ ground arith
  | inr more ↦ elim (Bool-cases (ltb c 0x800)) [
    | inl two ↦ ground arith
    | inr more' ↦ elim (Bool-cases (ltb c 0x10000)) [
      | inl three ↦ ground arith
      | inr four ↦ ground arith
    ]
  ]
]

decode_utf8-utf8 : (s : List ℕ) → All IsCode s → decode_utf8 0 0 (utf8 s) ≡ some s
unfolding utf8 decode_utf8 and_code
decode_utf8-utf8 [] h = refl
decode_utf8-utf8 (c ∷ s) h =
    rw (decode_utf8-utf8_of c (utf8 s) (h.0), decode_utf8-utf8 s (h.1)) refl

codes-IsCode : (s : String) → All IsCode (codes s)
codes-IsCode String.[] = tt
codes-IsCode (String.◌∷◌ (char n h) s) = (ground arith, codes-IsCode s)

escaped-IsCode : (c : ℕ) → IsCode c → All IsCode (escaped c)
unfolding escaped
escaped-IsCode c h = ground arith

escape_all-IsCode : (s : List ℕ) → All IsCode s → All IsCode (escape_all s)
unfolding escape_all
escape_all-IsCode [] h = tt
escape_all-IsCode (c ∷ s) h =
    All-append IsCode (escaped c) (escape_all s) (escaped-IsCode c (h.0))
      (escape_all-IsCode s (h.1))

quoted-IsCode : (s : String) → All IsCode (quoted s)
unfolding quoted
quoted-IsCode s = (
  omega arith,
  All-append IsCode (escape_all (codes s)) (b'"' ∷ [])
      (escape_all-IsCode (codes s) (codes-IsCode s)) (omega arith, tt),
)

digits-IsCode : (s : List ℕ) → All IsDigit s → All IsCode s
digits-IsCode [] h = tt
digits-IsCode (c ∷ s) h = (digit-IsCode c (h.0), digits-IsCode s (h.1))
  where
    digit-IsCode : (d : ℕ) → IsDigit d → IsCode d
    digit-IsCode d (low, high) = omega arith

decimal-IsCode : (i : ℤ) → All IsCode (codes (decimal i))
decimal-IsCode (pos n) =
    rw (codes-decimal n) (digits-IsCode _ (digits_of-IsDigit n n (omega arith)))
decimal-IsCode (negsuc n) =
    rw (codes-decimal_negsuc n)
      (omega arith, digits-IsCode _ (digits_of-IsDigit (suc n) (suc n) (omega arith)))

separated-IsCode : (s q : List ℕ) → All IsCode s → All IsCode q → All IsCode (separated s q)
unfolding separated
separated-IsCode s [] hs hq = hs
separated-IsCode s (c ∷ q) hs hq = All-append IsCode s (b',' ∷ c ∷ q) hs (omega arith, hq)

print-IsCode : (j : Json) → All IsCode (print j)
unfolding print print_items print_fields
print-IsCode j =
    elim j
      as (λ x. All IsCode (print x)) (λ xs. All IsCode (print_items xs)) (λ fs.
        All IsCode (print_fields fs)) [
          | null ↦ codes-IsCode "null"
          | text s ↦ quoted-IsCode s
          | int i ↦ decimal-IsCode i
          | bool true ↦ codes-IsCode "true"
          | bool false ↦ codes-IsCode "false"
          | array (xs → ih) ↦
              (omega arith, All-append IsCode (print_items xs) (b']' ∷ []) ih (omega arith, tt))
          | object (fs → ih) ↦
              (omega arith, All-append IsCode (print_fields fs) (b'}' ∷ []) ih (omega arith, tt))
          | nil ↦ tt
          | cons (x → ih) (xs → ihs) ↦ separated-IsCode (print x) (print_items xs) ih ihs
          | end ↦ tt
          | field k (v → ih) (fs → ihs) ↦
              separated-IsCode (quoted k ++ b':' ∷ print v) (print_fields fs)
                (All-append IsCode (quoted k) (b':' ∷ print v) (quoted-IsCode k) (omega arith, ih))
                ihs
        ]

-- The value whose UTF-8 text a row of bytes is.
unfoldable pub read_bytes : List ℕ → Option Json
unfolding decode_utf8 read_json
read_bytes bytes = do s ← decode_utf8 0 0 bytes; read_json s

-- From the bytes that `json.Marshal` gives for a value, a reader of JSON gets that value.
pub read_bytes-marshal : (j : Json) → read_bytes (marshal j) ≡ some j
unfolding read_bytes marshal
read_bytes-marshal j = rw (decode_utf8-utf8 (print j) (print-IsCode j), read_json-print j) refl
