-- ===== src/Pool/Reader.antt =====
-- A reader of JSON texts without spaces, against which the texts of Pool/Text (`json.Marshal`) stand: it
-- gives the value at the front of a text, and what follows.
use Prim.Native.Char.{Char, char, nul, IsScalar}
use native.Mathlib.Decide.{dec_lt}
use mathlib.Core.Logic.{dite}
use prov_go.Base.{
  ℕ, zero, suc, ◌+◌, ◌-◌, ◌*◌, ◌<◌, Bool, true, false, ◌&&◌, Option, none, some, List, [], ◌∷◌,
  String, codes, length, ltb, leb, nat_eq, if◌then◌else◌, arith,
}
use prov_go.Base.Int.{ℤ, pos, negsuc}
use prov_go.Pool.Json.{
  Json, null, text, int, bool, array, object, Items, nil, cons, Fields, end, field,
}
pub mod Texts
pub mod Numbers
pub mod Commas
pub mod RoundTrip
pub mod Utf8

infixl 5 ◌>>=◌
abbrev pub ◌>>=◌ {ℓ κ} : {A : Type ℓ} {B : Type κ} → Option A → (A → Option B) → Option B
none >>= f = none
some a >>= f = f a

unfoldable pub IsScalar-dec : (n : ℕ) → Dec (IsScalar n)
unfolding dec_lt
IsScalar-dec n = elim (dec_lt n 55296) [
  | yes h ↦ yes (ground arith)
  | no h ↦ elim (dec_lt 57343 n) [
    | yes low ↦ elim (dec_lt n 1114112) [
      | yes high ↦ yes (ground arith)
      | no past ↦ no λ q. ground arith
    ]
    | no between ↦ no λ q. ground arith
  ]
]

-- The character with a code; NUL where there is none.
unfoldable pub char_of : ℕ → Char
unfolding IsScalar-dec
char_of n = dite (IsScalar-dec n) (λ h. char n h) (λ _. nul)

unfoldable pub string_of : List ℕ → String
unfolding char_of
string_of [] = String.[]
string_of (c ∷ s) = String.◌∷◌ (char_of c) (string_of s)

-- Within a text: at a character, after a backslash, or with this many hexadecimal digits to come after
-- the next one.
pub data Place : Type 0 where
  plain : Place
  slash : Place
  hex : ℕ → ℕ → Place

unfoldable pub hex_value : ℕ → ℕ
hex_value c = if ltb c b'a' then c - b'0' else c - b'a' + 10

unfoldable pub unescaped : ℕ → ℕ
unescaped c =
    if nat_eq c b'b'
    then 8
    else if nat_eq c b'f'
    then 12
    else if nat_eq c b'n'
    then 10
    else if nat_eq c b'r'
    then 13
    else if nat_eq c b't'
    then 9
    else c

unfoldable pub and_then : ℕ → Option (List ℕ × List ℕ) → Option (List ℕ × List ℕ)
and_then c none = none
and_then c (some (s, rest)) = some (c ∷ s, rest)

-- The characters up to the closing quote.
unfoldable pub read_chars : Place → List ℕ → Option (List ℕ × List ℕ)
unfolding hex_value unescaped and_then
read_chars p [] = none
read_chars plain (c ∷ s) = elim (nat_eq c b'"') [
  | true ↦ some ([], s)
  | false ↦ elim (nat_eq c b'\\') [
    | true ↦ read_chars slash s
    | false ↦ and_then c (read_chars plain s)
  ]
]
read_chars slash (c ∷ s) = elim (nat_eq c b'u') [
  | true ↦ read_chars (hex 3 0) s
  | false ↦ and_then (unescaped c) (read_chars plain s)
]
read_chars (hex zero n) (c ∷ s) = and_then (n * 16 + hex_value c) (read_chars plain s)
read_chars (hex (suc left) n) (c ∷ s) = read_chars (hex left (n * 16 + hex_value c)) s

unfoldable pub is_digit : ℕ → Bool
is_digit c = leb b'0' c && leb c b'9'

-- A row of digits after the number `n`.
unfoldable pub read_digits : ℕ → List ℕ → ℕ × List ℕ
unfolding is_digit
read_digits n [] = (n, [])
read_digits n (c ∷ s) = elim (is_digit c) [
  | true ↦ read_digits (n * 10 + (c - b'0')) s
  | false ↦ (n, c ∷ s)
]

-- What the first character of a value announces.
pub data Start : Type 0 where
  quote : Start
  bracket : Start
  brace : Start
  word : List ℕ → Json → Start
  minus : Start
  digit : Start
  nothing : Start

unfoldable pub start_of : ℕ → Start
unfolding is_digit
start_of c =
    if nat_eq c b'"'
    then quote
    else if nat_eq c b'['
    then bracket
    else if nat_eq c b'{'
    then brace
    else if nat_eq c b'n'
    then word (codes "ull") null
    else if nat_eq c b't'
    then word (codes "rue") (bool true)
    else if nat_eq c b'f'
    then word (codes "alse") (bool false)
    else if nat_eq c b'-'
    then minus
    else if is_digit c
    then digit
    else nothing

-- What is left of a text that goes on with a word.
unfoldable pub after_word : List ℕ → List ℕ → Option (List ℕ)
after_word [] s = some s
after_word (_ ∷ _) [] = none
after_word (c ∷ w) (d ∷ s) = elim (nat_eq c d) [ true ↦ after_word w s | false ↦ none ]

abbrev pub negative : ℕ × List ℕ → Option (Json × List ℕ)
negative (zero, rest) = none
negative (suc n, rest) = some (int (negsuc n), rest)

abbrev pub natural : ℕ × List ℕ → Option (Json × List ℕ)
natural (n, rest) = some (int (pos n), rest)

unfoldable pub read_text : List ℕ → Option (String × List ℕ)
unfolding read_chars string_of
read_text s = do (t, rest) ← read_chars plain s; some (string_of t, rest)

-- What a call leaves is no structural part of its text, so each call takes a unit of fuel.
unfoldable mutual
  unfolding read_digits start_of after_word read_text

  pub read_value : ℕ → List ℕ → Option (Json × List ℕ)
  read_value zero s = none
  read_value (suc f) [] = none
  read_value (suc f) (c ∷ s) = elim (start_of c) [
    | quote ↦ do (t, rest) ← read_text s; some (text t, rest)
    | bracket ↦ do (xs, rest) ← read_items f s; some (array xs, rest)
    | brace ↦ do (fs, rest) ← read_fields f s; some (object fs, rest)
    | word w j ↦ do rest ← after_word w s; some (j, rest)
    | minus ↦ negative (read_digits 0 s)
    | digit ↦ natural (read_digits 0 (c ∷ s))
    | nothing ↦ none
  ]

  -- The items after the opening bracket, from an item on, and after an item.
  pub read_items : ℕ → List ℕ → Option (Items × List ℕ)
  read_items zero s = none
  read_items (suc f) [] = none
  read_items (suc f) (c ∷ s) = elim (nat_eq c b']') [
    | true ↦ some (nil, s)
    | false ↦ next_item f (c ∷ s)
  ]

  pub next_item : ℕ → List ℕ → Option (Items × List ℕ)
  next_item zero s = none
  next_item (suc f) s = do
    (x, rest) ← read_value f s
    (xs, rest') ← more_items f rest
    some (cons x xs, rest')

  pub more_items : ℕ → List ℕ → Option (Items × List ℕ)
  more_items zero s = none
  more_items (suc f) [] = none
  more_items (suc f) (c ∷ s) = elim (nat_eq c b']') [
    | true ↦ some (nil, s)
    | false ↦ elim (nat_eq c b',') [ true ↦ next_item f s | false ↦ none ]
  ]

  pub read_fields : ℕ → List ℕ → Option (Fields × List ℕ)
  read_fields zero s = none
  read_fields (suc f) [] = none
  read_fields (suc f) (c ∷ s) = elim (nat_eq c b'}') [
    | true ↦ some (end, s)
    | false ↦ next_field f (c ∷ s)
  ]

  pub next_field : ℕ → List ℕ → Option (Fields × List ℕ)
  next_field zero s = none
  next_field (suc f) s = do
    opened ← after_word (b'"' ∷ []) s
    (k, rest) ← read_text opened
    value ← after_word (b':' ∷ []) rest
    (v, rest') ← read_value f value
    (fs, rest'') ← more_fields f rest'
    some (field k v fs, rest'')

  pub more_fields : ℕ → List ℕ → Option (Fields × List ℕ)
  more_fields zero s = none
  more_fields (suc f) [] = none
  more_fields (suc f) (c ∷ s) = elim (nat_eq c b'}') [
    | true ↦ some (end, s)
    | false ↦ elim (nat_eq c b',') [ true ↦ next_field f s | false ↦ none ]
  ]

abbrev whole : Json × List ℕ → Option Json
whole (j, []) = some j
whole (j, _ ∷ _) = none

-- The value of a text.
unfoldable pub read_json : List ℕ → Option Json
unfolding read_value
read_json s = do j ← read_value (3 * length s) s; whole j
