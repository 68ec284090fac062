-- ===== src/Pool/Text.antt =====
-- The text that Go's `encoding/json` prints for a value, and its bytes: `json.Marshal`. A text is the
-- code points of its characters.
use prov_go.Base.{
  ℕ, ◌+◌, ◌/◌, ◌%◌, Bool, true, false, ◌||◌, String, List, [], ◌∷◌, ◌++◌, ltb, nat_eq, codes,
  hex_digit, if◌then◌else◌,
}
use prov_go.Pool.Json.{
  Json, null, text, int, bool, array, object, Items, nil, cons, Fields, end, field, decimal,
}

-- `\u` and four hexadecimal digits.
unfoldable pub unicode_escape : ℕ → List ℕ
unfolding hex_digit
unicode_escape c =
    b'\\'
    ∷ b'u'
    ∷ hex_digit (c / 4096 % 16)
    ∷ hex_digit (c / 256 % 16)
    ∷ hex_digit (c / 16 % 16)
    ∷ hex_digit (c % 16)
    ∷ []

-- `appendString` with the escapes for HTML.
unfoldable pub escaped : ℕ → List ℕ
unfolding unicode_escape
escaped c =
    if nat_eq c b'"' || nat_eq c b'\\'
    then b'\\' ∷ c ∷ []
    else if nat_eq c 8
    then b'\\' ∷ b'b' ∷ []
    else if nat_eq c 12
    then b'\\' ∷ b'f' ∷ []
    else if nat_eq c 10
    then b'\\' ∷ b'n' ∷ []
    else if nat_eq c 13
    then b'\\' ∷ b'r' ∷ []
    else if nat_eq c 9
    then b'\\' ∷ b't' ∷ []
    else if ltb c 32
        || nat_eq c b'<'
        || nat_eq c b'>'
        || nat_eq c b'&'
        || nat_eq c 0x2028
        || nat_eq c 0x2029
    then unicode_escape c
    else c ∷ []

unfoldable pub escape_all : List ℕ → List ℕ
unfolding escaped
escape_all [] = []
escape_all (c ∷ s) = escaped c ++ escape_all s

unfoldable pub quoted : String → List ℕ
unfolding escape_all
quoted s = b'"' ∷ (escape_all (codes s) ++ b'"' ∷ [])

print_bool : Bool → List ℕ
print_bool true = codes "true"
print_bool false = codes "false"

-- A comma between two items.
unfoldable pub separated : List ℕ → List ℕ → List ℕ
separated s [] = s
separated s (c ∷ more) = s ++ b',' ∷ c ∷ more

unfoldable mutual
  unfolding quoted print_bool separated

  pub print : Json → List ℕ
  print null = codes "null"
  print (text s) = quoted s
  print (int n) = codes (decimal n)
  print (bool b) = print_bool b
  print (array xs) = b'[' ∷ (print_items xs ++ b']' ∷ [])
  print (object fs) = b'{' ∷ (print_fields fs ++ b'}' ∷ [])

  pub print_items : Items → List ℕ
  print_items nil = []
  print_items (cons x xs) = separated (print x) (print_items xs)

  pub print_fields : Fields → List ℕ
  print_fields end = []
  print_fields (field k v fs) = separated (quoted k ++ b':' ∷ print v) (print_fields fs)

-- The UTF-8 of a code point.
unfoldable pub utf8_of : ℕ → List ℕ
utf8_of c =
    if ltb c 0x80
    then c ∷ []
    else if ltb c 0x800
    then (0xc0 + c / 64) ∷ (0x80 + c % 64) ∷ []
    else if ltb c 0x10000
    then (0xe0 + c / 4096) ∷ (0x80 + c / 64 % 64) ∷ (0x80 + c % 64) ∷ []
    else (0xf0 + c / 0x40000 % 8)
      ∷ (0x80 + c / 4096 % 64)
      ∷ (0x80 + c / 64 % 64)
      ∷ (0x80 + c % 64)
      ∷ []

unfoldable pub utf8 : List ℕ → List ℕ
unfolding utf8_of
utf8 [] = []
utf8 (c ∷ s) = utf8_of c ++ utf8 s

unfoldable pub marshal : Json → List ℕ
unfolding utf8 print
marshal j = utf8 (print j)
