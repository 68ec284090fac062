-- ===== src/Base/Base64.antt =====
-- Go's `base64.StdEncoding`: bytes to characters, and back.
use Prim.Native.Nat.{ℕ, ◌+◌, ◌-◌, ◌*◌, ◌/◌, ◌%◌, ◌<◌}
use mathlib.Core.Path.{◌≡◌, refl}
use mathlib.Core.Option.{Option, none, some}
use mathlib.Core.Bool.{Bool, false, ◌&&◌, ◌||◌}
use mathlib.Core.List.{List, [], ◌∷◌}
use native.Mathlib.Omega.{arith}
use prov_go.Base.Tests.{ltb, leb, nat_eq, if◌then◌else◌, is_nil}
use prov_go.Base.Lists.{All}

-- The character of six bits, and the six bits of a character.
char : ℕ → ℕ
char n =
    if ltb n 26
    then b'A' + n
    else if ltb n 52
    then b'a' + (n - 26)
    else if ltb n 62
    then b'0' + (n - 52)
    else if nat_eq n 62
    then b'+'
    else b'/'

value : ℕ → Option ℕ
value c =
    if leb b'A' c && leb c b'Z'
    then some (c - b'A')
    else if leb b'a' c && leb c b'z'
    then some (c - b'a' + 26)
    else if leb b'0' c && leb c b'9'
    then some (c - b'0' + 52)
    else if nat_eq c b'+'
    then some 62
    else if nat_eq c b'/'
    then some 63
    else none

value-char : (n : ℕ) → n < 64 → value (char n) ≡ some n
unfolding value char
value-char n h = ground arith

-- `EncodeToString`
unfoldable pub base64_encode : List ℕ → List ℕ
unfolding char
base64_encode [] = []
base64_encode (a ∷ []) = char (a / 4) ∷ char (a % 4 * 16) ∷ b'=' ∷ b'=' ∷ []
base64_encode (a ∷ b ∷ []) =
    char (a / 4) ∷ char (a % 4 * 16 + b / 16) ∷ char (b % 16 * 4) ∷ b'=' ∷ []
base64_encode (a ∷ b ∷ c ∷ more) =
    char (a / 4)
    ∷ char (a % 4 * 16 + b / 16)
    ∷ char (b % 16 * 4 + c / 64)
    ∷ char (c % 64)
    ∷ base64_encode more

-- The bytes of two, three and four characters.
one_byte : Option ℕ → Option ℕ → Option (List ℕ)
one_byte (some p) (some q) = some ((p * 4 + q / 16) ∷ [])
one_byte _ _ = none

two_bytes : Option ℕ → Option ℕ → Option ℕ → Option (List ℕ)
two_bytes (some p) (some q) (some r) = some ((p * 4 + q / 16) ∷ (q % 16 * 16 + r / 4) ∷ [])
two_bytes _ _ _ = none

three_bytes : Option ℕ → Option ℕ → Option ℕ → Option ℕ → Option (List ℕ) → Option (List ℕ)
three_bytes (some p) (some q) (some r) (some s) (some more) =
    some ((p * 4 + q / 16) ∷ (q % 16 * 16 + r / 4) ∷ (r % 4 * 64 + s) ∷ more)
three_bytes _ _ _ _ _ = none

-- A padded group ends the text.
decode_groups : List ℕ → Option (List ℕ)
unfolding value one_byte two_bytes three_bytes
decode_groups [] = some []
decode_groups (p ∷ q ∷ r ∷ s ∷ more) =
    let rest = decode_groups more in
    let last_one = one_byte (value p) (value q) in
    let last_two = two_bytes (value p) (value q) (value r) in
    let full = three_bytes (value p) (value q) (value r) (value s) rest in
    if nat_eq s b'='
    then (if is_nil more then (if nat_eq r b'=' then last_one else last_two) else none)
    else full
decode_groups _ = none

is_line_end : ℕ → Bool
is_line_end c = nat_eq c 10 || nat_eq c 13

without_line_ends : List ℕ → List ℕ
unfolding is_line_end
without_line_ends [] = []
without_line_ends (c ∷ s) = if is_line_end c then without_line_ends s else c ∷ without_line_ends s

-- `DecodeString`, which passes over the ends of lines.
unfoldable pub base64_decode : List ℕ → Option (List ℕ)
unfolding without_line_ends decode_groups
base64_decode s = decode_groups (without_line_ends s)

abbrev pub IsByte : ℕ → Type 0
IsByte b = b < 256

-- No character of an encoded text is the end of a line.
char_lem : (n : ℕ) → (is_line_end (char n) ≡ false) × (nat_eq (char n) b'=' ≡ false)
unfolding is_line_end char
char_lem n = ground arith

without_line_ends-encode :
    (bytes : List ℕ) → without_line_ends (base64_encode bytes) ≡ base64_encode bytes
unfolding without_line_ends base64_encode char is_line_end
without_line_ends-encode [] = refl
without_line_ends-encode (a ∷ []) = rw ((char_lem (a / 4)).0, (char_lem (a % 4 * 16)).0)
without_line_ends-encode (a ∷ b ∷ []) =
    rw ((char_lem (a / 4)).0, (char_lem (a % 4 * 16 + b / 16)).0, (char_lem (b % 16 * 4)).0)
without_line_ends-encode (a ∷ b ∷ c ∷ more) = rw (
  (char_lem (a / 4)).0,
  (char_lem (a % 4 * 16 + b / 16)).0,
  (char_lem (b % 16 * 4 + c / 64)).0,
  (char_lem (c % 64)).0,
  without_line_ends-encode more,
)

decode_groups-encode :
    (bytes : List ℕ) → All IsByte bytes → decode_groups (base64_encode bytes) ≡ some bytes
unfolding decode_groups base64_encode
decode_groups-encode [] h = refl
decode_groups-encode (a ∷ []) h = ground (arith, value-char (a / 4), value-char (a % 4 * 16))
decode_groups-encode (a ∷ b ∷ []) h = ground (
  arith,
  value-char (a / 4),
  value-char (a % 4 * 16 + b / 16),
  value-char (b % 16 * 4),
  char_lem (b % 16 * 4),
)
decode_groups-encode (a ∷ b ∷ c ∷ more) h = ground (
  arith,
  value-char (a / 4),
  value-char (a % 4 * 16 + b / 16),
  value-char (b % 16 * 4 + c / 64),
  value-char (c % 64),
  char_lem (c % 64),
  decode_groups-encode more,
)

pub base64_decode-encode :
    (bytes : List ℕ) → All IsByte bytes → base64_decode (base64_encode bytes) ≡ some bytes
unfolding base64_decode
base64_decode-encode bytes h = rw (without_line_ends-encode bytes) (decode_groups-encode bytes h)

char-lt : (n : ℕ) → char n < 128
unfolding char
char-lt n = ground arith

pub base64_encode-ascii : (bytes : List ℕ) → All (λ c. c < 128) (base64_encode bytes)
unfolding base64_encode
base64_encode-ascii [] = tt
base64_encode-ascii (a ∷ []) =
    (char-lt (a / 4), (char-lt (a % 4 * 16), (omega arith, (omega arith, tt))))
base64_encode-ascii (a ∷ b ∷ []) =
    (char-lt (a / 4), (char-lt (a % 4 * 16 + b / 16), (char-lt (b % 16 * 4), (omega arith, tt))))
base64_encode-ascii (a ∷ b ∷ c ∷ more) = (
  char-lt (a / 4),
  (
    char-lt (a % 4 * 16 + b / 16),
    (char-lt (b % 16 * 4 + c / 64), (char-lt (c % 64), base64_encode-ascii more)),
  ),
)
