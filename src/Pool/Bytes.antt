-- ===== src/Pool/Bytes.antt =====
-- The bytes of a printed value (`json.Marshal`), as a client decodes them from base64.
use prov_go.Base.{ℕ, ◌≡◌, List, [], ◌∷◌, some, String, arith, All, All-append, codes}
use prov_go.Base.Base64.{
  base64_encode, base64_decode, base64_decode-encode, base64_encode-ascii, IsByte,
}
use prov_go.Base.Ascii.{text_of, codes-text_of}
use prov_go.Pool.Json.{Json}
use prov_go.Pool.Text.{utf8_of, utf8, print, marshal}

utf8_of-IsByte : (c : ℕ) → All IsByte (utf8_of c)
unfolding utf8_of
utf8_of-IsByte c = ground arith

utf8-IsByte : (s : List ℕ) → All IsByte (utf8 s)
unfolding utf8
utf8-IsByte [] = tt
utf8-IsByte (c ∷ s) = All-append IsByte (utf8_of c) (utf8 s) (utf8_of-IsByte c) (utf8-IsByte s)

marshal-IsByte : (j : Json) → All IsByte (marshal j)
unfolding marshal
marshal-IsByte j = utf8-IsByte (print j)

-- `base64.StdEncoding.EncodeToString` of the marshalled value.
unfoldable pub payload : Json → String
unfolding text_of base64_encode marshal
payload j = text_of (base64_encode (marshal j))

-- The payload decodes to the value's text.
pub base64_decode-payload : (j : Json) → base64_decode (codes (payload j)) ≡ some (marshal j)
unfolding payload
base64_decode-payload j =
    rw (codes-text_of (base64_encode (marshal j)) (base64_encode-ascii (marshal j)))
      (base64_decode-encode (marshal j) (marshal-IsByte j))
