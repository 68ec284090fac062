-- ===== src/Pool/Hook.antt =====
-- What the token and the pool read from the payloads of Pool/Forward.
use prov_go.Base.{
  ℕ, zero, suc, ◌<◌, ◌≡◌, refl, ◌⊎◌, inl, inr, ◌==◌, true, List, [], ◌∷◌, ◌++◌, String, Option,
  none, some, ok, err, Error, errorf, Bool-cases, arith, All, codes, append_assoc, if◌then◌else◌,
}
use prov_go.Base.Base64.{base64_decode}
use prov_go.Base.Int.{ℤ, pos, negsuc}
use prov_go.Pool.Json.{Json, text, object, Fields, end, field, digits_of, decimal}
use prov_go.Pool.Text.{marshal, print, utf8_of, utf8, quoted, escape_all, escaped, separated}
use prov_go.Pool.Bytes.{payload, base64_decode-payload}
use prov_go.Pool.Decimal.{IsDigit, digits_of-IsDigit, codes-decimal, value_from, value_from-decimal}
use prov_go.Pool.Forward.{
  withdraw_hook, send_message, build_cw20_send, PoolReceiveRequestMsg, receive_msg_json,
  amount_string, new_cw20_receive_request,
}

-- A digit prints as it is.
escaped-digit : (c : ℕ) → IsDigit c → escaped c ≡ c ∷ []
unfolding escaped
escaped-digit c (low, high) = ground arith

escape_all-digits : (s : List ℕ) → All IsDigit s → escape_all s ≡ s
unfolding escape_all
escape_all-digits [] h = refl
escape_all-digits (c ∷ s) h = rw (escaped-digit c (h.0), escape_all-digits s (h.1)) refl

utf8_of-digit : (c : ℕ) → IsDigit c → utf8_of c ≡ c ∷ []
unfolding utf8_of
utf8_of-digit c (low, high) = ground arith

utf8-digits : (s t : List ℕ) → All IsDigit s → utf8 (s ++ t) ≡ s ++ utf8 t
unfolding utf8
utf8-digits [] t h = refl
utf8-digits (c ∷ s) t h = rw (utf8_of-digit c (h.0), utf8-digits s t (h.1)) refl

marshal-withdraw_hook :
    (n : ℕ)
    → marshal (withdraw_hook (pos n))
      ≡ codes "{\"withdraw\":{\"amount\":\"" ++ (digits_of n n ++ codes "\"}}")
unfolding marshal withdraw_hook print quoted separated escape_all escaped utf8 utf8_of
marshal-withdraw_hook n =
    let digits = digits_of-IsDigit n n (omega arith) in
    rw
      (
        codes-decimal n,
        escape_all-digits (digits_of n n) digits,
        append_assoc,
        append_assoc,
        utf8-digits (digits_of n n) (codes "\"}}") digits,
      )
      refl

-- The value of a key, and the text at the end of a path of keys.
find : String → Fields → Option Json
find k end = none
find k (field j v fs) = if k == j then some v else find k fs

member : String → Option Json → Option Json
unfolding find
member k (some (object fs)) = find k fs
member k _ = none

text_of_json : Option Json → Option String
text_of_json (some (text s)) = some s
text_of_json _ = none

-- A text of the object under "send".
pub send_text : String → Json → Option String
unfolding member text_of_json
send_text k j = text_of_json (member k (member "send" (some j)))

-- The token is to send the positive amount `n` to the pool, with a hook whose bytes are the text
-- `{"withdraw":{"amount":"<n>"}}`, and the two amounts are one text, the decimal text of `n`.
abbrev pub IsForwarded : String → Option ℤ → Json → Type 0
IsForwarded pool amount m =
    (n : ℕ) × (amount ≡ some (pos n))
    × (0 < n)
    × (send_text "contract" m ≡ some pool)
    × (s : String) × (send_text "amount" m ≡ some s)
    × (value_from 0 (codes s) ≡ n)
    × (hook : String) × (send_text "msg" m ≡ some hook)
    × (base64_decode (codes hook)
        ≡ some (codes "{\"withdraw\":{\"amount\":\"" ++ (codes s ++ codes "\"}}")))

abbrev pub IsRefused : String → Option ℤ → Type 0
IsRefused pool amount =
    ((pool == "") ≡ true)
    ⊎ ((amount ≡ none) ⊎ ((amount ≡ some (pos 0)) ⊎ ((k : ℕ) × (amount ≡ some (negsuc k)))))

forwarded :
    (pool : String) (k : ℕ)
    → IsForwarded pool (some (pos (suc k))) (send_message pool (pos (suc k)))
unfolding send_text member find text_of_json
forwarded pool k =
    let n = suc k in
    let hook = withdraw_hook (pos n) in
    (
      n,
      refl,
      omega arith,
      refl,
      decimal (pos n),
      refl,
      value_from-decimal n,
      payload hook,
      refl,
      rw (base64_decode-payload hook, marshal-withdraw_hook n, codes-decimal n) refl,
    )

abbrev empty_pool : Error
empty_pool = errorf "pool: empty pool contract for cw20 send" []

abbrev not_positive : Error
not_positive = errorf "pool: withdraw amount must be positive" []

-- A withdrawal through the token is refused where the pool's address is empty, or the amount is
-- missing or not positive; otherwise the message makes the token send that amount to the pool, and
-- its hook decodes to the text of a withdrawal of that same amount.
pub build_cw20_send_decides :
    (pool : String) (amount : Option ℤ)
    → ((m : Json) × (build_cw20_send pool amount ≡ ok m) × IsForwarded pool amount m)
      ⊎ ((e : Error) × (build_cw20_send pool amount ≡ err e) × IsRefused pool amount)
unfolding build_cw20_send
build_cw20_send_decides pool amount = elim (Bool-cases (pool == "")) [
  | inl nowhere ↦ inr (empty_pool, rw nowhere refl, inl nowhere)
  | inr given ↦
      elim amount
        as (λ (a : Option ℤ).
          ((m : Json) × (build_cw20_send pool a ≡ ok m) × IsForwarded pool a m)
          ⊎ ((e : Error) × (build_cw20_send pool a ≡ err e) × IsRefused pool a)) [
            | none ↦ inr (not_positive, rw given refl, inr (inl refl))
            | some (negsuc k) ↦ inr (not_positive, rw given refl, inr (inr (inr (k, refl))))
            | some (pos zero) ↦ inr (not_positive, rw given refl, inr (inr (inl refl)))
            | some (pos (suc k)) ↦
                inl (send_message pool (pos (suc k)), rw given refl, forwarded pool k)
          ]
]

-- The pool reads from the message of `execute.receive` the text of the inner message, and the amount
-- is the decimal text of the number given.
new_cw20_receive_request-decodes :
    (sender : String) (n : ℕ) (inner : PoolReceiveRequestMsg)
    → let r = new_cw20_receive_request sender (some (pos n)) inner in
      (r.sender ≡ sender)
      × (value_from 0 (codes r.amount) ≡ n)
      × (base64_decode (codes r.msg) ≡ some (marshal (receive_msg_json inner)))
unfolding new_cw20_receive_request amount_string
new_cw20_receive_request-decodes sender n inner =
    (refl, value_from-decimal n, base64_decode-payload (receive_msg_json inner))
