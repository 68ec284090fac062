-- ===== src/Contract/Store.antt =====
-- Storing code and creating a contract (pkg/demoprime/contract/store_instantiate.go). The messages of
-- CosmWasm and the compression are parameters.
use prov_go.Base.{
  ℕ, ◌+◌, ◌-◌, ◌*◌, ◌^◌, ◌<◌, ◌≡◌, Bool, ◌&&◌, String, ◌==◌, Option, some, List, [], ◌∷◌, Result,
  ok, err, panic, false, append-nil, Bool-cases, inl, inr, sym, ap, ◌∙◌, eq_iff, Error, errorf,
  wrapf, str, codes, leb, ltb, or_err, arith, if◌then◌else◌,
}
use prov_go.Platform.{Platform, Bytes, TxResponse}
use prov_go.Client.Monad.{Action, ◌>>=◌, lift, gets, wrapping}
use prov_go.Client.Submit.{require_signer, broadcast_msgs}
use prov_go.Pool.Wasm.{to_result}
use prov_go.Base.Int.{pos}
use prov_go.Pool.Json.{decimal, digits_of}
use prov_go.Pool.Decimal.{codes-decimal, digits_of-nonempty, read-digits_of}
use prov_go.Contract.Attrs.{tx_response_first_attribute}

-- The loop of `strconv.ParseUint(s, 10, 64)` over the characters that are left.
unfoldable pub parse_digits : String → ℕ → List ℕ → Result ℕ
parse_digits s n [] = ok n
parse_digits s n (c ∷ cs) =
    let m = n * 10 + (c - b'0') in
    let more = parse_digits s m cs in
    if (leb b'0' c && leb c b'9')
    then (if ltb m (2 ^ 64)
        then more
        else err (errorf "strconv.ParseUint: parsing %q: value out of range" (str s ∷ [])))
    else err (errorf "strconv.ParseUint: parsing %q: invalid syntax" (str s ∷ []))

unfoldable pub parse_uint : String → Result ℕ
unfolding parse_digits
parse_uint s =
    if s == ""
    then err (errorf "strconv.ParseUint: parsing %q: invalid syntax" (str s ∷ []))
    else parse_digits s 0 (codes s)

unfoldable pub code_id_of : String → Result ℕ
code_id_of raw = elim (parse_uint raw) [
  | ok id ↦ ok id
  | err e ↦ err (wrapf "demoprime/contract: parse code_id %q: %w" (str raw ∷ []) e)
  | panic s ↦ panic s
]

pub record Store (P : Platform) : Type 0 where
  pub store_code : (sender : String) → Bytes → P.Msg
  pub instantiate : (sender admin : String) → ℕ → Bytes → (label : String) → Option P.Coins → P.Msg
  pub gzip : Bytes → Result Bytes

module _ (P : Platform) (S : Store P) where
  abbrev pub executed : List P.Msg → Action P TxResponse
  executed msgs w = let (r, w') = broadcast_msgs P msgs w in (to_result r, w')

  -- The value of an attribute of an executed transaction.
  abbrev pub attribute : String → Error → TxResponse → Action P String
  attribute key missing t = lift (or_err (tx_response_first_attribute (some t) key) missing)

  abbrev pub payload_of : Bytes → Bool → Action P Bytes
  payload_of bytecode compress =
      if compress
      then wrapping "demoprime/contract: gzip wasm: %w" (lift (S.gzip bytecode))
      else lift (ok bytecode)

  abbrev pub read_code_id : TxResponse → Action P ℕ
  read_code_id t = do
    raw ← attribute "code_id" (errorf "demoprime/contract: no code_id in tx response" []) t
    lift (code_id_of raw)

  abbrev pub send_code : Bytes → Action P ℕ
  send_code payload = do
    sender ← gets (λ c. c.address)
    t ← executed (S.store_code sender payload ∷ [])
    read_code_id t

  unfoldable pub store_wasm : Bytes → Bool → Action P ℕ
  store_wasm bytecode compress = do
    key ← require_signer P
    payload ← payload_of bytecode compress
    send_code payload

  -- An empty admin is the sender.
  abbrev pub send_instantiate :
      ℕ → Bytes → (label admin : String) → Option P.Coins → Action P TxResponse
  send_instantiate code_id init_msg label admin funds = do
    sender ← gets (λ c. c.address)
    let owner = if admin == "" then sender else admin
    executed (S.instantiate sender owner code_id init_msg label funds ∷ [])

  unfoldable pub instantiate_contract :
      ℕ → Bytes → (label admin : String) → Option P.Coins → Action P String
  instantiate_contract code_id init_msg label admin funds = do
    key ← require_signer P
    t ← send_instantiate code_id init_msg label admin funds
    attribute "_contract_address"
        (errorf "demoprime/contract: no _contract_address in tx response" []) t

parse_digits_bound :
    (s : String) (n : ℕ) (cs : List ℕ) (id : ℕ)
    → n < 2 ^ 64
    → parse_digits s n cs ≡ ok id
    → id < 2 ^ 64
unfolding parse_digits
parse_digits_bound s n [] id h e = ground arith
parse_digits_bound s n (c ∷ cs) id h e =
    ground (arith, parse_digits_bound s (n * 10 + (c - b'0')) cs id)

pub code_id_of_bound : (raw : String) (id : ℕ) → code_id_of raw ≡ ok id → id < 2 ^ 64
unfolding code_id_of parse_uint
code_id_of_bound raw id e = ground (arith, parse_digits_bound raw 0 (codes raw) id)

parse_digits-step :
    (s : String) (n d : ℕ) (cs : List ℕ)
    → d < 10
    → n * 10 + d < 2 ^ 64
    → parse_digits s n ((b'0' + d) ∷ cs) ≡ parse_digits s (n * 10 + d) cs
unfolding parse_digits
parse_digits-step s n d cs h fits = let same : b'0' + d - b'0' ≡ d = omega arith in ground arith

decimal-nonempty : (n : ℕ) → (decimal (pos n) == "") ≡ false
decimal-nonempty n = elim (Bool-cases (decimal (pos n) == "")) [
  | inl e ↦ absurd (
      digits_of-nonempty n n (sym (codes-decimal n) ∙ ap codes ((eq_iff (decimal (pos n)) "").0 e)))
  | inr e ↦ e
]

code_id_of_read :
    (s : String) (n : ℕ)
    → (s == "") ≡ false
    → parse_digits s 0 (codes s) ≡ ok n
    → code_id_of s ≡ ok n
unfolding code_id_of parse_uint
code_id_of_read s n given read = ground arith

-- The code id that the chain prints for a number below 2 ^ 64 is read as that number.
code_id_of-decimal : (n : ℕ) → n < 2 ^ 64 → code_id_of (decimal (pos n)) ≡ ok n
unfolding parse_digits
code_id_of-decimal n h =
    let s = decimal (pos n) in
    let read : parse_digits s 0 (codes s) ≡ ok n =
      rw (codes-decimal n, ← append-nil (digits_of n n))
        (read-digits_of (parse_digits s) (λ m. m < 2 ^ 64) (λ m k le lt. omega arith)
          (parse_digits-step s) n n [] (omega arith) h) in
    code_id_of_read (decimal (pos n)) n (decimal-nonempty n) read
