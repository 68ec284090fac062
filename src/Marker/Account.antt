-- ===== src/Marker/Account.antt =====
-- What `GetAccountValue` (pkg/provenance/marker.go) makes of one balance. The queries of the node
-- and the metadata module's identifiers are parameters. A scope id is its code points.
use prov_go.Base.{
  ℕ, ◌+◌, String, ◌==◌, Option, none, some, List, [], ◌∷◌, ◌++◌, Result, ok, err, panic, errorf,
  str, codes, has_prefix, nat_eq, ◌>>=◌, if◌then◌else◌, wrap_err,
}
use prov_go.Platform.{Platform, Bytes}
use prov_go.Client.Monad.{Action, call}

-- `sdk.Coin`; its amount is not negative.
pub record Coin : Type 0 where
  pub denom : String
  pub amount : ℕ

pub record NftAccount : Type 0 where
  pub denom : List ℕ
  pub nav : Coin
  pub uuid : String
  pub updated_block_height : ℕ

pub record AccountValue : Type 0 where
  pub address : String
  pub total : Coin
  pub nfts : List NftAccount

-- The answer of `GetNAV`: the price of a scope and its height, if it has one.
pub record Nav : Type 0 where
  pub price : Coin
  pub updated_block_height : ℕ

pub record Scopes : Type 0 where
  pub get_nav : List ℕ → Result (Option Nav)
  pub parse_scope_id : List ℕ → Result Bytes
  pub scope_uuid : Bytes → Result String

-- `strings.Split(s, "/")`: the first part, and those after it.
abbrev onto : ℕ → List (List ℕ) → List (List ℕ)
onto c [] = (c ∷ []) ∷ []
onto c (part ∷ parts) = (c ∷ part) ∷ parts

unfoldable pub split_slash : List ℕ → List (List ℕ)
split_slash [] = [] ∷ []
split_slash (c ∷ s) =
    let parts = split_slash s in if nat_eq c b'/' then [] ∷ parts else onto c parts

abbrev pub second_of_two : List (List ℕ) → Option (List ℕ)
second_of_two (a ∷ b ∷ []) = some b
second_of_two _ = none

-- The scope of a balance that is an NFT.
unfoldable pub scope_of : Coin → Option (List ℕ)
unfolding has_prefix split_slash
scope_of balance =
    if has_prefix (codes balance.denom) (codes "nft")
    then second_of_two (split_slash (codes balance.denom))
    else none

abbrev pub or_free : Option Nav → Nav
or_free none = record { price = record { denom = "usd"; amount = 0 }; updated_block_height = 0 }
or_free (some nav) = nav

-- The body of a job, up to its send. It panics on an error.
unfoldable pub ask : Scopes → List ℕ → Result NftAccount
ask S scope = do
  nav ← S.get_nav scope
  address ← S.parse_scope_id scope
  uuid ← S.scope_uuid address
  ok (record {
    denom = scope;
    nav = (or_free nav).price;
    uuid = uuid;
    updated_block_height = (or_free nav).updated_block_height;
  })

-- What a job sends. The pool recovers the panic of a job, whose deferred call runs: it sends nothing.
unfoldable pub run_job : Scopes → List ℕ → List NftAccount
unfolding ask
run_job S scope = elim (ask S scope) [
  | ok nft ↦ if nft.nav.denom == "usd" then nft ∷ [] else []
  | err e ↦ []
  | panic s ↦ []
]

unfoldable pub value_of : Scopes → Coin → List NftAccount
unfolding scope_of run_job
value_of S balance = elim (scope_of balance) [ none ↦ [] | some scope ↦ run_job S scope ]

unfoldable pub values : Scopes → List Coin → List NftAccount
unfolding value_of
values S [] = []
values S (balance ∷ balances) = value_of S balance ++ values S balances

-- The sum before any result, and after one more. Every price sent is in usd, so `Add` does not panic.
abbrev pub no_value : String → AccountValue
no_value address = record {
  address = address;
  total = record { denom = "usd"; amount = 0 };
  nfts = [];
}

unfoldable pub add_nft : AccountValue → NftAccount → AccountValue
add_nft v nft = record v {
  total = record (v.total) { amount = v.total.amount + nft.nav.amount };
  nfts = v.nfts ++ nft ∷ [];
}

-- `GetMarker` and `GetMarkerAddress`: the query, the unpacking of its `Any`, and the address of the
-- account are parameters. The value returned is never nil where there is no error.
module _ (P : Platform) {Packed Account : Type 0}
    (query : String → P.State → Result Packed × P.State) (unpack : Packed → Result Account)
    (address_of : Account → String) where
  unfoldable pub get_marker : String → Action P Account
  get_marker denom_or_address w =
      let (found, w') = call (query denom_or_address) w in
      (found >>= λ packed. wrap_err "error unpacking marker account: %w" (unpack packed), w')

  abbrev marker_address : String → Result Account → Result String
  marker_address denom (ok account) = ok (address_of account)
  marker_address denom (err e) = err (errorf "no cached value for %s" (str denom ∷ []))
  marker_address denom (panic s) = panic s

  unfoldable pub get_marker_address : String → Action P String
  unfolding get_marker
  get_marker_address denom w = let (r, w') = get_marker denom w in (marker_address denom r, w')
