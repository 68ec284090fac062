-- ===== src/Pool/Settings.antt =====
-- What a reader finds in the request to update the contract's configuration, and in a list of collateral
-- assets (pkg/demoprime/pool/messages.go).
use prov_go.Base.{
  ◌≡◌, refl, ap, ◌∙◌, Bool, true, false, inl, inr, Bool-cases, Option, none, some, List, [], ◌∷◌,
  String, ◌==◌,
}
use prov_go.Base.Int.{ℤ}
use prov_go.Pool.Json.{
  Json, text, int, array, Items, nil, cons, Fields, optional, slice_json, decimal,
}
use prov_go.Pool.Messages.{CollateralAssetV1, asset_json, assets_json}
use prov_go.Pool.Requests.{UpdateContractConfigRequest, update_contract_config_request_json}
use prov_go.Pool.Exec.{ContractConfig, amount_text}
use prov_go.Pool.Sent.{find, at, text_of_json, text_at, Amounts, read_json-decimal}

-- The value under a key that may be absent, or what is found further on.
or_later : Bool → Option Json → Option Json → Option Json
or_later true (some v) later = some v
or_later true none later = later
or_later false _ later = later

in_json {ℓ} : {A : Type ℓ} → (A → Json) → Option A → Option Json
in_json f none = none
in_json f (some a) = some (f a)

find-optional {ℓ} :
    {A : Type ℓ} (k j : String) (f : A → Json) (o : Option A) (rest : Fields)
    → find k (optional j f o rest) ≡ or_later (k == j) (in_json f o) (find k rest)
unfolding find optional or_later in_json
find-optional k j f none rest = elim (Bool-cases (k == j)) [ inl e ↦ rw e refl | inr e ↦ rw e refl ]
find-optional k j f (some a) rest = elim (Bool-cases (k == j)) [
  | inl e ↦ rw e refl
  | inr e ↦ rw e refl
]

text_of_json-in_json : (o : Option String) → text_of_json (in_json text o) ≡ o
unfolding text_of_json in_json
text_of_json-in_json none = refl
text_of_json-in_json (some s) = refl

own : (o : Option Json) → or_later true o none ≡ o
unfolding or_later
own none = refl
own (some v) = refl

ruleset lookup = (find-optional, text_of_json-in_json, own)

unfoldable pub int_of_json : Option Json → Option ℤ
int_of_json (some (int i)) = some i
int_of_json _ = none

int_of_json-in_json : (o : Option ℤ) → int_of_json (in_json int o) ≡ o
unfolding int_of_json in_json
int_of_json-in_json none = refl
int_of_json-in_json (some i) = refl

-- An amount that is left out, or a text that holds it.
abbrev pub OptionalAmount : Option ℤ → Option String → Type 0
OptionalAmount none o = o ≡ none
OptionalAmount (some i) o = (s : String) × (o ≡ some s) × Amounts (some i) s

amount_text-OptionalAmount : (o : Option ℤ) → OptionalAmount o (amount_text o)
amount_text-OptionalAmount none = refl
amount_text-OptionalAmount (some i) = (decimal i, refl, read_json-decimal i)

abbrev pub AsksConfig : ContractConfig → Json → Type 0
AsksConfig c body =
    (text_at "liquidation_bonus_rate" body ≡ c.liquidation_bonus_rate)
    × (text_at "liquidation_rate" body ≡ c.liquidation_rate)
    × (text_at "margin_rate" body ≡ c.margin_rate)
    × (int_of_json (at "max_borrower_collateral_types" body) ≡ c.max_borrower_collateral_types)
    × OptionalAmount c.min_borrow (text_at "min_borrow" body)
    × OptionalAmount c.min_lend (text_at "min_lend" body)
    × (text_at "price_oracle_address" body ≡ c.price_oracle_address)

-- The request that `execUpdateContractConfig` makes.
abbrev pub config_request : ContractConfig → UpdateContractConfigRequest
config_request c = record {
  liquidation_bonus_rate = c.liquidation_bonus_rate;
  liquidation_rate = c.liquidation_rate;
  margin_rate = c.margin_rate;
  max_borrower_collateral_types = c.max_borrower_collateral_types;
  min_borrow = amount_text (c.min_borrow);
  min_lend = amount_text (c.min_lend);
  price_oracle_address = c.price_oracle_address;
}

pub config-Asks :
    (c : ContractConfig) → AsksConfig c (update_contract_config_request_json (config_request c))
unfolding at text_at find or_later
config-Asks c = (
  simp lookup,
  simp lookup,
  simp lookup,
  simp (lookup, int_of_json-in_json),
  simp lookup (amount_text-OptionalAmount c.min_borrow),
  simp lookup (amount_text-OptionalAmount c.min_lend),
  simp lookup,
)

asset_with : Option String → Option String → Option CollateralAssetV1
asset_with none haircut = none
asset_with (some id) haircut = some (record { id = id; haircut = haircut })

add_asset :
    Option CollateralAssetV1 → Option (List CollateralAssetV1) → Option (List CollateralAssetV1)
add_asset (some a) (some more) = some (a ∷ more)
add_asset _ _ = none

asset_of : Json → Option CollateralAssetV1
unfolding asset_with text_at
asset_of j = asset_with (text_at "id" j) (text_at "h" j)

assets_of_items : Items → Option (List CollateralAssetV1)
unfolding add_asset asset_of
assets_of_items nil = some []
assets_of_items (cons x xs) = add_asset (asset_of x) (assets_of_items xs)

unfoldable pub assets_of_json : Option Json → Option (List CollateralAssetV1)
unfolding assets_of_items
assets_of_json (some (array xs)) = assets_of_items xs
assets_of_json _ = none

asset_of-asset_json : (a : CollateralAssetV1) → asset_of (asset_json a) ≡ some a
unfolding asset_of asset_json asset_with at text_at find text_of_json or_later
asset_of-asset_json a = simp lookup

assets_of_items-assets_json :
    (assets : List CollateralAssetV1) → assets_of_items (assets_json assets) ≡ some assets
unfolding assets_of_items assets_json add_asset
assets_of_items-assets_json [] = refl
assets_of_items-assets_json (a ∷ more) =
    ap (λ o. add_asset o (assets_of_items (assets_json more))) (asset_of-asset_json a)
    ∙ ap (add_asset (some a)) (assets_of_items-assets_json more)

pub assets_of_json-slice :
    (o : Option (List CollateralAssetV1)) → assets_of_json (some (slice_json assets_json o)) ≡ o
unfolding assets_of_json
assets_of_json-slice none = refl
assets_of_json-slice (some assets) = assets_of_items-assets_json assets
