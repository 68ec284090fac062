-- ===== src/Pool/Json.antt =====
-- What `json.Marshal` is given: the value that its text stands for. A struct is its fields in order;
-- a field with `omitempty` and no value is left out. A map is its entries in the order of their
-- keys, which is the order of the text.
use prov_go.Base.{
  ℕ, zero, suc, ◌/◌, ◌%◌, Bool, String, Option, none, some, List, [], ◌∷◌, ltb, if◌then◌else◌, ◌+◌,
  ◌++◌,
}
use prov_go.Base.Ascii.{text_of}
use prov_go.Base.Int.{ℤ, pos, negsuc}

mutual
  pub data Json : Type 0 where
    null : Json
    text : String → Json
    int : ℤ → Json
    bool : Bool → Json
    array : Items → Json
    object : Fields → Json

  pub data Items : Type 0 where
    nil : Items
    cons : Json → Items → Items

  pub data Fields : Type 0 where
    end : Fields
    field : String → Json → Fields → Fields

abbrev pub empty_object_json : Json
empty_object_json = object end

-- A field with `omitempty`.
unfoldable pub optional {ℓ} : {A : Type ℓ} → String → (A → Json) → Option A → Fields → Fields
optional name f none rest = rest
optional name f (some a) rest = field name (f a) rest

-- A slice that may be nil, which is `null`.
abbrev pub slice_json {ℓ} : {A : Type ℓ} → (List A → Items) → Option (List A) → Json
slice_json f none = null
slice_json f (some xs) = array (f xs)

unfoldable pub texts : List String → Items
texts [] = nil
texts (s ∷ ss) = cons (text s) (texts ss)

unfoldable pub text_map : List (String × String) → Fields
text_map [] = end
text_map ((k, v) ∷ m) = field k (text v) (text_map m)

-- The digits of `n`, given at least as many rounds as it has digits.
unfoldable pub digits_of : ℕ → ℕ → List ℕ
digits_of zero n = (b'0' + n) ∷ []
digits_of (suc f) n =
    let more = digits_of f (n / 10) ++ (b'0' + n % 10) ∷ [] in
    if ltb n 10 then (b'0' + n) ∷ [] else more

-- `(*big.Int).String`
unfoldable pub decimal : ℤ → String
unfolding digits_of text_of
decimal (pos n) = text_of (digits_of n n)
decimal (negsuc n) = text_of (b'-' ∷ digits_of (suc n) (suc n))
