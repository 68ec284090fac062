-- ===== src/Pool/Sent.antt =====
-- What the pool's contract finds in a message (pkg/demoprime/pool/messages.go): texts, numbers, lists and
-- maps by their keys.
use prov_go.Base.{
  ◌≡◌, refl, Bool, Option, none, some, List, [], ◌∷◌, String, ◌==◌, codes, if◌then◌else◌,
}
use prov_go.Base.Int.{ℤ, pos}
use prov_go.Pool.Json.{
  Json, text, int, bool, array, object, Items, nil, cons, Fields, end, field, texts, text_map,
  slice_json, decimal,
}
use prov_go.Pool.Text.{print}
use prov_go.Pool.Messages.{big_string, Cw20ReceiveRequestV1}
use prov_go.Pool.Exec.{written}
use prov_go.Pool.Reader.{read_json}
use prov_go.Pool.Reader.RoundTrip.{read_json-print}

unfoldable pub find : String → Fields → Option Json
find k end = none
find k (field j v fs) = if k == j then some v else find k fs

-- The value of a key, and that value where it is a text, a Boolean or a number.
unfoldable pub at : String → Json → Option Json
unfolding find
at k (object fs) = find k fs
at k _ = none

unfoldable pub text_of_json : Option Json → Option String
text_of_json (some (text s)) = some s
text_of_json _ = none

unfoldable pub text_at : String → Json → Option String
unfolding at text_of_json
text_at k j = text_of_json (at k j)

unfoldable pub bool_of_json : Option Json → Option Bool
bool_of_json (some (bool b)) = some b
bool_of_json _ = none

unfoldable add_text : Json → Option (List String) → Option (List String)
add_text (text s) (some ss) = some (s ∷ ss)
add_text _ _ = none

unfoldable texts_of_items : Items → Option (List String)
unfolding add_text
texts_of_items nil = some []
texts_of_items (cons x xs) = add_text x (texts_of_items xs)

unfoldable pub texts_of_json : Option Json → Option (List String)
unfolding texts_of_items
texts_of_json (some (array xs)) = texts_of_items xs
texts_of_json _ = none

texts_of_items-texts : (ss : List String) → texts_of_items (texts ss) ≡ some ss
unfolding texts_of_items texts add_text
texts_of_items-texts [] = refl
texts_of_items-texts (s ∷ ss) = rw (texts_of_items-texts ss) refl

pub texts_of_json-slice : (o : Option (List String)) → texts_of_json (some (slice_json texts o)) ≡ o
unfolding texts_of_json
texts_of_json-slice none = refl
texts_of_json-slice (some ss) = texts_of_items-texts ss

-- A text that holds an amount: the number, in decimal; a missing one counts as 0.
abbrev pub Amounts : Option ℤ → String → Type 0
Amounts none s = read_json (codes s) ≡ some (int (pos 0))
Amounts (some i) s = read_json (codes s) ≡ some (int i)

pub read_json-decimal : (i : ℤ) → read_json (codes (decimal i)) ≡ some (int i)
unfolding print
read_json-decimal i = read_json-print (int i)

pub big_string-Amounts : (amount : Option ℤ) → Amounts amount (big_string amount)
unfolding big_string
big_string-Amounts none = read_json-decimal (pos 0)
big_string-Amounts (some i) = read_json-decimal i

unfoldable add_entry :
    String → Json → Option (List (String × String)) → Option (List (String × String))
add_entry k (text s) (some es) = some ((k, s) ∷ es)
add_entry k _ _ = none

unfoldable pub entries_of_fields : Fields → Option (List (String × String))
unfolding add_entry
entries_of_fields end = some []
entries_of_fields (field k v fs) = add_entry k v (entries_of_fields fs)

unfoldable pub entries_of_json : Option Json → Option (List (String × String))
unfolding entries_of_fields
entries_of_json (some (object fs)) = entries_of_fields fs
entries_of_json _ = none

pub entries_of_fields-text_map :
    (m : List (String × String)) → entries_of_fields (text_map m) ≡ some m
unfolding entries_of_fields text_map add_entry
entries_of_fields-text_map [] = refl
entries_of_fields-text_map ((k, s) ∷ m) = rw (entries_of_fields-text_map m) refl

-- A map of texts that holds these amounts.
abbrev pub AllAmounts : List (String × Option ℤ) → List (String × String) → Type 0
AllAmounts [] [] = Unit
AllAmounts [] (_ ∷ _) = ⊥
AllAmounts (_ ∷ _) [] = ⊥
AllAmounts ((k, amount) ∷ m) ((j, s) ∷ es) = (k ≡ j) × (Amounts amount s × AllAmounts m es)

pub written-AllAmounts : (m : List (String × Option ℤ)) → AllAmounts m (written m)
written-AllAmounts [] = tt
written-AllAmounts ((k, amount) ∷ m) = (refl, (big_string-Amounts amount, written-AllAmounts m))

abbrev pub AmountsAt : String → List (String × Option ℤ) → Json → Type 0
AmountsAt k m body =
    (es : List (String × String)) × (entries_of_json (at k body) ≡ some es) × AllAmounts m es

-- A withdrawal without an amount has no such field.
abbrev pub AsksWithdrawal : String → Option ℤ → Json → Type 0
AsksWithdrawal lender none body = (text_at "lender" body ≡ some lender) × (at "amount" body ≡ none)
AsksWithdrawal lender (some i) body =
    (text_at "lender" body ≡ some lender)
    × ((s : String) × (text_at "amount" body ≡ some s) × Amounts (some i) s)

abbrev pub AsksReceive : Cw20ReceiveRequestV1 → Json → Type 0
AsksReceive msg body =
    (text_at "sender" body ≡ some (msg.sender))
    × (text_at "amount" body ≡ some (msg.amount))
    × (text_at "msg" body ≡ some (msg.msg))

abbrev pub AsksBorrow : Option ℤ → Json → Type 0
AsksBorrow amount body = (s : String) × (text_at "amount" body ≡ some s) × Amounts amount s
