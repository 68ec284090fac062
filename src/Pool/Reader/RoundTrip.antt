-- ===== src/Pool/Reader/RoundTrip.antt =====
-- The text of `json.Marshal` (Pool/Text) determines its value: the reader gives it back.
use prov_go.Base.{
  ℕ, zero, suc, ◌+◌, ◌*◌, ◌≤◌, ◌≡◌, refl, ◌∙◌, Bool, true, false, String, List, [], ◌∷◌, ◌++◌, some,
  arith, length, append_assoc, append-nil,
}
use prov_go.Pool.Json.{
  Json, null, text, int, bool, array, object, Items, nil, cons, Fields, end, field,
}
use prov_go.Pool.Text.{print, print_items, print_fields, quoted}
use prov_go.Pool.Reader.{
  read_value, read_items, next_item, more_items, read_fields, next_field, more_fields, read_json,
  after_word,
}
use prov_go.Pool.Reader.Numbers.{Ends, read_value-int}
use prov_go.Pool.Reader.Texts.{read_text-escape_all}
use prov_go.Pool.Reader.Commas.{
  Opens, length-Opens, length-commas, length-commas_le, length-print_array, length-field_commas,
  length-field_commas_le, length-print_object, print-Opens, commas, field_commas, print_items-Opens,
  print_items-cons, print_fields-field, print_fields-Opens, commas-Ends, field_commas-Ends,
}

-- With fuel from the bound on, `read` takes the value off the front of a text.
abbrev ReadsValue : Json → Type 0
ReadsValue j =
    (rest : List ℕ) (f : ℕ)
    → Ends rest
    → 3 * length (print j) ≤ f
    → read_value f (print j ++ rest) ≡ some (j, rest)

abbrev ReadsItems : Items → Type 0
ReadsItems xs =
    (rest : List ℕ) (f : ℕ)
    → 3 * length (commas xs) + 1 ≤ f
    → more_items f (commas xs ++ b']' ∷ rest) ≡ some (xs, rest)

abbrev ReadsFields : Fields → Type 0
ReadsFields fs =
    (rest : List ℕ) (f : ℕ)
    → 3 * length (field_commas fs) + 1 ≤ f
    → more_fields f (field_commas fs ++ b'}' ∷ rest) ≡ some (fs, rest)

-- Fuel of at least one is a successor.
spend {ℓ} : (P : ℕ → Type ℓ) → ((f : ℕ) → P (suc f)) → (f : ℕ) → 1 ≤ f → P f
spend P k zero h = absurd (omega arith)
spend P k (suc f) h = k f

read_items-next :
    (t rest : List ℕ) (f : ℕ) → Opens t → read_items (suc f) (t ++ rest) ≡ next_item f (t ++ rest)
unfolding read_items
read_items-next t rest f (c, s, e, h) = rw (e, read_items, h.0) refl

read_items-print_items :
    (xs : Items) (rest : List ℕ) (f : ℕ)
    → ReadsItems xs
    → 3 * length (commas xs) + 1 ≤ suc f
    → read_items (suc f) (print_items xs ++ b']' ∷ rest) ≡ some (xs, rest)
unfolding read_items more_items print_items commas
read_items-print_items nil rest f reads h = refl
read_items-print_items (cons x xs) rest f reads h =
    read_items-next (print_items (cons x xs)) (b']' ∷ rest) f (print_items-Opens x xs)
    ∙ reads rest (suc f) h

next_item-read :
    (x : Json) (xs : Items) (rest : List ℕ) (f : ℕ)
    → ReadsValue x
    → ReadsItems xs
    → 3 * length (print x) ≤ f
    → 3 * length (commas xs) + 1 ≤ f
    → next_item (suc f) (print_items (cons x xs) ++ b']' ∷ rest) ≡ some (cons x xs, rest)
unfolding next_item
next_item-read x xs rest f reads more h h' =
    rw
      (
        print_items-cons x xs,
        append_assoc (print x) (commas xs) (b']' ∷ rest),
        reads (commas xs ++ b']' ∷ rest) f (commas-Ends xs rest) h,
        more rest f h',
      )
      refl

read_fields-next :
    (t rest : List ℕ) (f : ℕ) → Opens t → read_fields (suc f) (t ++ rest) ≡ next_field f (t ++ rest)
unfolding read_fields
read_fields-next t rest f (c, s, e, h) = rw (e, read_fields, h.1) refl

read_fields-print_fields :
    (fs : Fields) (rest : List ℕ) (f : ℕ)
    → ReadsFields fs
    → 3 * length (field_commas fs) + 1 ≤ suc f
    → read_fields (suc f) (print_fields fs ++ b'}' ∷ rest) ≡ some (fs, rest)
unfolding read_fields more_fields print_fields field_commas
read_fields-print_fields end rest f reads h = refl
read_fields-print_fields (field k v fs) rest f reads h =
    read_fields-next (print_fields (field k v fs)) (b'}' ∷ rest) f (print_fields-Opens k v fs)
    ∙ reads rest (suc f) h

next_field-read :
    (k : String) (v : Json) (fs : Fields) (rest : List ℕ) (f : ℕ)
    → ReadsValue v
    → ReadsFields fs
    → 3 * length (print v) ≤ f
    → 3 * length (field_commas fs) + 1 ≤ f
    → next_field (suc f) (print_fields (field k v fs) ++ b'}' ∷ rest) ≡ some (field k v fs, rest)
unfolding next_field quoted after_word
next_field-read k v fs rest f reads more h h' =
    rw
      (
        print_fields-field k v fs,
        append_assoc,
        append_assoc,
        append_assoc,
        read_text-escape_all,
        reads (field_commas fs ++ b'}' ∷ rest) f (field_commas-Ends fs rest) h,
        more rest f h',
      )
      refl

array-Reads : (xs : Items) → ReadsItems xs → ReadsValue (array xs)
unfolding read_value print
array-Reads xs ih rest zero ends h = absurd (omega (arith, length-Opens _ (print-Opens (array xs))))
array-Reads xs ih rest (suc zero) ends h =
    absurd (omega (arith, length-Opens _ (print-Opens (array xs))))
array-Reads xs ih rest (suc (suc f)) ends h =
    rw
      (
        append_assoc (print_items xs) (b']' ∷ []) rest,
        read_items-print_items xs rest f ih
            (omega (arith, length-print_array xs, length-commas_le xs)),
      )
      refl

object-Reads : (fs : Fields) → ReadsFields fs → ReadsValue (object fs)
unfolding read_value print
object-Reads fs ih rest zero ends h =
    absurd (omega (arith, length-Opens _ (print-Opens (object fs))))
object-Reads fs ih rest (suc zero) ends h =
    absurd (omega (arith, length-Opens _ (print-Opens (object fs))))
object-Reads fs ih rest (suc (suc f)) ends h =
    rw
      (
        append_assoc (print_fields fs) (b'}' ∷ []) rest,
        read_fields-print_fields fs rest f ih
            (omega (arith, length-print_object fs, length-field_commas_le fs)),
      )
      refl

cons-Reads : (x : Json) (xs : Items) → ReadsValue x → ReadsItems xs → ReadsItems (cons x xs)
unfolding more_items commas
cons-Reads x xs ih ihs rest zero h = absurd (omega arith)
cons-Reads x xs ih ihs rest (suc zero) h = absurd (omega arith)
cons-Reads x xs ih ihs rest (suc (suc f)) h =
    next_item-read x xs rest f ih ihs (omega (arith, length-commas x xs))
      (omega (arith, length-commas x xs))

field-Reads :
    (k : String) (v : Json) (fs : Fields)
    → ReadsValue v
    → ReadsFields fs
    → ReadsFields (field k v fs)
unfolding more_fields field_commas
field-Reads k v fs ih ihs rest zero h = absurd (omega arith)
field-Reads k v fs ih ihs rest (suc zero) h = absurd (omega arith)
field-Reads k v fs ih ihs rest (suc (suc f)) h =
    next_field-read k v fs rest f ih ihs (omega (arith, length-field_commas k v fs))
      (omega (arith, length-field_commas k v fs))

-- A value whose reader only takes one unit of fuel.
at_once :
    (j : Json)
    → ((rest : List ℕ) (f : ℕ) → Ends rest → read_value (suc f) (print j ++ rest) ≡ some (j, rest))
    → ReadsValue j
at_once j reads rest f ends h =
    spend (λ n. read_value n (print j ++ rest) ≡ some (j, rest)) (λ g. reads rest g ends) f
      (omega (arith, length-Opens _ (print-Opens j)))

text-read :
    (s : String) (rest : List ℕ) (f : ℕ)
    → read_value (suc f) (print (text s) ++ rest) ≡ some (text s, rest)
unfolding read_value print quoted
text-read s rest f = rw (append_assoc, read_text-escape_all) refl

bool-read :
    (b : Bool) (rest : List ℕ) (f : ℕ)
    → read_value (suc f) (print (bool b) ++ rest) ≡ some (bool b, rest)
unfolding read_value print
bool-read true rest f = refl
bool-read false rest f = refl

print-Reads : (j : Json) → ReadsValue j
unfolding read_value print more_items commas more_fields field_commas
print-Reads j = elim j as ReadsValue ReadsItems ReadsFields [
  | null ↦ at_once null (λ rest f ends. refl)
  | text s ↦ at_once (text s) (λ rest f ends. text-read s rest f)
  | int i ↦ at_once (int i) (λ rest f ends. read_value-int i rest f ends)
  | bool b ↦ at_once (bool b) (λ rest f ends. bool-read b rest f)
  | array (xs → ih) ↦ array-Reads xs ih
  | object (fs → ih) ↦ object-Reads fs ih
  | nil ↦ λ rest f h.
      spend (λ n. more_items n (b']' ∷ rest) ≡ some (nil, rest)) (λ g. refl) f (omega arith)
  | cons (x → ih) (xs → ihs) ↦ cons-Reads x xs ih ihs
  | end ↦ λ rest f h.
      spend (λ n. more_fields n (b'}' ∷ rest) ≡ some (end, rest)) (λ g. refl) f (omega arith)
  | field k (v → ih) (fs → ihs) ↦ field-Reads k v fs ih ihs
]

-- The reader gives back the value whose text `json.Marshal` prints.
pub read_json-print : (j : Json) → read_json (print j) ≡ some j
unfolding read_json
read_json-print j =
    let all = print-Reads j [] (3 * length (print j)) tt (omega arith) in
    rw (rw append-nil at all) refl
