-- ===== src/Pool/Reader/Commas.antt =====
-- How the texts of arrays and objects (Pool/Text) are made of those of their parts.
use prov_go.Base.{
  ℕ, suc, ◌+◌, ◌≤◌, ◌≡◌, ◌≢◌, refl, ap, true, false, String, List, [], ◌∷◌, ◌++◌, arith, codes,
  length, length-append, append-nil, nat_eq,
}
use prov_go.Base.Int.{pos, negsuc}
use prov_go.Pool.Json.{
  Json, null, text, int, bool, array, object, Items, nil, cons, Fields, end, field,
}
use prov_go.Pool.Decimal.{IsDigit, codes-decimal, codes-decimal_negsuc}
use prov_go.Pool.Text.{print, print_items, print_fields, separated, quoted, escape_all}
use prov_go.Pool.Reader.{is_digit}
use prov_go.Pool.Reader.Numbers.{Ends, digits_of-head}

-- No value's text is empty, or starts with a closing bracket or brace.
abbrev pub Begins : ℕ → Type 0
Begins c = (nat_eq c b']' ≡ false) × (nat_eq c b'}' ≡ false)

abbrev pub Opens : List ℕ → Type 0
Opens t = (c : ℕ) × (s : List ℕ) × (t ≡ c ∷ s) × Begins c

digit_opens : (c : ℕ) → IsDigit c → Begins c
digit_opens c (low, high) = (ground arith, ground arith)

pub print-Opens : (j : Json) → Opens (print j)
unfolding print
print-Opens null = (b'n', codes "ull", refl, (refl, refl))
print-Opens (text s) = (b'"', escape_all (codes s) ++ b'"' ∷ [], refl, (refl, refl))
print-Opens (int (pos n)) =
    let (c, s, e, is) = digits_of-head n n (omega arith) in
    (c, s, rw (codes-decimal n, e) refl, digit_opens c is)
print-Opens (int (negsuc n)) = (b'-', _, codes-decimal_negsuc n, (refl, refl))
print-Opens (bool true) = (b't', codes "rue", refl, (refl, refl))
print-Opens (bool false) = (b'f', codes "alse", refl, (refl, refl))
print-Opens (array xs) = (b'[', print_items xs ++ b']' ∷ [], refl, (refl, refl))
print-Opens (object fs) = (b'{', print_fields fs ++ b'}' ∷ [], refl, (refl, refl))

-- What follows a first item, and a first field.
unfoldable pub commas : Items → List ℕ
commas nil = []
commas (cons x xs) = b',' ∷ print_items (cons x xs)

unfoldable pub field_commas : Fields → List ℕ
field_commas end = []
field_commas (field k v fs) = b',' ∷ print_fields (field k v fs)

separated-nonempty : (s q : List ℕ) → q ≢ [] → separated s q ≡ s ++ b',' ∷ q
unfolding separated
separated-nonempty s [] h = absurd (h refl)
separated-nonempty s (c ∷ q) h = refl

separated-Opens : (s q : List ℕ) → Opens s → Opens (separated s q)
unfolding separated
separated-Opens s [] h = h
separated-Opens s (d ∷ q) (c, t, e, h) = (c, t ++ b',' ∷ d ∷ q, rw e refl, h)

Opens-nonempty : (t : List ℕ) → Opens t → t ≢ []
Opens-nonempty t (c, s, e, h) empty = ground arith

pub length-Opens : (t : List ℕ) → Opens t → 1 ≤ length t
length-Opens t (c, s, e, h) = omega (arith, ap length e)

pub print_items-Opens : (x : Json) (xs : Items) → Opens (print_items (cons x xs))
unfolding print_items
print_items-Opens x xs = separated-Opens (print x) (print_items xs) (print-Opens x)

pub print_items-cons : (x : Json) (xs : Items) → print_items (cons x xs) ≡ print x ++ commas xs
unfolding print_items commas separated
print_items-cons x nil = rw append-nil refl
print_items-cons x (cons y ys) =
    separated-nonempty (print x) (print_items (cons y ys))
      (Opens-nonempty (print_items (cons y ys)) (print_items-Opens y ys))

abbrev pub entry : String → Json → List ℕ
entry k v = quoted k ++ b':' ∷ print v

entry-Opens : (k : String) (v : Json) → Opens (entry k v)
unfolding quoted
entry-Opens k v = (b'"', _, refl, (refl, refl))

pub print_fields-Opens : (k : String) (v : Json) (fs : Fields) → Opens (print_fields (field k v fs))
unfolding print_fields
print_fields-Opens k v fs = separated-Opens (entry k v) (print_fields fs) (entry-Opens k v)

pub print_fields-field :
    (k : String) (v : Json) (fs : Fields)
    → print_fields (field k v fs) ≡ entry k v ++ field_commas fs
unfolding print_fields field_commas separated
print_fields-field k v end = rw append-nil refl
print_fields-field k v (field j w fs) =
    separated-nonempty (entry k v) (print_fields (field j w fs))
      (Opens-nonempty (print_fields (field j w fs)) (print_fields-Opens j w fs))

pub commas-Ends : (xs : Items) (rest : List ℕ) → Ends (commas xs ++ b']' ∷ rest)
unfolding commas is_digit
commas-Ends nil rest = refl
commas-Ends (cons x xs) rest = refl

pub field_commas-Ends : (fs : Fields) (rest : List ℕ) → Ends (field_commas fs ++ b'}' ∷ rest)
unfolding field_commas is_digit
field_commas-Ends end rest = refl
field_commas-Ends (field k v fs) rest = refl

pub length-commas :
    (x : Json) (xs : Items)
    → length (commas (cons x xs)) ≡ suc (length (print x) + length (commas xs))
unfolding commas
length-commas x xs =
    omega (arith, ap length (print_items-cons x xs), length-append (print x) (commas xs))

pub length-commas_le : (xs : Items) → length (commas xs) ≤ suc (length (print_items xs))
unfolding commas
length-commas_le nil = omega arith
length-commas_le (cons x xs) = omega arith

pub length-print_array : (xs : Items) → length (print (array xs)) ≡ length (print_items xs) + 2
unfolding print
length-print_array xs = omega (arith, length-append (print_items xs) (b']' ∷ []))

pub length-field_commas :
    (k : String) (v : Json) (fs : Fields)
    → length (print v) + length (field_commas fs) + 2 ≤ length (field_commas (field k v fs))
unfolding field_commas
length-field_commas k v fs = omega (
  arith,
  ap length (print_fields-field k v fs),
  length-append (entry k v) (field_commas fs),
  length-append (quoted k) (b':' ∷ print v),
)

pub length-field_commas_le :
    (fs : Fields) → length (field_commas fs) ≤ suc (length (print_fields fs))
unfolding field_commas
length-field_commas_le end = omega arith
length-field_commas_le (field k v fs) = omega arith

pub length-print_object : (fs : Fields) → length (print (object fs)) ≡ length (print_fields fs) + 2
unfolding print
length-print_object fs = omega (arith, length-append (print_fields fs) (b'}' ∷ []))
