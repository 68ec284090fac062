-- ===== src/Contract/Attrs.antt =====
-- The attributes of an executed transaction (pkg/demoprime/contract/txattrs.go).
use prov_go.Base.{
  ℕ, ◌+◌, ◌≡◌, refl, ◌∙◌, ◌⊎◌, inl, inr, Bool, String, ◌==◌, Option, none, some, List, [], ◌∷◌,
  ◌++◌, map, concat, arith, IsFirst, IsNone, first_from, first_from-cases, if◌then◌else◌,
}
use prov_go.Platform.{Event, Log, TxResponse}

-- `abciEventFind`, and the innermost loop over the logs.
unfoldable pub abci_event_find : List (String × String) → String → Option String
abci_event_find [] key = none
abci_event_find ((k, v) ∷ attrs) key = if k == key then some v else abci_event_find attrs key

-- The first of two attempts that finds something.
abbrev pub or_next : Option String → Option String → Option String
or_next none next = next
or_next (some v) next = some v

unfoldable pub events_find : List Event → String → Option String
unfolding abci_event_find
events_find [] key = none
events_find (ev ∷ evs) key = or_next (abci_event_find (ev.attributes) key) (events_find evs key)

unfoldable pub logs_find : List Log → String → Option String
unfolding events_find
logs_find [] key = none
logs_find (l ∷ ls) key = or_next (events_find (l.events) key) (logs_find ls key)

unfoldable pub tx_response_first_attribute : Option TxResponse → String → Option String
unfolding events_find logs_find
tx_response_first_attribute none key = none
tx_response_first_attribute (some tx) key =
    or_next (events_find (tx.events) key) (logs_find (tx.logs) key)

-- All attributes in the order of the search: those of the events, then those of the logs.
abbrev pub attributes_of : List Event → List (String × String)
attributes_of evs = concat (map (λ (ev : Event). ev.attributes) evs)

abbrev pub all_attributes : TxResponse → List (String × String)
all_attributes tx =
    attributes_of (tx.events) ++ concat (map (λ (l : Log). attributes_of (l.events)) (tx.logs))

abbrev pub has_key : String → String × String → Bool
has_key key a = a.0 == key

abci_event_find-append :
    (xs ys : List (String × String)) (key : String)
    → abci_event_find (xs ++ ys) key ≡ or_next (abci_event_find xs key) (abci_event_find ys key)
unfolding abci_event_find
abci_event_find-append [] ys key = refl
abci_event_find-append ((k, v) ∷ xs) ys key = ground (arith, abci_event_find-append xs ys key)

events_find-eq :
    (evs : List Event) (key : String)
    → events_find evs key ≡ abci_event_find (attributes_of evs) key
unfolding events_find abci_event_find
events_find-eq [] key = refl
events_find-eq (ev ∷ evs) key =
    rw (abci_event_find-append (ev.attributes) (attributes_of evs) key, events_find-eq evs key)

logs_find-eq :
    (ls : List Log) (key : String)
    → logs_find ls key
      ≡ abci_event_find (concat (map (λ (l : Log). attributes_of (l.events)) ls)) key
unfolding logs_find abci_event_find
logs_find-eq [] key = refl
logs_find-eq (l ∷ ls) key = rw (
  abci_event_find-append (attributes_of (l.events))
      (concat (map (λ (m : Log). attributes_of (m.events)) ls)) key,
  events_find-eq (l.events) key,
  logs_find-eq ls key,
)

first_attribute-eq :
    (tx : TxResponse) (key : String)
    → tx_response_first_attribute (some tx) key ≡ abci_event_find (all_attributes tx) key
unfolding tx_response_first_attribute
first_attribute-eq tx key = rw (
  abci_event_find-append (attributes_of (tx.events))
      (concat (map (λ (m : Log). attributes_of (m.events)) (tx.logs))) key,
  events_find-eq (tx.events) key,
  logs_find-eq (tx.logs) key,
)

find_first :
    (key : String) (i : ℕ) (l : List (String × String)) (j : ℕ) (a : String × String)
    → first_from (has_key key) i l ≡ some (j, a)
    → abci_event_find l key ≡ some (a.1)
unfolding first_from abci_event_find
find_first key i [] j a e = cc
find_first key i ((k, v) ∷ l) j a e = ground (arith, find_first key (i + 1) l j a)

find_none :
    (key : String) (i : ℕ) (l : List (String × String))
    → first_from (has_key key) i l ≡ none
    → abci_event_find l key ≡ none
unfolding first_from abci_event_find
find_none key i [] e = refl
find_none key i ((k, v) ∷ l) e = ground (arith, find_none key (i + 1) l)

-- The result is the value of the first attribute with the key in the order events, then logs; there
-- is none exactly if no attribute has the key.
pub tx_response_first_attribute_decides :
    (tx : TxResponse) (key : String)
    → ((i : ℕ) × (a : String × String) × IsFirst (has_key key) (all_attributes tx) i a
        × (tx_response_first_attribute (some tx) key ≡ some (a.1)))
      ⊎ (IsNone (has_key key) (all_attributes tx)
          × (tx_response_first_attribute (some tx) key ≡ none))
tx_response_first_attribute_decides tx key =
    elim (first_from-cases (has_key key) 0 (all_attributes tx)) [
      | inl (i, a, e, f) ↦
          inl (i, a, f, first_attribute-eq tx key ∙ find_first key 0 (all_attributes tx) _ a e)
      | inr (e, f) ↦ inr (f, first_attribute-eq tx key ∙ find_none key 0 (all_attributes tx) e)
    ]
