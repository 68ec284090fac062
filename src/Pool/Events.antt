-- ===== src/Pool/Events.antt =====
-- The events of an executed transaction (pkg/demoprime/pool/events.go).
use prov_go.Base.{
  ℕ, ◌+◌, String, ◌==◌, Option, none, some, List, [], ◌∷◌, ◌++◌, map, concat, Result, ok, err,
  Error, errorf, str, if◌then◌else◌,
}
use prov_go.Base.Dict.{Dict, get, put}
use prov_go.Platform.{Event, Log, TxResponse}

-- The loop that writes each attribute into the map.
unfoldable pub put_all : List (String × String) → Dict → Dict
put_all [] m = m
put_all ((k, v) ∷ more) m = put_all more (put k v m)

-- `abciEventAttrs` and `stringEventAttrs`
unfoldable pub event_attrs : Event → Dict
unfolding put_all
event_attrs ev = put_all (ev.attributes) []

-- The events at the top, then those of the logs.
unfoldable pub flat_event_attrs : Option TxResponse → List Dict
flat_event_attrs none = []
flat_event_attrs (some tx) =
    map event_attrs (tx.events) ++ concat (map (λ (l : Log). map event_attrs (l.events)) (tx.logs))

abbrev pub no_action : String → Error
no_action action = errorf "pool: no event with action %q" (str action ∷ [])

-- The loop over the list, with its index. The -1 that comes with an error is left out.
unfoldable pub find_from : ℕ → String → List Dict → Result (ℕ × Dict)
find_from i action [] = err (no_action action)
find_from i action (attrs ∷ list) =
    if get "action" attrs == action then ok (i, attrs) else find_from (i + 1) action list

unfoldable pub find_wasm_action_event : Option TxResponse → String → Result (ℕ × Dict)
unfolding find_from
find_wasm_action_event tx action = find_from 0 action (flat_event_attrs tx)
