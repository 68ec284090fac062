-- ===== src/Pool/Keys.antt =====
-- Which value the map of an event has for a key (pkg/demoprime/pool/events.go).
use prov_go.Base.{◌≡◌, refl, ◌∙◌, String, eq_iff, List, [], ◌∷◌, ◌++◌, arith, IsNone, suc}
use prov_go.Base.Dict.{Dict, get, put, get-put}
use prov_go.Platform.{Event}
use prov_go.Pool.Events.{put_all, event_attrs}
use prov_go.Contract.Attrs.{has_key}

get-put_all_absent :
    (j : String) (attrs : List (String × String)) (m : Dict)
    → IsNone (has_key j) attrs
    → get j (put_all attrs m) ≡ get j m
unfolding put_all
get-put_all_absent j [] m absent = refl
get-put_all_absent j ((k, v) ∷ attrs) m absent =
    get-put_all_absent j attrs (put k v m) (λ i a e. absent (suc i) a e)
    ∙ get-put k j v m
    ∙ ground (arith, absent 0 (k, v) refl)

get-put_all_last :
    (j v : String) (before after : List (String × String)) (m : Dict)
    → IsNone (has_key j) after
    → get j (put_all (before ++ (j, v) ∷ after) m) ≡ v
unfolding put_all
get-put_all_last j v [] after m absent =
    get-put_all_absent j after (put j v m) absent ∙ get-put j j v m ∙ ground (arith, eq_iff j j)
get-put_all_last j v ((k, w) ∷ before) after m absent =
    get-put_all_last j v before after (put k w m) absent

-- Where an event has several attributes with one key, its map holds the value of the last of them.
event_attrs_last :
    (ev : Event) (key value : String) (before after : List (String × String))
    → ev.attributes ≡ before ++ (key, value) ∷ after
    → IsNone (has_key key) after
    → get key (event_attrs ev) ≡ value
unfolding event_attrs
event_attrs_last ev key value before after e absent =
    rw e (get-put_all_last key value before after [] absent)
