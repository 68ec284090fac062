-- ===== src/Base/Dict.antt =====
-- Go maps from texts to texts, as association lists with one entry for each key.
use mathlib.Core.Path.{◌≡◌, refl}
use mathlib.Core.List.{List, [], ◌∷◌}
use Prim.Native.String.{String}
use text.Mathlib.Text.{◌==◌}
use text.Mathlib.TextEquality.{eq_iff}
use native.Mathlib.Omega.{arith}
use prov_go.Base.Tests.{if◌then◌else◌}

abbrev pub Dict : Type 0
Dict = List (String × String)

-- `m[k]`: a missing key reads as the empty text.
unfoldable pub get : String → Dict → String
get k [] = ""
get k ((j, v) ∷ m) = if j == k then v else get k m

-- `m[k] = v`
unfoldable pub put : String → String → Dict → Dict
put k v [] = (k, v) ∷ []
put k v ((j, w) ∷ m) = if j == k then (k, v) ∷ m else (j, w) ∷ put k v m

pub get-put : (k j v : String) (m : Dict) → get j (put k v m) ≡ (if k == j then v else get j m)
unfolding get put
get-put k j v [] = refl
get-put k j v ((i, w) ∷ m) = ground (arith, eq_iff k j, eq_iff i k, eq_iff i j, get-put k j v m)
