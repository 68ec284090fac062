-- ===== src/Tests/Batches.antt =====
-- A run of the loop that cuts a list into the batches of `AddAttributes` (pkg/provenance/attribute.go).
use prov_go.Base.{ℕ, zero, suc, ◌≡◌, List, [], ◌∷◌, All, concat}
use prov_go.Attributes.Defs.{batches}
use prov_go.Attributes.Batches.{IsBatch, AllFull, batches_cut}

abbrev down_from : ℕ → List ℕ
down_from zero = []
down_from (suc n) = n ∷ down_from n

abbrev eighty : List ℕ
eighty = down_from 80

batches_cut_example :
    (concat (batches eighty) ≡ eighty) × All IsBatch (batches eighty) × AllFull (batches eighty)
batches_cut_example = batches_cut eighty
