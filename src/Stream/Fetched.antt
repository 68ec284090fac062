-- ===== src/Stream/Fetched.antt =====
-- What the pages of a paginated query hold, apart from any channel: the specification of the
-- five queries.
use prov_go.Base.{
  ℕ, ◌≡◌, Bool, true, List, [], ◌∷◌, ◌++◌, append-nil, Option, none, some, Error, cancelled,
}
use prov_go.Base.{◌⊎◌}
use prov_go.Stream.Channel.{Reply, page, refused}

-- The key of the next page, that no page is left, or that a page came with no pagination.
pub data Cursor : Type 0 where
  at : List ℕ → Cursor
  ended : Cursor
  unknown : Cursor

-- `Fetched fetch xs c`: the pages before the cursor hold `xs`, in order.
pub data Fetched {A : Type 0} (fetch : List ℕ → Reply A) : List A → Cursor → Type 0 where
  none_yet : Fetched fetch [] (at [])
  one_more :
      {xs ys : List A} {key : List ℕ} {b : ℕ} {bs : List ℕ}
      → Fetched fetch xs (at key)
      → fetch key ≡ page ys (some (b ∷ bs))
      → Fetched fetch (xs ++ ys) (at (b ∷ bs))
  last_one :
      {xs ys : List A} {key : List ℕ}
      → Fetched fetch xs (at key)
      → fetch key ≡ page ys (some [])
      → Fetched fetch (xs ++ ys) ended
  unmarked :
      {xs ys : List A} {key : List ℕ}
      → Fetched fetch xs (at key)
      → fetch key ≡ page ys none
      → Fetched fetch (xs ++ ys) unknown

module _ {A : Type 0} (fetch : List ℕ → Reply A) where
  -- All the items of the query.
  abbrev pub IsListing : List A → Type 0
  IsListing xs = Fetched fetch xs ended

  -- Items with which the pages fetched so far begin.
  abbrev pub IsPartial : List A → Type 0
  IsPartial xs =
      (ys : List A) × (c : Cursor) × (rest : List A) × Fetched fetch ys c × (xs ++ rest ≡ ys)

  -- Where an error can come from: the query itself, or the context.
  abbrev pub IsCause : Bool → Error → Type 0
  IsCause done e = ((key : List ℕ) × (fetch key ≡ refused e)) ⊎ ((e ≡ cancelled) × (done ≡ true))

  pub IsPartial-of_Fetched : {xs : List A} {c : Cursor} → Fetched fetch xs c → IsPartial xs
  IsPartial-of_Fetched {xs} {c} f = (xs, c, [], f, append-nil xs)

  -- A page that has been fetched is part of what the pages hold, whatever its pagination says.
  pub IsPartial-page :
      (sent left : List A) {xs ys : List A} (next : Option (List ℕ)) {key : List ℕ}
      → Fetched fetch xs (at key)
      → fetch key ≡ page ys next
      → sent ++ left ≡ xs ++ ys
      → IsPartial sent
  IsPartial-page sent left {xs} {ys} none f e p = (xs ++ ys, unknown, left, unmarked f e, p)
  IsPartial-page sent left {xs} {ys} (some []) f e p = (xs ++ ys, ended, left, last_one f e, p)
  IsPartial-page sent left {xs} {ys} (some (b ∷ bs)) f e p =
      (xs ++ ys, at (b ∷ bs), left, one_more f e, p)
