-- ===== src/Attributes/Batches.antt =====
-- The batches of `AddAttributes` (pkg/provenance/attribute.go).
use prov_go.Base.{
  All, Bool-cases, List, [], append_assoc, arith, concat, inl, inr, length, length-append, nat_eq,
  refl, ◌++◌, ◌<◌, ◌∷◌, ◌≡◌, ◌≤◌,
}
use prov_go.Attributes.Defs.{batch_size, batches, batches_from}

module _ {ℓ} {A : Type ℓ} where
  concat-batches_from : (buff queue : List A) → concat (batches_from buff queue) ≡ buff ++ queue
  unfolding batches_from
  concat-batches_from [] [] = refl
  concat-batches_from (x ∷ xs) [] = refl
  concat-batches_from buff (m ∷ queue) =
      elim (Bool-cases (nat_eq (length (buff ++ m ∷ [])) batch_size)) [
        | inl full ↦ rw (full, concat-batches_from [] queue) (append_assoc buff (m ∷ []) queue)
        | inr more ↦
            rw (more, concat-batches_from (buff ++ m ∷ []) queue) (append_assoc buff (m ∷ []) queue)
      ]

  -- A batch that may be sent.
  abbrev pub IsBatch : List A → Type 0
  IsBatch b = (0 < length b) × (length b ≤ batch_size)

  batches_from-IsBatch :
      (buff queue : List A) → length buff < batch_size → All IsBatch (batches_from buff queue)
  unfolding batches_from
  batches_from-IsBatch [] [] h = tt
  batches_from-IsBatch (x ∷ xs) [] h = ((omega arith, omega arith), tt)
  batches_from-IsBatch buff (m ∷ queue) h =
      elim (Bool-cases (nat_eq (length (buff ++ m ∷ [])) batch_size)) [
        | inl full ↦ rw full (
          (
            ground (arith, length-append buff (m ∷ [])),
            ground (arith, length-append buff (m ∷ [])),
          ),
          batches_from-IsBatch [] queue (omega arith),
        )
        | inr more ↦ rw more (
            batches_from-IsBatch (buff ++ m ∷ []) queue
              (ground (arith, length-append buff (m ∷ []))))
      ]

  -- All batches but the last are full.
  abbrev pub AllFull : List (List A) → Type 0
  AllFull [] = Unit
  AllFull (_ ∷ []) = Unit
  AllFull (b ∷ c ∷ bs) = (length b ≡ batch_size) × AllFull (c ∷ bs)

  AllFull-cons :
      (b : List A) (bs : List (List A)) → length b ≡ batch_size → AllFull bs → AllFull (b ∷ bs)
  AllFull-cons b [] h f = tt
  AllFull-cons b (c ∷ bs) h f = (h, f)

  batches_from-AllFull : (buff queue : List A) → AllFull (batches_from buff queue)
  unfolding batches_from
  batches_from-AllFull [] [] = tt
  batches_from-AllFull (x ∷ xs) [] = tt
  batches_from-AllFull buff (m ∷ queue) =
      elim (Bool-cases (nat_eq (length (buff ++ m ∷ [])) batch_size)) [
        | inl full ↦ rw full (AllFull-cons _ _ (ground arith) (batches_from-AllFull [] queue))
        | inr more ↦ rw more (batches_from-AllFull (buff ++ m ∷ []) queue)
      ]

  -- The batches are the queue cut up: every message is in one batch, in order; a batch has one to 75
  -- messages, and only the last has fewer than 75.
  pub batches_cut :
      (queue : List A)
      → (concat (batches queue) ≡ queue) × All IsBatch (batches queue) × AllFull (batches queue)
  unfolding batches
  batches_cut queue = (
    concat-batches_from [] queue,
    batches_from-IsBatch [] queue (omega arith),
    batches_from-AllFull [] queue,
  )
