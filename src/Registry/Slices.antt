-- ===== src/Registry/Slices.antt =====
-- The loop `for i := 0; i < len(entries); i += maxPerTx` of `loadCmd`
-- (examples/registry/loader.go).
use prov_go.Base.{
  All, Bool-cases, List, [], append-nil, arith, concat, drop, drop-drop, drop-eq-nil, if◌then◌else◌,
  inl, inr, length, length-drop, length-take-le, length-take-pos, ltb, refl, suc, sym, take,
  take-append-drop, take-eq_self, zero, ℕ, ◌*◌, ◌++◌, ◌+◌, ◌-◌, ◌<◌, ◌∷◌, ◌≡◌, ◌≤◌, ◌⊎◌,
}

abbrev pub max_per_tx : ℕ
max_per_tx = 15

-- `entries[i:end]`
abbrev pub slice {ℓ} : {A : Type ℓ} → ℕ → ℕ → List A → List A
slice i end xs = take (end - i) (drop i xs)

-- `end := i + maxPerTx`, or the number of entries if that is less
unfoldable pub slice_end {ℓ} : {A : Type ℓ} → ℕ → List A → ℕ
slice_end i entries =
    if ltb (length entries) (i + max_per_tx) then length entries else i + max_per_tx

-- The rounds from the index `i`; the first argument bounds how many there are.
unfoldable pub slices_from {ℓ} : {A : Type ℓ} → ℕ → ℕ → List A → List (List A)
slices_from zero i entries = []
slices_from (suc n) i entries =
    let batch = slice i (slice_end i entries) entries ∷ slices_from n (i + max_per_tx) entries in
    if ltb i (length entries) then batch else []

-- As many rounds as there are entries are enough.
unfoldable pub slices {ℓ} : {A : Type ℓ} → List A → List (List A)
unfolding slices_from slice_end
slices entries = slices_from (length entries) 0 entries

module _ {ℓ} {A : Type ℓ} (entries : List A) where
  slice_end-cases :
      (i : ℕ)
      → (slice_end i entries ≡ i + max_per_tx)
        ⊎ ((slice_end i entries ≡ length entries) × (length entries < i + max_per_tx))
  unfolding slice_end
  slice_end-cases i = ground arith

  slice_end_bounds :
      (i : ℕ)
      → i < length entries
      → (i < slice_end i entries) × (slice_end i entries ≤ i + max_per_tx)
  unfolding slice_end
  slice_end_bounds i h = ground arith

  -- The slice of a round is what the rounds after it leave.
  slice_step :
      (i end : ℕ)
      → (end ≡ i + max_per_tx) ⊎ ((end ≡ length entries) × (length entries < i + max_per_tx))
      → slice i end entries ++ drop (i + max_per_tx) entries ≡ drop i entries
  slice_step i end (inl e) = rw (← drop-drop max_per_tx i (i + max_per_tx) entries refl) (
      let same : end - i ≡ max_per_tx = omega arith in
      rw same (take-append-drop max_per_tx (drop i entries)))
  slice_step i end (inr (e, short)) =
      rw (drop-eq-nil (i + max_per_tx) entries (omega arith), append-nil)
        (take-eq_self (end - i) (drop i entries) (omega (arith, length-drop i entries)))

  concat-slices_from :
      (n i : ℕ)
      → length entries ≤ i + max_per_tx * n
      → concat (slices_from n i entries) ≡ drop i entries
  unfolding slices_from
  concat-slices_from zero i h = sym (drop-eq-nil i entries (omega arith))
  concat-slices_from (suc n) i h = elim (Bool-cases (ltb i (length entries))) [
    | inr past ↦ rw past (sym (drop-eq-nil i entries (ground arith)))
    | inl more ↦
        rw (more, concat-slices_from n (i + max_per_tx) (omega arith))
          (slice_step i (slice_end i entries) (slice_end-cases i))
  ]

  -- A slice that may be sent.
  abbrev pub IsSlice : List A → Type 0
  IsSlice b = (0 < length b) × (length b ≤ max_per_tx)

  slice-IsSlice : (i : ℕ) → i < length entries → IsSlice (slice i (slice_end i entries) entries)
  slice-IsSlice i h =
      let (low, high) = slice_end_bounds i h in
      (
        length-take-pos (slice_end i entries - i) (drop i entries) (omega arith)
            (omega (arith, length-drop i entries)),
        omega (arith, length-take-le (slice_end i entries - i) (drop i entries)),
      )

  slices_from-IsSlice : (n i : ℕ) → All IsSlice (slices_from n i entries)
  unfolding slices_from
  slices_from-IsSlice zero i = tt
  slices_from-IsSlice (suc n) i = elim (Bool-cases (ltb i (length entries))) [
    | inr past ↦ rw past tt
    | inl more ↦ rw more (slice-IsSlice i (ground arith), slices_from-IsSlice n (i + max_per_tx))
  ]

  -- The loader's transactions hold every entry once, in order, one to fifteen in each.
  pub slices_cut : (concat (slices entries) ≡ entries) × All IsSlice (slices entries)
  unfolding slices
  slices_cut =
      (concat-slices_from (length entries) 0 (omega arith), slices_from-IsSlice (length entries) 0)
