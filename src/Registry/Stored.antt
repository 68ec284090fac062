-- ===== src/Registry/Stored.antt =====
-- The file that `generateCmd` writes (examples/registry/loader.go), as `loadCmd` reads it.
use prov_go.Base.{
  ℕ, suc, ◌≡◌, ◌≢◌, refl, ◌∙◌, sym, ap, append-nil, append_assoc, ◌++◌, subst, List, [], ◌∷◌,
  Operand, Result, ok, err, panic, All, All-append, arith, ◌>>=◌, String, some,
}
use prov_go.Base.Base64.{base64_encode, base64_decode, base64_decode-encode, IsByte}
use prov_go.Platform.{Bytes}
use prov_go.Registry.Files.{
  Codec, or_fatal, unmarshal_entries, marshal_entries, followed, json_array, generate, decoded,
  refuse_empty, read_entries,
}

or_fatal_inverse :
    {A : Type 0} (s : String) (operands : List Operand) (r : Result A) (a : A)
    → or_fatal s operands r ≡ ok a
    → r ≡ ok a
or_fatal_inverse s operands (ok b) a h = h
or_fatal_inverse s operands (err e) a h = absurd (ground arith)
or_fatal_inverse s operands (panic t) a h = absurd (ground arith)

pub chain_inverse :
    {A B : Type 0} (r : Result A) (f : A → Result B) (b : B)
    → (r >>= f) ≡ ok b
    → (a : A) × (r ≡ ok a) × (f a ≡ ok b)
chain_inverse (ok a) f b h = (a, refl, h)
chain_inverse (err e) f b h = absurd (ground arith)
chain_inverse (panic s) f b h = absurd (ground arith)

-- The text of a JSON array: its values, with a comma between two of them, in brackets.
abbrev pub joined : List Bytes → Bytes
joined [] = []
joined (raw ∷ []) = raw
joined (raw ∷ next ∷ raws) = raw ++ b',' ∷ joined (next ∷ raws)

abbrev pub array_text : List Bytes → Bytes
array_text raws = b'[' ∷ (joined raws ++ b']' ∷ [])

joined-followed : (raw : Bytes) (raws : List Bytes) → joined (raw ∷ raws) ≡ raw ++ followed raws
joined-followed raw [] = sym (append-nil raw)
joined-followed raw (next ∷ raws) = ap (λ s. raw ++ b',' ∷ s) (joined-followed next raws)

json_array_lem : (raws : List Bytes) → json_array raws ≡ array_text raws
unfolding json_array
json_array_lem [] = refl
json_array_lem (raw ∷ raws) =
    rw (joined-followed raw raws, append_assoc raw (followed raws) (b']' ∷ [])) refl

module _ {Entry : Type 0} (C : Codec Entry)
    -- The codec reads what it has written, as bytes.
    (codec : (e : Entry) (raw : Bytes)
      → C.marshal_json e ≡ ok raw
      → (C.unmarshal_json raw ≡ ok e) × All IsByte raw)
    -- The JSON parser splits an array of values that the codec has written.
    (parser : (raws : List Bytes)
      → All (λ raw. (e : Entry) × (C.marshal_json e ≡ ok raw)) raws
      → C.unmarshal_array (array_text raws) ≡ ok raws) where
  abbrev IsWritten : Bytes → Type 0
  IsWritten raw = (e : Entry) × (C.marshal_json e ≡ ok raw)

  -- Raw values that were written for the entries.
  abbrev IsCopy : ℕ → List Entry → List Bytes → Type 0
  IsCopy j es raws = (unmarshal_entries C j raws ≡ ok es) × All IsWritten raws

  marshalled_again :
      (i j : ℕ) (es : List Entry) (raws : List Bytes)
      → marshal_entries C i es ≡ ok raws
      → IsCopy j es raws
  unfolding marshal_entries unmarshal_entries
  marshalled_again i j [] raws h = subst (IsCopy j []) {x = []} (ground arith) (refl, tt)
  marshalled_again i j (e ∷ es) raws h =
      let (raw, m, h1) =
        chain_inverse (or_fatal _ _ (C.marshal_json e))
          (λ raw. marshal_entries C (suc i) es >>= λ more. ok (raw ∷ more)) raws h in
      let (rest, k, h2) =
        chain_inverse (marshal_entries C (suc i) es) (λ more. ok (raw ∷ more)) raws h1 in
      let written : C.marshal_json e ≡ ok raw = or_fatal_inverse _ _ _ raw m in
      let (again, all) = marshalled_again (suc i) (suc j) es rest k in
      subst (IsCopy j (e ∷ es)) {x = raw ∷ rest} (ground arith)
        (rw ((codec e raw written).0, again) refl, ((e, written), all))

  followed-IsByte : (raws : List Bytes) → All IsWritten raws → All IsByte (followed raws)
  followed-IsByte [] h = tt
  followed-IsByte (raw ∷ raws) ((e, m), h) = (
    omega arith,
    All-append IsByte raw (followed raws) (codec e raw m).1 (followed-IsByte raws h),
  )

  json_array-IsByte : (raws : List Bytes) → All IsWritten raws → All IsByte (json_array raws)
  unfolding json_array
  json_array-IsByte [] h = (omega arith, (omega arith, tt))
  json_array-IsByte (raw ∷ raws) ((e, m), h) = (
    omega arith,
    All-append IsByte raw _ (codec e raw m).1
        (All-append IsByte (followed raws) _ (followed-IsByte raws h) (omega arith, tt)),
  )

  decoded_ok : (file text : Bytes) → base64_decode file ≡ some text → decoded C file ≡ ok text
  decoded_ok file text e = ground arith

  kept : (es : List Entry) → es ≢ [] → refuse_empty C es ≡ ok es
  kept [] h = absurd (h refl)
  kept (x ∷ xs) h = refl

  -- Where the codec reads what it writes, and the JSON parser splits an array of such values: from the
  -- file that `generateCmd` has written, `loadCmd` reads the entries that `generateCmd` has read from
  -- its input, if there are any.
  pub read_entries-generate :
      (input file : Bytes) (raws : List Bytes) (entries : List Entry)
      → C.unmarshal_array input ≡ ok raws
      → unmarshal_entries C 0 raws ≡ ok entries
      → entries ≢ []
      → generate C input ≡ ok file
      → read_entries C file ≡ ok entries
  unfolding generate read_entries
  read_entries-generate input file raws entries split read some_read h =
      let (texts, m, written) =
        chain_inverse (marshal_entries C 0 entries) (λ t. ok (base64_encode (json_array t))) file
          (rw (split, read) at h) in
      let (again, all) = marshalled_again 0 0 entries texts m in
      let same : base64_encode (json_array texts) ≡ file = ground arith in
      let decodes : base64_decode file ≡ some (json_array texts) =
        rw (← same) (base64_decode-encode (json_array texts) (json_array-IsByte texts all)) in
      let splits : C.unmarshal_array (json_array texts) ≡ ok texts =
        ap C.unmarshal_array (json_array_lem texts) ∙ parser texts all in
      rw (decoded_ok file (json_array texts) decodes, splits, again) (kept entries some_read)
