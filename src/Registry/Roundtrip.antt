-- ===== src/Registry/Roundtrip.antt =====
-- The two commands of the registry loader (examples/registry/loader.go), one after the other: what is
-- generated is loaded.
use prov_go.Base.{
  ◌≡◌, ◌≢◌, refl, ap, ◌∙◌, subst, inl, inr, ◌==◌, Bool-cases, String, List, [], ◌∷◌, Result, ok,
  err, panic, All, arith,
}
use prov_go.Base.Base64.{IsByte}
use prov_go.Platform.{Platform, Bytes}
use prov_go.Client.Setup.{Setup}
use prov_go.Registry.Update.{Registry, Loading}
use prov_go.Registry.Files.{Codec, generate, unmarshal_entries, read_entries, Ending}
use prov_go.Registry.Stored.{array_text, read_entries-generate}
use prov_go.Registry.Command.{IsLoaded, load_cmd-IsLoaded}
use prov_go.Registry.Main.{
  Exit, generated, loaded, main, GenerateFlags, LoadFlags, Os, path_of, write_out, generate_out,
  generate_read, generate_with, generate_cmd, load_read, load_with, load_args,
}

module _ (P : Platform) (S : Setup P) (R : Registry P) (C : Codec R.Entry) (O : Os P) where
  -- A command that has written its file.
  abbrev Wrote : String → Result Bytes × P.State → Result (Unit {0}) × P.State → Type 0
  Wrote out (r, s) end =
      (input : Bytes) × (encoded : Bytes) × (r ≡ ok input)
      × (generate C input ≡ ok encoded)
      × ((O.write_file out encoded s).0 ≡ ok tt)
      × (end.1 ≡ (O.write_file out encoded s).1)

  write_out_inverse :
      (out : String) (r : Result (Unit {0}) × P.State)
      → (write_out P S R C O out r).0 ≡ ok tt
      → (r.0 ≡ ok tt) × ((write_out P S R C O out r).1 ≡ r.1)
  write_out_inverse out (ok _, s) h = (refl, refl)
  write_out_inverse out (err e, s) h = absurd (ground arith)
  write_out_inverse out (panic t, s) h = absurd (ground arith)

  generate_read_inverse :
      (out : String) (r : Result Bytes × P.State)
      → (generate_read P S R C O out r).0 ≡ ok tt
      → Wrote out r (generate_read P S R C O out r)
  generate_read_inverse out (ok input, s) h = go (generate C input) refl h
    where
      go :
          (g : Result Bytes)
          → generate C input ≡ g
          → (generate_out P S R C O out g s).0 ≡ ok tt
          → Wrote out (ok input, s) (generate_out P S R C O out g s)
      go (ok encoded) e k =
          let (wrote, after) = write_out_inverse out (O.write_file out encoded s) k in
          (input, encoded, refl, e, wrote, after)
      go (err x) e k = absurd (ground arith)
      go (panic x) e k = absurd (ground arith)
  generate_read_inverse out (err e, s) h = absurd (ground arith)
  generate_read_inverse out (panic t, s) h = absurd (ground arith)

  generate_with_inverse :
      (f : GenerateFlags) (s : P.State)
      → (generate_with P S R C O (ok f) s).0 ≡ ok tt
      → Wrote f.out (S.read_file f.input_json s) (generate_with P S R C O (ok f) s)
  generate_with_inverse f s h = elim (Bool-cases (f.input_json == "")) [
    | inl none_given ↦ absurd (ground arith)
    | inr given ↦
        rw given (generate_read_inverse f.out (S.read_file f.input_json s) (rw given at h))
  ]

  abbrev LoadedFrom : Bytes → Ending P S R C → Type 0
  LoadedFrom file end =
      (entries : List R.Entry) × (read_entries C file ≡ ok entries) × IsLoaded P S R C entries end.0

  load_read-LoadedFrom :
      (mnemonic network : String) (file : Bytes) (r : Result Bytes × P.State)
      → r.0 ≡ ok file
      → (load_read P S R C O mnemonic network r).0.outcome ≡ ok tt
      → LoadedFrom file (load_read P S R C O mnemonic network r)
  load_read-LoadedFrom mnemonic network file (ok found, s) e h =
      let (entries, read, _, done) = load_cmd-IsLoaded P S R C found mnemonic network s h in
      let same : found ≡ file = cc in
      (entries, subst (λ x. read_entries C x ≡ ok entries) same read, done)
  load_read-LoadedFrom mnemonic network file (err x, s) e h = cc
  load_read-LoadedFrom mnemonic network file (panic x, s) e h = cc

  load_with-LoadedFrom :
      (f : LoadFlags) (file : Bytes) (s : P.State)
      → (S.read_file (path_of f) s).0 ≡ ok file
      → (load_with P S R C O (ok f) s).0.outcome ≡ ok tt
      → LoadedFrom file (load_with P S R C O (ok f) s)
  load_with-LoadedFrom f file s e h = elim (Bool-cases (path_of f == "")) [
    | inl bare ↦ absurd (ground arith)
    | inr path ↦ elim (Bool-cases (f.mnemonic_file == "")) [
      | inl bare ↦ absurd (ground arith)
      | inr key ↦
          rw (path, key)
            (load_read-LoadedFrom f.mnemonic_file f.network file (S.read_file (path_of f) s) e
              (rw (path, key) at h))
    ]
  ]

  ran_generate :
      (program : String) (args : List String) (s s1 : P.State)
      → main P S R C O (program ∷ "generate" ∷ args) s ≡ (generated (ok tt), s1)
      → ((generate_cmd P S R C O args s).0 ≡ ok tt) × ((generate_cmd P S R C O args s).1 ≡ s1)
  unfolding main
  ran_generate program args s s1 h =
      let exit = ap (λ (x : Exit P S R C O × P.State). x.0) h in
      (cc, ap (λ (x : Exit P S R C O × P.State). x.1) h)

  ran_load :
      (program : String) (args : List String) (s1 s2 : P.State) (end : Loading P R)
      → main P S R C O (program ∷ "load" ∷ args) s1 ≡ (loaded end, s2)
      → (load_args P S R C O args s1).0 ≡ end
  unfolding main
  ran_load program args s1 s2 end h = let exit = ap (λ (x : Exit P S R C O × P.State). x.0) h in cc

  written :
      (args : List String) (g : GenerateFlags) (s : P.State)
      → O.generate_flags args ≡ ok g
      → (generate_cmd P S R C O args s).0 ≡ ok tt
      → Wrote g.out (S.read_file g.input_json s) (generate_cmd P S R C O args s)
  unfolding generate_cmd
  written args g s e h = rw e (generate_with_inverse g s (rw e at h))

  loaded_from :
      (args : List String) (l : LoadFlags) (file : Bytes) (s : P.State)
      → O.load_flags args ≡ ok l
      → (S.read_file (path_of l) s).0 ≡ ok file
      → (load_args P S R C O args s).0.outcome ≡ ok tt
      → LoadedFrom file (load_args P S R C O args s)
  unfolding load_args
  loaded_from args l file s e r h = rw e (load_with-LoadedFrom l file s r (rw e at h))

  module _
      -- The codec reads what it has written, as bytes.
      (codec : (e : R.Entry) (raw : Bytes)
        → C.marshal_json e ≡ ok raw
        → (C.unmarshal_json raw ≡ ok e) × All IsByte raw)
      -- The JSON parser splits an array of values that the codec has written.
      (parser : (raws : List Bytes)
        → All (λ raw. (e : R.Entry) × (C.marshal_json e ≡ ok raw)) raws
        → C.unmarshal_array (array_text raws) ≡ ok raws)
      -- A file that has been written is read as it was written.
      (files : (path : String) (bytes : Bytes) (s : P.State)
        → (O.write_file path bytes s).0 ≡ ok tt
        → (S.read_file path (O.write_file path bytes s).1).0 ≡ ok bytes) where
    -- If `generate` has run on an input file with these entries, and `load` then runs on its output file
    -- and ends without an error, then the slices that are reported hold the entries, in order, and
    -- each slice, of one to fifteen, was sent, and found in a block with code 0. The codec reads what it writes, the JSON
    -- parser splits an array of such values, and a file is read as it was written.
    pub generate_then_load :
        (program : String) (gargs largs : List String) (g : GenerateFlags) (l : LoadFlags)
        (s s1 s2 : P.State) (input : Bytes) (raws : List Bytes) (entries : List R.Entry)
        (end : Loading P R)
        → O.generate_flags gargs ≡ ok g
        → (S.read_file g.input_json s).0 ≡ ok input
        → C.unmarshal_array input ≡ ok raws
        → unmarshal_entries C 0 raws ≡ ok entries
        → entries ≢ []
        → main P S R C O (program ∷ "generate" ∷ gargs) s ≡ (generated (ok tt), s1)
        → O.load_flags largs ≡ ok l
        → path_of l ≡ g.out
        → main P S R C O (program ∷ "load" ∷ largs) s1 ≡ (loaded end, s2)
        → end.outcome ≡ ok tt
        → IsLoaded P S R C entries end
    generate_then_load program gargs largs g l s s1 s2 input raws entries end gf in_file split read
          some ran lf same then_ran done =
        let (wrote, at_s1) = ran_generate program gargs s s1 ran in
        let (found, encoded, found_it, made, kept, after) = written gargs g s gf wrote in
        let stored : (S.read_file g.out
              (O.write_file g.out encoded (S.read_file g.input_json s).1).1).0
            ≡ ok encoded =
          files g.out encoded (S.read_file g.input_json s).1 kept in
        let back : (S.read_file (path_of l) s1).0 ≡ ok encoded = rw (same, ← at_s1, after) stored in
        let finish = ran_load program largs s1 s2 end then_ran in
        let (others, read_again, all) =
          loaded_from largs l encoded s1 lf back
            (ap (λ (x : Loading P R). x.outcome) finish ∙ done) in
        let input_same : found ≡ input = cc in
        let reads =
          read_entries-generate C codec parser input encoded raws entries split read some
            (subst (λ x. generate C x ≡ ok encoded) input_same made) in
        let entries_same : others ≡ entries = cc in
        subst (λ x. IsLoaded P S R C x end) entries_same
          (subst (IsLoaded P S R C others) finish all)
