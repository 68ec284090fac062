-- ===== src/Registry/Main.antt =====
-- The registry loader as a program (examples/registry/loader.go): its commands with their flags and
-- files. The parsing of the flags and the writing of a file are parameters.
use prov_go.Base.{String, ◌==◌, List, [], ◌∷◌, Result, ok, err, panic, errorf, wrapf, if◌then◌else◌}
use prov_go.Platform.{Platform, Bytes}
use prov_go.Client.Setup.{Setup}
use prov_go.Registry.Update.{Registry, Loading}
use prov_go.Registry.Files.{Codec, generate, load_cmd, Ending, stopped}

pub record GenerateFlags : Type 0 where
  pub input_json : String
  pub out : String

pub record LoadFlags : Type 0 where
  pub file : String
  pub mnemonic_file : String
  pub network : String
  pub args : List String  -- what stands after the flags

pub record Os (P : Platform) : Type 0 where
  pub generate_flags : List String → Result GenerateFlags
  pub load_flags : List String → Result LoadFlags
  pub write_file : String → Bytes → P.State → Result (Unit {0}) × P.State

-- The path of the file: that of the flag, or the first argument.
abbrev first_of : List String → String
first_of [] = ""
first_of (path ∷ _) = path

unfoldable pub path_of : LoadFlags → String
path_of f = if f.file == "" then first_of f.args else f.file

module _ (P : Platform) (S : Setup P) (R : Registry P) (C : Codec R.Entry) (O : Os P) where
  abbrev pub write_out : String → Result (Unit {0}) × P.State → Result (Unit {0}) × P.State
  write_out path (ok _, s) = (ok tt, s)
  write_out path (err e, s) = (err (wrapf "error writing base64 output file: %v" [] e), s)
  write_out path (panic t, s) = (panic t, s)

  abbrev pub generate_out : String → Result Bytes → P.State → Result (Unit {0}) × P.State
  generate_out out (ok encoded) s = write_out out (O.write_file out encoded s)
  generate_out out (err e) s = (err e, s)
  generate_out out (panic t) s = (panic t, s)

  abbrev pub generate_read : String → Result Bytes × P.State → Result (Unit {0}) × P.State
  generate_read out (ok input, s) = generate_out out (generate C input) s
  generate_read out (err e, s) = (err (wrapf "error reading input JSON: %v" [] e), s)
  generate_read out (panic t, s) = (panic t, s)

  abbrev pub generate_with : Result GenerateFlags → P.State → Result (Unit {0}) × P.State
  generate_with (ok f) s =
      if f.input_json == ""
      then (err (errorf "input-json is required" []), s)
      else generate_read f.out (S.read_file f.input_json s)
  generate_with (err e) s = (err e, s)
  generate_with (panic t) s = (panic t, s)

  unfoldable pub generate_cmd : List String → P.State → Result (Unit {0}) × P.State
  unfolding generate
  generate_cmd args s = generate_with (O.generate_flags args) s

  abbrev pub load_read : (mnemonic network : String) → Result Bytes × P.State → Ending P S R C
  load_read mnemonic network (ok file, s) = load_cmd P S R C file mnemonic network s
  load_read mnemonic network (err e, s) =
      stopped P S R C (err (wrapf "error reading base64 entries file: %v" [] e)) s
  load_read mnemonic network (panic t, s) = stopped P S R C (panic t) s

  abbrev pub load_with : Result LoadFlags → P.State → Ending P S R C
  load_with (ok f) s =
      if path_of f == ""
      then stopped P S R C
          (err (errorf "file is required (use -file path or pass path as first argument)" [])) s
      else if f.mnemonic_file == ""
      then stopped P S R C (err (errorf "mnemonic-file is required" [])) s
      else load_read f.mnemonic_file f.network (S.read_file (path_of f) s)
  load_with (err e) s = stopped P S R C (err e) s
  load_with (panic t) s = stopped P S R C (panic t) s

  unfoldable pub load_args : List String → P.State → Ending P S R C
  unfolding load_cmd path_of
  load_args args s = load_with (O.load_flags args) s

  -- How the program ends: after the text on its use, or after a command.
  pub data Exit : Type 0 where
    usage : Exit
    generated : Result (Unit {0}) → Exit
    loaded : Loading P R → Exit

  abbrev pub dispatch : String → List String → P.State → Exit × P.State
  dispatch cmd rest s =
      if cmd == "generate"
      then (let (r, s') = generate_cmd rest s in (generated r, s'))
      else if cmd == "load"
      then (let (l, s') = load_args rest s in (loaded l, s'))
      else (usage, s)

  unfoldable pub main : List String → P.State → Exit × P.State
  unfolding generate_cmd load_args
  main [] s = (usage, s)
  main (_ ∷ []) s = (usage, s)
  main (_ ∷ cmd ∷ rest) s = dispatch cmd rest s
