-- ===== src/Tests/Registry.antt =====
-- Runs of the registry loader (examples/registry/loader.go) and of `NewProvenanceClient`
-- (pkg/provenance/prov.go). The sample's entries are bytes, whose JSON is one digit.
use prov_go.Base.{
  ◌≢◌, ap, sym, ◌++◌, ℕ, ◌+◌, ◌-◌, ◌<◌, ◌≡◌, refl, true, some, List, [], ◌∷◌, ◌++◌, Result, ok, err,
  errorf, All, subst, leb, ◌&&◌, append_assoc, arith, ltb, if◌then◌else◌, codes, codes_eq, String,
  Bool, ◌==◌, Bool-cases, inl, inr,
}
use prov_go.Base.Base64.{IsByte}
use prov_go.Config.{new_testnet_config}
use prov_go.Platform.{Bytes}
use prov_go.Client.Defs.{
  next_sequence, sign_tx, draft_tx, finish_tx, simulate_tx, fee_coins, broadcast_tx, wait_on_tx,
  poll, polled, reset_sequence, get_account_info,
}
use prov_go.Client.Transact.{transact}
use prov_go.Client.Setup.{
  Setup, connect, new_grpc_connection, read_mnemonic, priv_key_from_mnemonic, new_provenance_client,
}
use prov_go.Client.Ready.{IsReady, new_provenance_client-IsReady}
use prov_go.Registry.Slices.{slice_end}
use prov_go.Registry.Update.{Registry, Loading, registry_bulk_update, load_batch, load_from, load}
use prov_go.Registry.Loaded.{IsReport, load_reports}
use prov_go.Registry.Files.{
  Codec, unmarshal_entries, marshal_entries, json_array, generate, read_entries, choose_network,
  load_cmd,
}
use prov_go.Registry.Stored.{joined, array_text}
use prov_go.Registry.Command.{IsLoaded, load_cmd-IsLoaded}
use prov_go.Registry.Main.{Os, Exit, main, generate_cmd, load_args, path_of}
use prov_go.Registry.Roundtrip.{generate_then_load}
use prov_go.Tests.Sample.{calm, calm_world}

abbrev numbers : Registry calm
numbers = record { Entry = ℕ; bulk_update = λ signer _. signer }

abbrev two : List ℕ
two = 3 ∷ 4 ∷ []

load_reports_example : IsReport calm numbers two calm_world (load calm numbers two calm_world).0
load_reports_example = load_reports calm numbers two calm_world

abbrev pub setup : Setup calm
setup = record {
  configure = λ _ s. (ok tt, s + 1);
  dial = λ _ _ s. (ok tt, s + 1);
  read_file = λ _ s. (ok (codes "seed words\n"), s);
  is_mnemonic_valid = λ _. true;
  derive = λ _ m. ok m;
  address_of = λ _. "tp1signer";
}

opened : (new_provenance_client calm setup new_testnet_config (some "seed.txt") 0).0 ≡ ok tt
unfolding new_provenance_client connect new_grpc_connection read_mnemonic priv_key_from_mnemonic
    reset_sequence get_account_info
opened = refl

new_provenance_client-IsReady_example :
    IsReady calm setup new_testnet_config
      (some "seed.txt")
      (new_provenance_client calm setup new_testnet_config (some "seed.txt") 0).1
new_provenance_client-IsReady_example =
    new_provenance_client-IsReady calm setup new_testnet_config (some "seed.txt") 0 tt opened

-- A codec of digits: an entry below ten is one character.
abbrev to_digit : ℕ → Result Bytes
to_digit n = if ltb n 10 then ok ((b'0' + n) ∷ []) else err (errorf "too large" [])

abbrev of_digit : Bytes → Result ℕ
of_digit (c ∷ []) = ok (c - b'0')
of_digit _ = err (errorf "not a digit" [])

-- The items of an array of digits are its digits.
abbrev items : Bytes → List Bytes
items [] = []
items (c ∷ s) = if leb b'0' c && leb c b'9' then (c ∷ []) ∷ items s else items s

abbrev digits : Codec ℕ
digits = record {
  marshal_json = to_digit;
  unmarshal_json = of_digit;
  unmarshal_array = λ s. ok (items s);
}

to_digit_inverse : (e : ℕ) (raw : Bytes) → to_digit e ≡ ok raw → (e < 10) × ((b'0' + e) ∷ [] ≡ raw)
to_digit_inverse e raw h = ground arith

digits_codec : (e : ℕ) (raw : Bytes) → to_digit e ≡ ok raw → (of_digit raw ≡ ok e) × All IsByte raw
digits_codec e raw h =
    let (small, same) = to_digit_inverse e raw h in
    subst (λ r. (of_digit r ≡ ok e) × All IsByte r) same (ground arith, (omega arith, tt))

abbrev AllDigits : List Bytes → Type 0
AllDigits raws = All (λ raw. (e : ℕ) × (to_digit e ≡ ok raw)) raws

items-digit :
    (raw rest : Bytes) → (e : ℕ) × (to_digit e ≡ ok raw) → items (raw ++ rest) ≡ raw ∷ items rest
items-digit raw rest (e, h) =
    let (small, same) = to_digit_inverse e raw h in
    subst (λ r. items (r ++ rest) ≡ r ∷ items rest) same (ground arith)

items-joined : (raws : List Bytes) → AllDigits raws → items (joined raws ++ b']' ∷ []) ≡ raws
items-joined [] h = refl
items-joined (raw ∷ []) (d, h) = items-digit raw (b']' ∷ []) d
items-joined (raw ∷ next ∷ raws) (d, h) =
    rw
      (
        append_assoc raw (b',' ∷ joined (next ∷ raws)) (b']' ∷ []),
        items-digit raw (b',' ∷ (joined (next ∷ raws) ++ b']' ∷ [])) d,
        items-joined (next ∷ raws) h,
      )
      refl

digits_parser :
    (raws : List Bytes) → AllDigits raws → digits.unmarshal_array (array_text raws) ≡ ok raws
digits_parser raws h = ap (λ s. ok s) (items-joined raws h)

abbrev input : Bytes
input = codes "[3, 4]"

abbrev file : Bytes
file = codes "WzMsNF0="

generated : generate digits input ≡ ok file
unfolding generate unmarshal_entries marshal_entries json_array
generated = refl

input_entries : unmarshal_entries digits 0 (items input) ≡ ok two
unfolding unmarshal_entries
input_entries = refl

loaded : (load_cmd calm setup numbers digits file "seed.txt" "testnet" 0).0.outcome ≡ ok tt
unfolding load_cmd read_entries unmarshal_entries choose_network new_provenance_client connect
    new_grpc_connection read_mnemonic priv_key_from_mnemonic reset_sequence get_account_info load
    load_from load_batch registry_bulk_update transact next_sequence sign_tx draft_tx finish_tx
    simulate_tx fee_coins broadcast_tx wait_on_tx poll polled
loaded = refl

load_cmd-IsLoaded_example :
    (entries : List ℕ) × (read_entries digits file ≡ ok entries)
    × (entries ≢ [])
    × IsLoaded calm setup numbers digits entries
        (load_cmd calm setup numbers digits file "seed.txt" "testnet" 0).0
load_cmd-IsLoaded_example =
    load_cmd-IsLoaded calm setup numbers digits file "seed.txt" "testnet" 0 loaded

-- The program with its files: an input, the seed, and an output that holds what is written.
abbrev at_out : String → Bytes → Bool
at_out path bytes = (path == "out.b64") && codes_eq bytes file

abbrev disk : Setup calm
disk = record setup {
  read_file = λ path s. (
    if path == "out.b64"
        then ok file
        else if path == "in.json"
        then ok input
        else ok (codes "seed words\n"),
    s,
  );
}

abbrev os : Os calm
os = record {
  generate_flags = λ _. ok (record { input_json = "in.json"; out = "out.b64" });
  load_flags = λ _. ok (record {
    file = "";
    mnemonic_file = "seed.txt";
    network = "testnet";
    args = "out.b64" ∷ [];
  });
  write_file =
      λ path bytes s. (if at_out path bytes then ok tt else err (errorf "no space" []), s + 1);
}

codes_eq-eq : (xs ys : Bytes) → codes_eq xs ys ≡ true → xs ≡ ys
codes_eq-eq [] [] h = refl
codes_eq-eq [] (y ∷ ys) h = cc
codes_eq-eq (x ∷ xs) [] h = cc
codes_eq-eq (x ∷ xs) (y ∷ ys) h = ground (arith, codes_eq-eq xs ys)

file_written :
    (bytes : Bytes)
    → ◌≡◌ {A = Result (Unit {0})}
        (if codes_eq bytes file then ok tt else err (errorf "no space" []))
        (ok tt)
    → codes_eq bytes file ≡ true
file_written bytes h = elim (Bool-cases (codes_eq bytes file)) [
  | inl same ↦ same
  | inr differ ↦ absurd (ground arith)
]

files_kept :
    (path : String) (bytes : Bytes) (s : ℕ)
    → (os.write_file path bytes s).0 ≡ ok tt
    → (disk.read_file path (s + 1)).0 ≡ ok bytes
files_kept path bytes s h = elim (Bool-cases (path == "out.b64")) [
  | inl there ↦
      rw there (ap (λ x. ok x) (sym (codes_eq-eq bytes file (file_written bytes (rw there at h)))))
  | inr elsewhere ↦ absurd (ground arith)
]

abbrev generated_run : Exit calm disk numbers digits os × ℕ
generated_run = main calm disk numbers digits os ("loader" ∷ "generate" ∷ []) 0

generates : generated_run ≡ (Exit.generated (ok tt), 1)
unfolding main generate_cmd generate unmarshal_entries marshal_entries json_array
generates = refl

abbrev loaded_run : Exit calm disk numbers digits os × ℕ
loaded_run = main calm disk numbers digits os ("loader" ∷ "load" ∷ []) 1

abbrev both : Loading calm numbers
both = record { reported = two ∷ []; outcome = ok tt }

loads : (n : ℕ) × (loaded_run ≡ (Exit.loaded both, n))
unfolding main load_args path_of load_cmd read_entries unmarshal_entries choose_network
    new_provenance_client connect new_grpc_connection read_mnemonic priv_key_from_mnemonic
    reset_sequence get_account_info load load_from load_batch registry_bulk_update transact
    next_sequence sign_tx draft_tx finish_tx simulate_tx fee_coins broadcast_tx wait_on_tx poll
    polled slice_end
loads = (_, refl)

generate_then_load_example : IsLoaded calm disk numbers digits two both
unfolding path_of
generate_then_load_example =
    generate_then_load calm disk numbers digits os digits_codec digits_parser files_kept "loader" []
      [] (record { input_json = "in.json"; out = "out.b64" })
      (record { file = ""; mnemonic_file = "seed.txt"; network = "testnet"; args = "out.b64" ∷ [] })
      0 1 loads.0 input (items input) two both refl refl refl input_entries (ground arith) generates
      refl refl loads.1 refl
