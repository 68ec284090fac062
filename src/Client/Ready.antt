-- ===== src/Client/Ready.antt =====
-- What the client is that `NewProvenanceClient` (pkg/provenance/prov.go) returns.
use prov_go.Base.{
  ℕ, ◌≡◌, ◌∙◌, ap, subst, sym, refl, ◌⊎◌, inl, inr, Bool-cases, true, String, Option, none, some,
  List, Result, ok, err, panic, arith, is_nil, trim_space, codes, wrap_err, false,
}
use prov_go.Config.{BlockchainConfig}
use prov_go.Platform.{Platform, Bytes, BaseAccount}
use prov_go.Client.Monad.{World, Action, lift, call, wrapping, bind_inverse, bind_ok}
use prov_go.Client.Defs.{reset_sequence, get_account_info}
use prov_go.Client.Setup.{
  Setup, connect, check_mnemonic, read_mnemonic, priv_key_from_mnemonic, unsigned, keyed, numbered,
  load_account, load_key, load_signer, load_path, new_provenance_client, put_client,
  new_grpc_connection,
}

wrap_err_inverse : {A : Type 0} (s : String) (r : Result A) (a : A) → wrap_err s r ≡ ok a → r ≡ ok a
wrap_err_inverse s (ok b) a h = h
wrap_err_inverse s (err e) a h = absurd (ground arith)
wrap_err_inverse s (panic t) a h = absurd (ground arith)

module _ (P : Platform) (S : Setup P) (conf : BlockchainConfig) where
  -- The account that the node gives for the address of a key derived from a valid mnemonic.
  abbrev pub IsSigner : String → World P → Type 0
  IsSigner path after =
      (s : P.State) × (text : List ℕ) × (key : Bytes) × (w : World P) × (info : BaseAccount)
      × ((S.read_file path s).0 ≡ ok text)
      × (S.is_mnemonic_valid (trim_space text) ≡ true)
      × (S.derive conf.coin_type (trim_space text) ≡ ok key)
      × ((get_account_info P (S.address_of key) w).0 ≡ ok info)
      × (after.client ≡ record {
        priv_key = some key;
        chain_id = conf.chain_id;
        denom = conf.denom;
        address = S.address_of key;
        account_number = info.account_number;
        sequence = info.sequence;
      })

  reset_sequence_inverse :
      (w : World P) (info : BaseAccount)
      → (reset_sequence P w).0 ≡ ok info
      → (get_account_info P w.client.address w).0 ≡ ok info
  unfolding reset_sequence
  reset_sequence_inverse w info h = ground arith

  check_mnemonic_inverse :
      (text m : List ℕ) (w : World P)
      → (check_mnemonic P S text w).0 ≡ ok m
      → (S.is_mnemonic_valid (trim_space text) ≡ true) × (trim_space text ≡ m)
  check_mnemonic_inverse text m w h = ground arith

  load_account-numbered :
      (key : Bytes) (w : World P) (u : Unit {0})
      → (load_account P S conf key w).0 ≡ ok u
      → (w' : World P) × (info : BaseAccount) × ((get_account_info P (S.address_of key) w').0
          ≡ ok info)
        × ((load_account P S conf key w).1.client ≡ numbered P S conf key info)
  load_account-numbered key w u h =
      let w' = (put_client P S (keyed P S conf key) w).1 in
      let resync = wrapping "error getting account info: %w" (reset_sequence P) in
      let put : BaseAccount → Action P (Unit {0}) =
        λ info. put_client P S (numbered P S conf key info) in
      let (info, e, _) = bind_inverse resync put w' u h in
      (
        w',
        info,
        reset_sequence_inverse w' info (wrap_err_inverse _ _ info e),
        ap (λ x. x.1.client) (bind_ok resync put w' info e),
      )

  load_signer-IsSigner :
      (path : String) (w : World P) (u : Unit {0})
      → (load_signer P S conf path w).0 ≡ ok u
      → IsSigner path (load_signer P S conf path w).1
  unfolding read_mnemonic priv_key_from_mnemonic
  load_signer-IsSigner path w u h =
      let read = wrapping {P = P} "error reading mnemonic: %w" (read_mnemonic P S path) in
      let (mnemonic, e, h1) = bind_inverse read (load_key P S conf) w u h in
      let (text, e1, h2) =
        bind_inverse (call (S.read_file path)) (check_mnemonic P S) w mnemonic
          (wrap_err_inverse _ _ mnemonic e) in
      let derive =
        wrapping {P = P} "error deriving key from mnemonic: %w"
          (lift (priv_key_from_mnemonic P S conf mnemonic)) in
      let (key, e2, h3) = bind_inverse derive (load_account P S conf) (read w).1 u h1 in
      let (w', info, known, done) = load_account-numbered key (read w).1 u h3 in
      let (valid, same) = check_mnemonic_inverse text mnemonic _ h2 in
      let run : load_signer P S conf path w ≡ load_account P S conf key (read w).1 =
        bind_ok read (load_key P S conf) w mnemonic e
        ∙ bind_ok derive (load_account P S conf) (read w).1 key e2 in
      (
        w.node,
        text,
        key,
        w',
        info,
        e1,
        valid,
        rw same (wrap_err_inverse _ _ key e2),
        known,
        ap (λ x. x.1.client) run ∙ done,
      )

  abbrev pub IsBlank : Option String → Type 0
  IsBlank none = Unit
  IsBlank (some p) = is_nil (trim_space (codes p)) ≡ true

  -- With a blank path or none, the client has no key; otherwise it is that of the file's mnemonic.
  abbrev pub IsReady : Option String → World P → Type 0
  IsReady path after =
      (IsBlank path
        × (after.client ≡ record {
          priv_key = none;
          chain_id = conf.chain_id;
          denom = conf.denom;
          address = "";
          account_number = 0;
          sequence = 0;
        }))
      ⊎ ((p : String) × (path ≡ some p)
          × (is_nil (trim_space (codes p)) ≡ false)
          × IsSigner p after)

  load_path-IsReady :
      (path : Option String) (w : World P) (u : Unit {0})
      → w.client ≡ unsigned P S conf
      → (load_path P S conf path w).0 ≡ ok u
      → IsReady path (load_path P S conf path w).1
  load_path-IsReady none w u same h = inl (tt, same)
  load_path-IsReady (some p) w u same h = elim (Bool-cases (is_nil (trim_space (codes p)))) [
    | inl blank ↦ inl (blank, rw blank same)
    | inr given ↦ inr (p, refl, given, rw given (load_signer-IsSigner p w u (rw given at h)))
  ]

  connect-client : (w : World P) → (connect P S conf w).1.client ≡ w.client
  unfolding connect new_grpc_connection
  connect-client w = ground arith

  -- The client that `NewProvenanceClient` returns without an error: with a blank path or none it has
  -- no key and only queries; otherwise its key is derived from the valid mnemonic of the file, on
  -- the path of the chain's coin type, and its account and sequence numbers are those that the node
  -- gives for the key's address.
  pub new_provenance_client-IsReady :
      (path : Option String) (s : P.State) (u : Unit {0})
      → (new_provenance_client P S conf path s).0 ≡ ok u
      → IsReady path (new_provenance_client P S conf path s).1
  unfolding new_provenance_client
  new_provenance_client-IsReady path s u h =
      let w : World P = record { client = unsigned P S conf; node = s } in
      let open_up = wrapping "error creating gRPC connection: %w" (connect P S conf) in
      let load : Unit {0} → Action P (Unit {0}) = λ _. load_path P S conf path in
      let (v, e, h1) = bind_inverse open_up load w u h in
      subst (λ x. IsReady path x.1) (sym (bind_ok open_up load w v e))
        (load_path-IsReady path (open_up w).1 u (connect-client w) h1)
