-- ===== src/Registry/Command.antt =====
-- What a run of `loadCmd` (examples/registry/loader.go) that ends without an error has done.
use prov_go.Base.{
  ◌≡◌, ◌≢◌, refl, ap, ◌∙◌, sym, inl, inr, ◌==◌, Bool-cases, List, [], ◌∷◌, ◌>>=◌, ◌++◌, append-nil,
  Result, ok, err, panic, String, some, All, concat, arith,
}
use prov_go.Config.{BlockchainConfig}
use prov_go.Platform.{Platform, Bytes}
use prov_go.Client.Monad.{World}
use prov_go.Client.Setup.{Setup, new_provenance_client}
use prov_go.Registry.Slices.{IsSlice}
use prov_go.Registry.Update.{Registry, Loading, load}
use prov_go.Registry.Loaded.{AllConfirmed, IsReport, load_reports}
use prov_go.Registry.Stored.{chain_inverse}
use prov_go.Registry.Files.{
  Codec, decoded, parse_text, refuse_empty, read_entries, choose_network, load_cmd, with_entries,
  with_network, with_client,
}

module _ (P : Platform) (S : Setup P) (R : Registry P) (C : Codec R.Entry) where
  -- All entries are in the reported slices, in order, one to fifteen in each, and from some state of the
  -- client and the node on they are confirmed one after the other.
  abbrev pub IsLoaded : List R.Entry → Loading P R → Type 0
  IsLoaded entries l =
      (concat (l.reported) ≡ entries)
      × All (IsSlice entries) (l.reported)
      × (w : World P) × AllConfirmed P R (l.reported) w

  load-IsLoaded :
      (entries : List R.Entry) (w : World P)
      → (load P R entries w).0.outcome ≡ ok tt
      → IsLoaded entries (load P R entries w).0
  load-IsLoaded entries w e = of_report (load_reports P R entries w)
    where
      of_report :
          IsReport P R entries w (load P R entries w).0 → IsLoaded entries (load P R entries w).0
      of_report (left, cut, sized, sure, inr (bad, _)) = absurd (bad e)
      of_report (left, cut, sized, sure, inl (_, none_left)) = (
        sym (append-nil _)
            ∙ ap (λ x. concat ((load P R entries w).0.reported) ++ x) (sym none_left)
            ∙ cut,
        sized,
        w,
        sure,
      )

  with_client-IsLoaded :
      (entries : List R.Entry) (r : Result (Unit {0}) × World P)
      → (with_client P S R C entries r).0.outcome ≡ ok tt
      → IsLoaded entries (with_client P S R C entries r).0
  with_client-IsLoaded entries (ok u, w) e = load-IsLoaded entries w e
  with_client-IsLoaded entries (err x, w) e = absurd (ground arith)
  with_client-IsLoaded entries (panic x, w) e = absurd (ground arith)

  with_network-IsLoaded :
      (mnemonic : String) (entries : List R.Entry) (r : Result BlockchainConfig) (s : P.State)
      → (with_network P S R C mnemonic entries r s).0.outcome ≡ ok tt
      → IsLoaded entries (with_network P S R C mnemonic entries r s).0
  with_network-IsLoaded mnemonic entries (ok conf) s e =
      with_client-IsLoaded entries (new_provenance_client P S conf (some mnemonic) s) e
  with_network-IsLoaded mnemonic entries (err x) s e = absurd (ground arith)
  with_network-IsLoaded mnemonic entries (panic x) s e = absurd (ground arith)

  refuse_empty-nonempty :
      (found entries : List R.Entry) → refuse_empty C found ≡ ok entries → entries ≢ []
  refuse_empty-nonempty [] entries h q = absurd (ground arith)
  refuse_empty-nonempty (x ∷ xs) entries h q = ground arith

  read_entries-nonempty :
      (file : Bytes) (entries : List R.Entry) → read_entries C file ≡ ok entries → entries ≢ []
  unfolding read_entries
  read_entries-nonempty file entries h q =
      let (text, _, h1) =
        chain_inverse (decoded C file) (λ t. parse_text C t >>= refuse_empty C) entries h in
      let (found, _, h2) = chain_inverse (parse_text C text) (refuse_empty C) entries h1 in
      refuse_empty-nonempty found entries h2 q

  with_entries-IsLoaded :
      (mnemonic network : String) (r : Result (List R.Entry)) (s : P.State)
      → (with_entries P S R C mnemonic network r s).0.outcome ≡ ok tt
      → (entries : List R.Entry) × (r ≡ ok entries)
        × IsLoaded entries (with_entries P S R C mnemonic network r s).0
  with_entries-IsLoaded mnemonic network (ok entries) s e =
      (entries, refl, with_network-IsLoaded mnemonic entries (choose_network network) s e)
  with_entries-IsLoaded mnemonic network (err x) s e = absurd (ground arith)
  with_entries-IsLoaded mnemonic network (panic x) s e = absurd (ground arith)

  -- If `loadCmd` ends without an error, then its file has at least one entry, and the slices that it
  -- reports hold every entry of the file, in order, one to fifteen in a slice, and one after the
  -- other each slice was sent, and found in a block with code 0.
  pub load_cmd-IsLoaded :
      (file : Bytes) (mnemonic network : String) (s : P.State)
      → (load_cmd P S R C file mnemonic network s).0.outcome ≡ ok tt
      → (entries : List R.Entry) × (read_entries C file ≡ ok entries)
        × (entries ≢ [])
        × IsLoaded entries (load_cmd P S R C file mnemonic network s).0
  unfolding load_cmd
  load_cmd-IsLoaded file mnemonic network s e = elim (Bool-cases (mnemonic == "")) [
    | inl missing ↦ absurd (ground arith)
    | inr given ↦
        let (entries, found, done) =
          with_entries-IsLoaded mnemonic network (read_entries C file) s (rw given at e) in
        (entries, found, read_entries-nonempty file entries found, rw given done)
  ]
