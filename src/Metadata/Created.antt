-- ===== src/Metadata/Created.antt =====
-- When `CreateScope` (pkg/provenance/metadata.go) sends a transaction.
use prov_go.Base.{
  ◌+◌, ◌%◌, ◌^◌, ◌≡◌, ◌≢◌, ap, ◌∙◌, sym, subst, ◌⊎◌, inl, inr, String, none, some, List, [], ◌∷◌,
  Result, ok, Result-cases, arith,
}
use prov_go.Platform.{Platform, Bytes, TxReply}
use prov_go.Client.Monad.{World, ProvenanceClient}
use prov_go.Client.Defs.{next_sequence}
use prov_go.Client.Signing.{Resynced}
use prov_go.Client.Sending.{taken, Accounted}
use prov_go.Client.Transact.{transact, transact-Accounted}
use prov_go.Metadata.Types.{MsgWriteScopeRequest, new_scope}
use prov_go.Metadata.Scopes.{Metadata, get_scope, create_scope}

module _ (P : Platform) (M : Metadata P) (scope_spec_uuid scope_uuid : String) where
  get_scope-client : (w : World P) → (get_scope P M scope_uuid w).1.client ≡ w.client
  unfolding get_scope
  get_scope-client w = ground arith

  -- Nothing is signed: the client is as it was, and there is no reply.
  abbrev pub IsUnsent : World P → Type 0
  IsUnsent w =
      let (r, w') = create_scope P M scope_spec_uuid scope_uuid w in
      (w'.client ≡ w.client) × ((t : TxReply) → r ≢ ok t)

  -- The node has no such scope, and the call is the transaction that writes it; one sequence number
  -- is taken, or the account's number is left in its place, and then the call fails.
  abbrev pub IsSent : World P → Type 0
  IsSent w =
      let (r, w') = create_scope P M scope_spec_uuid scope_uuid w in
      let asked = (get_scope P M scope_uuid w).1 in
      ((get_scope P M scope_uuid w).0 ≡ ok none)
      × (msg : MsgWriteScopeRequest) × (new_scope M.addresses w.client.address scope_spec_uuid
            scope_uuid
          ≡ ok msg)
      × ((r, w') ≡ transact P (M.write_scope msg ∷ []) asked)
      × ((w'.client ≡ record (w.client) { sequence = (w.client.sequence + 1) % 2 ^ 64 })
          ⊎ (Resynced P asked w' × ((t : TxReply) → r ≢ ok t)))

  create_scope_run :
      (w : World P) (msg : MsgWriteScopeRequest)
      → (get_scope P M scope_uuid w).0 ≡ ok none
      → new_scope M.addresses w.client.address scope_spec_uuid scope_uuid ≡ ok msg
      → create_scope P M scope_spec_uuid scope_uuid w
        ≡ transact P (M.write_scope msg ∷ []) (get_scope P M scope_uuid w).1
  unfolding create_scope
  create_scope_run w msg e f = ground (arith, get_scope-client w)

  -- What a transaction does to the sequence number, from a world with the same client.
  abbrev IsCounted : World P → World P → Result TxReply × World P → Type 0
  IsCounted w asked (r, w') =
      (w'.client ≡ record (w.client) { sequence = (w.client.sequence + 1) % 2 ^ 64 })
      ⊎ (Resynced P asked w' × ((t : TxReply) → r ≢ ok t))

  transact-IsCounted :
      (key : Bytes) (w asked : World P) (msgs : List P.Msg)
      → asked.client ≡ w.client
      → w.client.priv_key ≡ some key
      → IsCounted w asked (transact P msgs asked)
  unfolding next_sequence
  transact-IsCounted key w asked msgs same signer =
      count (transact-Accounted P msgs key asked (rw same signer))
    where
      count :
          Accounted P (taken P asked) (transact P msgs asked)
          → IsCounted w asked (transact P msgs asked)
      count (inl k) = inl (
          k ∙ ap (λ (c : ProvenanceClient). record c { sequence = (c.sequence + 1) % 2 ^ 64 }) same)
      count (inr k) = inr k

  -- For a client with a key: `CreateScope` signs nothing and fails, or the node has just said that
  -- there is no such scope, and the call is the one transaction that writes it.
  pub create_scope_decides :
      (key : Bytes) (w : World P) → w.client.priv_key ≡ some key → IsUnsent w ⊎ IsSent w
  unfolding create_scope next_sequence
  create_scope_decides key w signer = elim (Result-cases (get_scope P M scope_uuid w).0) [
    | inr (inl (x, e)) ↦ inl (ground (arith, get_scope-client w), λ t. ground arith)
    | inr (inr (x, e)) ↦ inl (ground (arith, get_scope-client w), λ t. ground arith)
    | inl (some s, e) ↦ inl (ground (arith, get_scope-client w), λ t. ground arith)
    | inl (none, e) ↦
        elim (Result-cases (new_scope M.addresses w.client.address scope_spec_uuid scope_uuid)) [
          | inr (inl (x, f)) ↦
              inl (ground (arith, get_scope-client w), λ t. ground (arith, get_scope-client w))
          | inr (inr (x, f)) ↦
              inl (ground (arith, get_scope-client w), λ t. ground (arith, get_scope-client w))
          | inl (msg, f) ↦
              let run = create_scope_run w msg e f in
              inr (
                e,
                msg,
                f,
                run,
                subst (IsCounted w (get_scope P M scope_uuid w).1) (sym run)
                    (transact-IsCounted key w _ _ (get_scope-client w) signer),
              )
        ]
  ]
