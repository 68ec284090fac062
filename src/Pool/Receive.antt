-- ===== src/Pool/Receive.antt =====
-- Which outcome `ParseCw20ReceiveResponse` (pkg/demoprime/pool/responses.go) reports.
use prov_go.Base.{
  ℕ, ◌≡◌, ◌⊎◌, inl, inr, first_from-cases, String, Option, some, List, [], Result, ok, err, ◌>>=◌,
  Error, errorf, arith, IsFirst, IsNone, first_from-of_IsNone,
}
use prov_go.Base.Dict.{Dict}
use prov_go.Platform.{Bytes, TxResponse}
use prov_go.Pool.Events.{flat_event_attrs, find_wasm_action_event, no_action}
use prov_go.Pool.Block.{BlockReply, Header, header_of, txs_of, block_info_from_block}
use prov_go.Pool.Types.{
  WithdrawResponseV1, Cw20WithdrawExactResponseV1, Cw20TransferResponseV1,
  Cw20TransferExactResponseV1, Cw20ReceiveOutcome, withdrawn, withdrawn_exact, transferred,
  transferred_exact,
}
use prov_go.Pool.Metadata.{Located, tx_metadata_from}
use prov_go.Pool.Responses.{
  parse_withdraw, parse_withdraw_exact, parse_transfer, parse_transfer_exact,
  parse_cw20_receive_response,
}
use prov_go.Pool.Located.{has_action, has_hash, find_from-eq, tx_metadata_from_found}

abbrev pub no_outcome : Error
no_outcome = errorf "pool: cw20 receive: no matching withdraw/transfer action" []

bound_ok :
    {A : Type 0} (r : Result Located) (f : Located → A) (l : Located)
    → r ≡ ok l
    → (v : A) × ((r >>= λ k. ok (f k)) ≡ ok v)
bound_ok r f l e = (f l, rw e)

module _ (sum : Bytes → Bytes) (t : TxResponse) (block : Option BlockReply) (h : Header)
    (txs : List Bytes) (j : ℕ) (raw : Bytes) (head : header_of block ≡ some h)
    (data_of : txs_of block ≡ some txs) (at_j : IsFirst (has_hash sum (t.tx_hash)) txs j raw) where
  -- The transaction has an event with the action, or has none.
  abbrev pub Acts : String → Type 0
  Acts action = (i : ℕ) × (m : Dict) × IsFirst (has_action action) (flat_event_attrs (some t)) i m

  abbrev pub Lacks : String → Type 0
  Lacks action = IsNone (has_action action) (flat_event_attrs (some t))

  metadata_of_Acts :
      (action : String)
      → Acts action
      → (l : Located) × (tx_metadata_from sum (some t) block action ≡ ok l)
  metadata_of_Acts action (i, m, f) =
      (_, tx_metadata_from_found sum t block action h txs i j raw m head data_of at_j f)

  metadata_of_Lacks :
      (action : String)
      → Lacks action
      → tx_metadata_from sum (some t) block action ≡ err (no_action action)
  unfolding tx_metadata_from find_wasm_action_event block_info_from_block
  metadata_of_Lacks action absent = ground (
    arith,
    find_from-eq action 0 (flat_event_attrs (some t)),
    first_from-of_IsNone (has_action action) 0 (flat_event_attrs (some t)) absent,
  )

  known_withdraw :
      Acts "withdraw" → (v : WithdrawResponseV1) × (parse_withdraw sum (some t) block ≡ ok v)
  unfolding parse_withdraw
  known_withdraw a = let (l, e) = metadata_of_Acts "withdraw" a in bound_ok _ _ l e

  silent_withdraw :
      Lacks "withdraw" → parse_withdraw sum (some t) block ≡ err (no_action "withdraw")
  unfolding parse_withdraw
  silent_withdraw l = rw (metadata_of_Lacks "withdraw" l)

  known_withdraw_exact :
      Acts "withdraw_exact"
      → (v : Cw20WithdrawExactResponseV1) × (parse_withdraw_exact sum (some t) block ≡ ok v)
  unfolding parse_withdraw_exact
  known_withdraw_exact a = let (l, e) = metadata_of_Acts "withdraw_exact" a in bound_ok _ _ l e

  silent_withdraw_exact :
      Lacks "withdraw_exact"
      → parse_withdraw_exact sum (some t) block ≡ err (no_action "withdraw_exact")
  unfolding parse_withdraw_exact
  silent_withdraw_exact l = rw (metadata_of_Lacks "withdraw_exact" l)

  known_transfer :
      Acts "transfer" → (v : Cw20TransferResponseV1) × (parse_transfer sum (some t) block ≡ ok v)
  unfolding parse_transfer
  known_transfer a = let (l, e) = metadata_of_Acts "transfer" a in bound_ok _ _ l e

  silent_transfer :
      Lacks "transfer" → parse_transfer sum (some t) block ≡ err (no_action "transfer")
  unfolding parse_transfer
  silent_transfer l = rw (metadata_of_Lacks "transfer" l)

  known_transfer_exact :
      Acts "transfer_exact"
      → (v : Cw20TransferExactResponseV1) × (parse_transfer_exact sum (some t) block ≡ ok v)
  unfolding parse_transfer_exact
  known_transfer_exact a = let (l, e) = metadata_of_Acts "transfer_exact" a in bound_ok _ _ l e

  silent_transfer_exact :
      Lacks "transfer_exact"
      → parse_transfer_exact sum (some t) block ≡ err (no_action "transfer_exact")
  unfolding parse_transfer_exact
  silent_transfer_exact l = rw (metadata_of_Lacks "transfer_exact" l)

  Acts-cases : (action : String) → Acts action ⊎ Lacks action
  Acts-cases action = elim (first_from-cases (has_action action) 0 (flat_event_attrs (some t))) [
    | inl (i, m, _, f) ↦ inl (i, m, f)
    | inr (_, absent) ↦ inr absent
  ]

  -- The outcome is that of the first action in the order withdraw, withdraw_exact, transfer,
  -- transfer_exact that an event of the transaction has, or an error if no event has one.
  abbrev pub IsFirstAction : Result Cw20ReceiveOutcome → Type 0
  IsFirstAction r =
      (Acts "withdraw"
        × (v : WithdrawResponseV1) × (parse_withdraw sum (some t) block ≡ ok v)
        × (r ≡ ok (withdrawn v)))
      ⊎ ((Lacks "withdraw"
            × Acts "withdraw_exact"
            × (v : Cw20WithdrawExactResponseV1) × (parse_withdraw_exact sum (some t) block ≡ ok v)
            × (r ≡ ok (withdrawn_exact v)))
          ⊎ ((Lacks "withdraw"
                × Lacks "withdraw_exact"
                × Acts "transfer"
                × (v : Cw20TransferResponseV1) × (parse_transfer sum (some t) block ≡ ok v)
                × (r ≡ ok (transferred v)))
              ⊎ ((Lacks "withdraw"
                    × Lacks "withdraw_exact"
                    × Lacks "transfer"
                    × Acts "transfer_exact"
                    × (v : Cw20TransferExactResponseV1) × (parse_transfer_exact sum (some t) block
                        ≡ ok v)
                    × (r ≡ ok (transferred_exact v)))
                  ⊎ (Lacks "withdraw"
                      × Lacks "withdraw_exact"
                      × Lacks "transfer"
                      × Lacks "transfer_exact"
                      × (r ≡ err no_outcome)))))

  -- For an included transaction, the outcome is that of the first action in the order withdraw,
  -- withdraw_exact, transfer, transfer_exact that one of its events has, wherever the event stands;
  -- it is an error if there is no such event.
  pub receive_order : IsFirstAction (parse_cw20_receive_response sum (some t) block)
  unfolding parse_cw20_receive_response
  receive_order = elim (Acts-cases "withdraw") [
    | inl a ↦ let (v, e) = known_withdraw a in inl (a, v, e, rw e)
    | inr l ↦ elim (Acts-cases "withdraw_exact") [
      | inl a ↦
          let (v, e) = known_withdraw_exact a in inr (inl (l, a, v, e, rw (silent_withdraw l, e)))
      | inr m ↦ elim (Acts-cases "transfer") [
        | inl a ↦
            let (v, e) = known_transfer a in
            inr (inr (inl (l, m, a, v, e, rw (silent_withdraw l, silent_withdraw_exact m, e))))
        | inr n ↦ elim (Acts-cases "transfer_exact") [
          | inl a ↦
              let (v, e) = known_transfer_exact a in
              inr (
                inr (
                  inr (
                    inl (
                      l,
                      m,
                      n,
                      a,
                      v,
                      e,
                      rw (silent_withdraw l, silent_withdraw_exact m, silent_transfer n, e),
                    ))))
          | inr o ↦ inr (
              inr (
                inr (
                  inr (
                    l,
                    m,
                    n,
                    o,
                    rw (
                      silent_withdraw l,
                      silent_withdraw_exact m,
                      silent_transfer n,
                      silent_transfer_exact o,
                    ),
                  ))))
        ]
      ]
    ]
  ]
