-- ===== src/Client/Defs.antt =====
-- The methods of pkg/provenance/prov.go and simulate.go that keep the sequence number, and sign,
-- simulate, send and await a transaction. Printing is left out.
use prov_go.Base.{
  ℕ, zero, suc, ◌+◌, ◌%◌, ◌^◌, not, String, ◌==◌, Option, none, some, List, [], ◌∷◌, Result, ok,
  err, panic, Error, errorf, str,
}
use prov_go.Base.Int.{as_int64}
use prov_go.Platform.{Platform, Bytes, TxResponse, TxReply, BaseAccount, GasInfo, SignerData}
use prov_go.Client.Monad.{Action, ◌>>=◌, ◌>>◌, lift, gets, call, deref, wrapping, guard}

abbrev pub no_address : Error
no_address = errorf "provenance client has no address" []

-- What the loop of `WaitOnTx` makes of one reply.
pub data Polled : Type 0 where
  ready : TxReply → TxResponse → Polled
  again : Polled
  broken : String → Polled

unfoldable pub polled : Result (Option TxReply) → Polled
polled (ok none) = again
polled (ok (some r)) = elim (r.tx_response) [ none ↦ again | some t ↦ ready r t ]
polled (err e) = again
polled (panic s) = broken s

abbrev pub gave_up : String → Error
gave_up hash = errorf "get tx: gave up after timeout for hash %s" (str hash ∷ [])

module _ (P : Platform) where
  abbrev pub set_sequence : ℕ → Action P (Unit {0})
  set_sequence n w = (ok tt, record w { client = record (w.client) { sequence = n } })

  -- `c.Sequence++` on a uint64, under the client's mutex.
  unfoldable pub next_sequence : Action P ℕ
  next_sequence = do
    current ← gets (λ c. c.sequence)
    set_sequence ((current + 1) % 2 ^ 64)
    lift (ok current)

  unfoldable pub get_account_info : String → Action P BaseAccount
  get_account_info address = do
    value ← deref (← call (P.account address))
    lift (P.unmarshal_account value)

  unfoldable pub reset_sequence : Action P BaseAccount
  reset_sequence = do
    address ← gets (λ c. c.address)
    guard (not (address == "")) no_address
    info ← get_account_info address
    set_sequence info.sequence
    lift (ok info)

  -- The reply's gas used, which the caller takes for the fee, and its gas wanted.
  unfoldable pub simulate_tx : P.Builder → Action P GasInfo
  simulate_tx builder = do
    tx ← wrapping "failed to encode tx: %w" (lift (P.encode_tx builder))
    info ← wrapping "simulate tx failed: %w" (call (P.simulate tx))
    deref info

  -- Where `m` fails, run `cleanup`, and return the error of `m`.
  abbrev pub on_error : {A B : Type 0} → Action P A → Action P B → Action P A
  on_error m cleanup w =
      let (r, w') = m w in
      elim r [
        | ok a ↦ (ok a, w')
        | panic s ↦ (panic s, w')
        | err e ↦
            let (r', w'') = cleanup w' in
            elim r' [ ok _ ↦ (err e, w'') | err _ ↦ (err e, w'') | panic s ↦ (panic s, w'') ]
      ]

  -- `int64(feeAmount) + additionalFee`, with its wrap-around; `NewInt64Coin` panics on a negative
  -- amount.
  unfoldable pub fee_coins : String → ℕ → ℕ → Result P.Coins
  fee_coins denom gas additional = P.new_coins denom (as_int64 ((gas + additional) % 2 ^ 64))

  -- The body of `SignTx` before the simulation.
  unfoldable pub draft_tx : List P.Msg → Bytes → ℕ → Result P.Builder
  draft_tx msgs key sequence = elim (P.set_msgs P.new_builder msgs) [
    | ok b ↦
        P.set_signatures b
          (record { pub_key = P.pub_key key; signature = none; sequence = sequence } ∷ [])
    | err e ↦ err e
    | panic s ↦ panic s
  ]

  -- The body of `SignTx` after the simulation.
  unfoldable pub finish_tx : P.Builder → Bytes → ℕ → ℕ → ℕ → GasInfo → Action P Bytes
  finish_tx draft key account_number sequence additional_fee gas = do
    chain_id ← gets (λ c. c.chain_id)
    denom ← gets (λ c. c.denom)
    coins ← lift (fee_coins denom gas.gas_used additional_fee)
    let builder = P.set_fee_amount draft coins
    let signer : SignerData = record {
      chain_id = chain_id;
      account_number = account_number;
      sequence = sequence;
    }
    signature ← lift (P.sign_with_priv_key signer builder key sequence)
    signed ← lift (P.set_signatures builder (signature ∷ []))
    tx ← lift (P.encode_tx signed)
    json ← lift (P.encode_json signed)
    lift (ok tx)

  unfoldable pub sign_tx : List P.Msg → Bytes → ℕ → ℕ → ℕ → Action P Bytes
  sign_tx msgs key account_number sequence additional_fee = do
    draft ← lift (draft_tx msgs key sequence)
    gas ← on_error (simulate_tx draft) reset_sequence
    finish_tx draft key account_number sequence additional_fee gas

  unfoldable pub broadcast_tx : Bytes → Action P TxReply
  broadcast_tx tx = wrapping "failed to broadcast: %w" (call (P.broadcast tx))

  -- `for i := 0; i < 10; i++` by the rounds that are left.
  unfoldable pub poll : ℕ → String → Action P TxReply
  poll zero hash w = (err (gave_up hash), w)
  poll (suc n) hash w =
      let (r, s) = P.get_tx hash w.node in
      elim (polled r) [
        | ready reply _ ↦ (ok reply, record w { node = s })
        | again ↦ poll n hash (record w { node = P.sleep s })
        | broken t ↦ (panic t, record w { node = s })
      ]

  unfoldable pub wait_on_tx : String → Action P TxReply
  wait_on_tx hash = do guard (not (hash == "")) (errorf "no tx hash provided" []); poll 10 hash
