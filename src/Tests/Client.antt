-- ===== src/Tests/Client.antt =====
-- Runs of the client (pkg/provenance/prov.go) and of `BroadcastMsgs`
-- (pkg/demoprime/contract/base_client.go).
use prov_go.Base.{◌≡◌, ◌≢◌, refl, ◌⊎◌, String, List, [], ◌∷◌, ok, err, arith, Error, wrapf}
use prov_go.Platform.{TxResponse, Bytes}
use prov_go.Client.Defs.{
  next_sequence, sign_tx, wait_on_tx, simulate_tx, draft_tx, get_account_info,
}
use prov_go.Client.Submit.{broadcast_msgs, done}
use prov_go.Client.Sequence.{after_calls, next_sequence_distinct}
use prov_go.Client.Signing.{Resynced, sign_tx-client, sign_tx_resyncs}
use prov_go.Client.Sending.{broadcast_msgs_sequence}
use prov_go.Client.Waiting.{Decided, wait_on_tx_decides}
use prov_go.Tests.Sample.{calm, wary, calm_world, wary_world, signer, refusal, on_chain}

abbrev messages : List String
messages = "send" ∷ []

abbrev key : Bytes
key = 5 ∷ []

next_sequence_distinct_example :
    ((next_sequence calm (after_calls calm 1 calm_world)).0 ≡ ok 12)
    × ((next_sequence calm (after_calls calm 1 calm_world)).0
        ≢ (next_sequence calm (after_calls calm 3 calm_world)).0)
next_sequence_distinct_example =
    next_sequence_distinct calm 1 3 calm_world (omega arith) (omega arith) (omega arith)

sign_tx-client_example :
    let (r, w) = sign_tx wary messages key 7 11 0 wary_world in
    (w.client ≡ signer) ⊎ (Resynced wary wary_world w × ((a : Bytes) → r ≢ ok a))
sign_tx-client_example = sign_tx-client wary messages key 7 11 0 wary_world

abbrev failure : Error
failure = wrapf "simulate tx failed: %w" [] refusal

drafted : draft_tx wary messages key 11 ≡ ok messages
unfolding draft_tx
drafted = refl

simulation_fails : (simulate_tx wary messages wary_world).0 ≡ err failure
unfolding simulate_tx
simulation_fails = refl

account_known :
    (get_account_info wary signer.address (simulate_tx wary messages wary_world).1).0 ≡ ok on_chain
unfolding get_account_info
account_known = refl

sign_tx_resyncs_example :
    let (r, w) = sign_tx wary messages key 7 11 0 wary_world in
    (r ≡ err failure) × ((next_sequence wary w).0 ≡ ok 42)
sign_tx_resyncs_example =
    sign_tx_resyncs wary messages key 7 11 0 wary_world messages failure on_chain drafted
      simulation_fails refl account_known

broadcast_msgs_sequence_example :
    let (r, w) = broadcast_msgs calm messages calm_world in
    (w.client ≡ record signer { sequence = 12 })
    ⊎ (Resynced calm calm_world w × ((t : TxResponse) → r ≢ done t))
broadcast_msgs_sequence_example = broadcast_msgs_sequence calm messages key calm_world refl

-- The node finds the transaction from its fourth call on.
wait_on_tx_decides_example : Decided calm "AB" 10 calm_world (wait_on_tx calm "AB" calm_world)
wait_on_tx_decides_example = wait_on_tx_decides calm "AB" calm_world refl
