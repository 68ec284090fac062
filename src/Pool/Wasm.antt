-- ===== src/Pool/Wasm.antt =====
-- The pool client (pkg/demoprime/pool/client.go, cw20_withdraw.go): every method builds a message,
-- executes it, and parses the response.
use prov_go.Base.{List, Option, Result, String, [], err, ok, panic, signed, some, wrapf, ◌∷◌}
use prov_go.Base.Int.{ℤ}
use prov_go.Platform.{Bytes, Platform, TxResponse}
use prov_go.Client.Monad.{◌>>=◌, Action, World, gets, lift}
use prov_go.Client.Submit.{Executed, check_code, done, failed, panicked, require_signer, submit}
use prov_go.Pool.Json.{Json}
use prov_go.Pool.Block.{BlockReply}

-- The messages of CosmWasm and authz, and the node's blocks. `sum` is `tmhash.Sum`.
pub record Wasm (P : Platform) : Type 0 where
  pub execute_contract : (sender contract : String) → Json → Option P.Coins → P.Msg
  pub msg_exec : (grantee : String) → List P.Msg → Result P.Msg  -- panics on a malformed address
  pub block_by_height : ℤ → P.State → Result (Option BlockReply) × P.State
  pub sum : Bytes → Bytes

-- The value of a call whose `*sdk.TxResponse` is dropped where there is an error.
abbrev pub to_result : {A : Type 0} → Executed A → Result A
to_result (done a) = ok a
to_result (failed _ e) = err e
to_result (panicked s) = panic s

module _ (P : Platform) (W : Wasm P) where
  abbrev pub Confirmed : Type 0
  Confirmed = record { tx : TxResponse; block : Option BlockReply }

  fetched : TxResponse → Result (Option BlockReply) → Executed Confirmed
  fetched t (ok b) = done (record { tx = t; block = b })
  fetched t (err e) = failed (some t) (wrapf "pool: get block %d: %w" (signed t.height ∷ []) e)
  fetched t (panic s) = panicked s

  -- The block of a transaction that has gone through.
  unfoldable pub with_block : Executed TxResponse → World P → Executed Confirmed × World P
  unfolding fetched
  with_block (done t) w =
      let (b, s) = W.block_by_height t.height w.node in (fetched t b, record w { node = s })
  with_block (failed t e) w = (failed t e, w)
  with_block (panicked s) w = (panicked s, w)

  -- `submit` and the check of the code are the same calls as in `BroadcastMsgs`, with other texts.
  unfoldable pub broadcast_and_wait : List P.Msg → World P → Executed Confirmed × World P
  broadcast_and_wait msgs w =
      let (r, w') = submit P "pool" msgs w in with_block (check_code "pool" r) w'

  abbrev pub confirmed : List P.Msg → Action P Confirmed
  confirmed msgs w = let (r, w') = broadcast_and_wait msgs w in (to_result r, w')

  unfoldable pub execute_on_contract :
      (sender contract : String) → Json → Option P.Coins → Action P Confirmed
  execute_on_contract sender contract msg funds =
      confirmed (W.execute_contract sender contract msg funds ∷ [])

  -- The three ways to run a message on the pool at `contract_addr`.
  module _ (contract_addr : String) where
    unfoldable pub execute : Json → Option P.Coins → Action P Confirmed
    execute msg funds = do
      sender ← gets (λ c. c.address)
      execute_on_contract sender contract_addr msg funds

    unfoldable pub execute_on_behalf_of : String → Json → Option P.Coins → Action P Confirmed
    execute_on_behalf_of granter msg funds = do
      key ← require_signer P
      grantee ← gets (λ c. c.address)
      exec ← lift (W.msg_exec grantee (W.execute_contract granter contract_addr msg funds ∷ []))
      confirmed (exec ∷ [])

  -- What a method does with the executed transaction.
  unfoldable pub respond :
      {V : Type 0}
      → Action P Confirmed
      → ((Bytes → Bytes) → Option TxResponse → Option BlockReply → Result V)
      → Action P V
  respond m parse = do c ← m; lift (parse W.sum (some (c.tx)) (c.block))
