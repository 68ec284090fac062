-- ===== src/Marker/Valuation.antt =====
-- The goroutines of `GetAccountValue` (pkg/provenance/marker.go), one channel operation at a time:
-- the stream of balances (Stream/Channel), the loop over it, the jobs of the pool, and the goroutine
-- that sums up. `select` takes any case that is ready.
use prov_go.Base.{
  ℕ, ◌<◌, ◌≡◌, Bool, true, false, String, Option, none, some, List, [], ◌∷◌, ◌++◌, length, Error,
  cancelled,
}
use prov_go.Stream.Channel.{Stream, Link, opened, Produce}
use prov_go.Marker.Account.{
  Coin, NftAccount, AccountValue, Scopes, scope_of, run_job, no_value, add_nft,
}

-- How the loop is left: at the end of the balances, or with what was read from `ctx.Err()` or errChan.
pub data Exit : Type 0 where
  whole : Exit
  stopped : Option Error → Exit

-- `nothing` is a nil value with a nil error.
pub data Ending : Type 0 where
  valued : AccountValue → Ending
  failed : Error → Ending
  nothing : Ending

pub data Caller : Type 0 where
  looping : Caller
  submitting : List ℕ → Caller  -- in `c.Pool.Submit`
  draining : Exit → Caller  -- in `wg.Wait()`
  summing : Caller  -- at `total := <-totalChan`
  returned : Ending → Caller

-- A job that has not called `wg.Done`.
pub data Job : Type 0 where
  asking : List ℕ → Job
  leaving : Job

pub record Valuation : Type 0 where
  pub link : Link Coin
  pub caller : Caller
  pub running : List Job
  pub results : List NftAccount  -- resultsChan, of capacity 1
  pub results_closed : Bool
  pub sum : AccountValue
  pub sent : Bool  -- whether the pointer to the sum is in totalChan

-- The workers of the pool.
abbrev pub workers : ℕ
workers = 50

abbrev pub stop : Option Error → Ending
stop (some e) = failed e
stop none = nothing

-- What follows on `wg.Wait()` and the closing of resultsChan.
abbrev pub after : Exit → Caller
after whole = summing
after (stopped o) = returned (stop o)

module _ (S : Scopes) (st : Stream Coin) where
  pub data Step (v : Valuation) : Valuation → Type 0 where
    produce : {l : Link Coin} → Produce st v.link l → Step v (record v { link = l })
    cancel : Step v (record v { link = record (v.link) { cancelled = true } })
    -- The cases of the `select`.
    give_up :
        v.caller ≡ looping
        → v.link.cancelled ≡ true
        → Step v (record v { caller = draining (stopped (some cancelled)) })
    pass_over :
        {x : Coin} {xs : List Coin}
        → v.caller ≡ looping
        → v.link.buffer ≡ x ∷ xs
        → scope_of x ≡ none
        → Step v (record v { link = record (v.link) { buffer = xs } })
    take_up :
        {x : Coin} {xs : List Coin} {scope : List ℕ}
        → v.caller ≡ looping
        → v.link.buffer ≡ x ∷ xs
        → scope_of x ≡ some scope
        → Step v (record v { link = record (v.link) { buffer = xs }; caller = submitting scope })
    complete :
        v.caller ≡ looping
        → v.link.buffer ≡ []
        → v.link.buffer_closed ≡ true
        → Step v (record v { caller = draining whole })
    notice :
        {e : Error}
        → v.caller ≡ looping
        → v.link.fault ≡ some e
        → Step v (record v {
          link = record (v.link) { fault = none };
          caller = draining (stopped (some e));
        })
    -- A closed errChan gives a nil error, and it is returned.
    notice_nil :
        v.caller ≡ looping
        → v.link.fault ≡ none
        → v.link.fault_closed ≡ true
        → Step v (record v { caller = draining (stopped none) })
    submit :
        {scope : List ℕ}
        → v.caller ≡ submitting scope
        → length v.running < workers
        → Step v (record v { running = asking scope ∷ v.running; caller = looping })
    close_results :
        {x : Exit}
        → v.caller ≡ draining x
        → v.running ≡ []
        → Step v (record v { results_closed = true; caller = after x })
    finish :
        v.caller ≡ summing
        → v.sent ≡ true
        → Step v (record v { caller = returned (valued (v.sum)) })
    -- A job sends its result, or has none, and leaves.
    job_send :
        (before more : List Job) (scope : List ℕ) {nft : NftAccount}
        → v.running ≡ before ++ asking scope ∷ more
        → run_job S scope ≡ nft ∷ []
        → v.results ≡ []
        → Step v (record v { running = before ++ leaving ∷ more; results = nft ∷ [] })
    job_silent :
        (before more : List Job) (scope : List ℕ)
        → v.running ≡ before ++ asking scope ∷ more
        → run_job S scope ≡ []
        → Step v (record v { running = before ++ leaving ∷ more })
    job_leave :
        (before more : List Job)
        → v.running ≡ before ++ leaving ∷ more
        → Step v (record v { running = before ++ more })
    -- The goroutine that sums up.
    sum_take :
        {nft : NftAccount} {more : List NftAccount}
        → v.sent ≡ false
        → v.results ≡ nft ∷ more
        → Step v (record v { results = more; sum = add_nft v.sum nft })
    sum_send :
        v.sent ≡ false
        → v.results ≡ []
        → v.results_closed ≡ true
        → Step v (record v { sent = true })

  abbrev pub begin : String → Valuation
  begin address = record {
    link = opened;
    caller = looping;
    running = [];
    results = [];
    results_closed = false;
    sum = no_value address;
    sent = false;
  }

  pub data Reach (address : String) : Valuation → Type 0 where
    start : Reach address (begin address)
    later : {v u : Valuation} → Reach address v → Step v u → Reach address u
