-- ===== src/Stream/Collect.antt =====
-- The callers that gather a stream into a slice: GetBalances (pkg/provenance/bank.go), GetAttributes,
-- GetAttributedAccounts (attribute.go), GetStakingValidators and GetDelegationsByDelegator
-- (staking.go). Their loop is one `select` over the context, the item channel and the error channel,
-- which takes any case that is ready.
use prov_go.Base.{◌≡◌, true, List, [], ◌∷◌, ◌++◌, none, some, Error, cancelled, Result, ok, err}
use prov_go.Stream.Channel.{Stream, Link, opened, Produce}

pub data Collector (A : Type 0) : Type 0 where
  collecting : List A → Collector A
  returned : Result (List A) → Collector A

pub record System (A : Type 0) : Type 0 where
  pub link : Link A
  pub open link use *
  pub collector : Collector A

-- A step of the goroutine or of its caller that changes the state.
pub data Advance {A : Type 0} (st : Stream A) (s : System A) : System A → Type 0 where
  produce : {l : Link A} → Produce st s.link l → Advance st s (record s { link = l })
  give_up :
      {acc : List A}
      → s.collector ≡ collecting acc
      → s.link.cancelled ≡ true
      → Advance st s (record s { collector = returned (err cancelled) })
  receive :
      {acc xs : List A} {x : A}
      → s.collector ≡ collecting acc
      → s.link.buffer ≡ x ∷ xs
      → Advance st s (record {
        link = record (s.link) { buffer = xs };
        collector = collecting (acc ++ x ∷ []);
      })
  complete :
      {acc : List A}
      → s.collector ≡ collecting acc
      → s.link.buffer ≡ []
      → s.link.buffer_closed ≡ true
      → Advance st s (record s { collector = returned (ok acc) })
  notice :
      {acc : List A} {e : Error}
      → s.collector ≡ collecting acc
      → s.link.fault ≡ some e
      → Advance st s
          (record { link = record (s.link) { fault = none }; collector = returned (err e) })

pub data Step {A : Type 0} (st : Stream A) (s : System A) : System A → Type 0 where
  advance : {t : System A} → Advance st s t → Step st s t
  -- The context may be cancelled at any moment.
  cancel : Step st s (record s { link = record (s.link) { cancelled = true } })
  -- A closed errChan gives a nil error, and the loop goes round again.
  idle :
      {acc : List A}
      → s.collector ≡ collecting acc
      → s.link.fault ≡ none
      → s.link.fault_closed ≡ true
      → Step st s s

abbrev pub initial : {A : Type 0} → System A
initial = record { link = opened; collector = collecting [] }

pub data Reach {A : Type 0} (st : Stream A) : System A → Type 0 where
  start : Reach st initial
  later : {s t : System A} → Reach st s → Step st s t → Reach st t
