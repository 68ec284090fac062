-- ===== src/Stream/Watch.antt =====
-- `streamBalances` (examples/bank/balances.go), which prints what comes over the two channels of a
-- paginated query, and ends the program at an error. Its context is never cancelled.
use prov_go.Base.{◌≡◌, true, List, [], ◌∷◌, ◌++◌, none, some, Error}
use prov_go.Stream.Channel.{Stream, Link, opened, Produce}

-- With what has been printed: in the loop, after "no more balances", and after `log.Fatalf`.
pub data Watcher (A : Type 0) : Type 0 where
  watching : List A → Watcher A
  ended : List A → Watcher A
  fatal : List A → Error → Watcher A

pub record Screen (A : Type 0) : Type 0 where
  pub link : Link A
  pub watcher : Watcher A

pub data Step {A : Type 0} (st : Stream A) (s : Screen A) : Screen A → Type 0 where
  -- The goroutine goes on while the program runs.
  produce :
      {l : Link A} {acc : List A}
      → s.watcher ≡ watching acc
      → Produce st s.link l
      → Step st s (record s { link = l })
  print :
      {acc xs : List A} {x : A}
      → s.watcher ≡ watching acc
      → s.link.buffer ≡ x ∷ xs
      → Step st s
          (record { link = record (s.link) { buffer = xs }; watcher = watching (acc ++ x ∷ []) })
  no_more :
      {acc : List A}
      → s.watcher ≡ watching acc
      → s.link.buffer ≡ []
      → s.link.buffer_closed ≡ true
      → Step st s (record s { watcher = ended acc })
  notice :
      {acc : List A} {e : Error}
      → s.watcher ≡ watching acc
      → s.link.fault ≡ some e
      → Step st s (record { link = record (s.link) { fault = none }; watcher = fatal acc e })
  -- A closed errChan gives a nil error, and the loop goes round again.
  idle :
      {acc : List A}
      → s.watcher ≡ watching acc
      → s.link.fault ≡ none
      → s.link.fault_closed ≡ true
      → Step st s s

pub data Reach {A : Type 0} (st : Stream A) : Screen A → Type 0 where
  start : Reach st (record { link = opened; watcher = watching [] })
  later : {s t : Screen A} → Reach st s → Step st s t → Reach st t
