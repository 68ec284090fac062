-- ===== src/Client/Mutex.antt =====
-- What goroutines that share one client do under its mutex (pkg/provenance/prov.go): `NextSequence`,
-- the store of `ResetSequence`, and the query clients that are made on first use. A move is one
-- statement, and the goroutines are interleaved in any order.
use prov_go.Base.{
  ℕ, ◌+◌, ◌%◌, ◌^◌, ◌≡◌, refl, String, ◌==◌, false, Option, none, some, List, [], ◌∷◌, ◌++◌,
}
use mathlib.Core.Logic.{ite, if_pos}
use native.Mathlib.Decide.{ℕ_discrete}

-- The accessors AuthClient, AttributeClient, ... of one query client each.
pub data Service : Type 0 where
  auth : Service
  attribute : Service
  bank : Service
  marker : Service
  metadata : Service
  tendermint : Service
  node : Service
  staking : Service

pub Service-discrete : Discrete Service
Service-discrete = hlevel

-- The calls that have ended: a number given out, or one stored.
pub data Ended : Type 0 where
  took : ℕ → Ended
  stored : ℕ → Ended

-- The fields that the mutex guards. A query client is its address: the number of clients made before.
pub record Shared : Type 0 where
  pub holder : Option ℕ  -- the goroutine that holds the mutex
  pub sequence : ℕ
  pub clients : Service → Option ℕ
  pub made : Service → ℕ  -- how often a client of the service has been made
  pub made_in_all : ℕ
  pub history : List Ended
  pub given : List (Service × ℕ)  -- what the accessors have returned

-- Who has called an accessor: the user of the client, or `GetAccountInfo` within `ResetSequence`.
pub data Caller : Type 0 where
  user : Caller
  reset : Caller

-- Where a goroutine stands: before the statement that is named.
pub data Pc : Type 0 where
  idle : Pc
  -- NextSequence
  next_lock : Pc
  next_read : Pc
  next_write : (current : ℕ) → Pc
  next_unlock : (current : ℕ) → Pc
  -- an accessor
  client_lock : Service → Caller → Pc
  client_test : Service → Caller → Pc
  client_make : Service → Caller → Pc
  client_unlock : Service → Caller → Pc
  -- ResetSequence, once it has the auth client
  reset_query : Pc
  reset_lock : ℕ → Pc
  reset_store : ℕ → Pc
  reset_unlock : ℕ → Pc

abbrev pub back : Caller → Pc
back user = idle
back reset = reset_query

abbrev pub put_at : Service → ℕ → (Service → Option ℕ) → Service → Option ℕ
put_at k p f j = ite (Service-discrete k j) (some p) (f j)

pub put_at-some : (k : Service) (p : ℕ) (f : Service → Option ℕ) → put_at k p f k ≡ some p
put_at-some k p f = if_pos (Service-discrete k k) refl (some p) (f k)

abbrev pub one_more : Service → (Service → ℕ) → Service → ℕ
one_more k f j = ite (Service-discrete k j) (f j + 1) (f j)

module _ (address : String) where
  -- A move of goroutine `i`. What the node answers to the query for the account is any number or an
  -- error.
  pub data Move (i : ℕ) (m : Shared) : Pc → Shared → Pc → Type 0 where
    call_next : Move i m idle m next_lock
    call_client : (k : Service) → Move i m idle m (client_lock k user)
    -- `GetAccountInfo` begins with the auth client.
    call_reset : (address == "") ≡ false → Move i m idle m (client_lock auth reset)
    lock_next : m.holder ≡ none → Move i m next_lock (record m { holder = some i }) next_read
    read_next : Move i m next_read m (next_write m.sequence)
    write_next :
        {current : ℕ}
        → Move i m
            (next_write current)
            (record m { sequence = (m.sequence + 1) % 2 ^ 64 })
            (next_unlock current)
    unlock_next :
        {current : ℕ}
        → Move i m
            (next_unlock current)
            (record m { holder = none; history = m.history ++ took current ∷ [] })
            idle
    lock_client :
        {k : Service} {c : Caller}
        → m.holder ≡ none
        → Move i m (client_lock k c) (record m { holder = some i }) (client_test k c)
    test_none :
        {k : Service} {c : Caller}
        → m.clients k ≡ none
        → Move i m (client_test k c) m (client_make k c)
    test_some :
        {k : Service} {c : Caller} {p : ℕ}
        → m.clients k ≡ some p
        → Move i m (client_test k c) m (client_unlock k c)
    make_client :
        {k : Service} {c : Caller}
        → Move i m
            (client_make k c)
            (record m {
              clients = put_at k m.made_in_all m.clients;
              made = one_more k m.made;
              made_in_all = m.made_in_all + 1;
            })
            (client_unlock k c)
    unlock_client :
        {k : Service} {c : Caller} {p : ℕ}
        → m.clients k ≡ some p
        → Move i m
            (client_unlock k c)
            (record m { holder = none; given = m.given ++ (k, p) ∷ [] })
            (back c)
    query_ok : (n : ℕ) → Move i m reset_query m (reset_lock n)
    query_failed : Move i m reset_query m idle
    lock_reset :
        {n : ℕ}
        → m.holder ≡ none
        → Move i m (reset_lock n) (record m { holder = some i }) (reset_store n)
    store_reset : {n : ℕ} → Move i m (reset_store n) (record m { sequence = n }) (reset_unlock n)
    unlock_reset :
        {n : ℕ}
        → Move i m
            (reset_unlock n)
            (record m { holder = none; history = m.history ++ stored n ∷ [] })
            idle

  pub record Goroutines : Type 0 where
    pub shared : Shared
    pub pc : ℕ → Pc

  abbrev pub move_to : ℕ → Pc → (ℕ → Pc) → ℕ → Pc
  move_to i p f j = ite (ℕ_discrete i j) p (f j)

  pub data Step (s : Goroutines) : Goroutines → Type 0 where
    pick :
        (i : ℕ) {m : Shared} {p : Pc}
        → Move i s.shared (s.pc i) m p
        → Step s (record { shared = m; pc = move_to i p s.pc })

  -- A client whose next number is `first`, before its goroutines run.
  abbrev pub fresh : ℕ → Goroutines
  fresh first = record {
    shared = record {
      holder = none;
      sequence = first;
      clients = λ _. none;
      made = λ _. 0;
      made_in_all = 0;
      history = [];
      given = [];
    };
    pc = λ _. idle;
  }

  pub data Reach (first : ℕ) : Goroutines → Type 0 where
    start : Reach first (fresh first)
    later : {s t : Goroutines} → Reach first s → Step s t → Reach first t
