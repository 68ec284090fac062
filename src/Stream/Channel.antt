-- ===== src/Stream/Channel.antt =====
-- The goroutine of a paginated query and its two channels, one channel operation at a time.
-- The code is that of GetBalancesStream (pkg/provenance/bank.go); the other four differ in the
-- query that `fetch` stands for.
use prov_go.Base.{ℕ, ◌<◌, ◌≡◌, Bool, true, false, List, [], ◌∷◌, ◌++◌, Option, none, some}
use prov_go.Base.{Error, cancelled, length, if◌then◌else◌}

-- What a query for one page gives: its items with the `NextKey` of its pagination, or an error. The
-- pagination is absent if the server sent none.
pub data Reply (A : Type 0) : Type 0 where
  page : List A → Option (List ℕ) → Reply A
  refused : Error → Reply A

-- The query as a function of the page key, and the capacity of the item channel.
pub record Stream (A : Type 0) : Type 0 where
  pub capacity : ℕ
  pub fetch : List ℕ → Reply A

-- Where the goroutine stands.
pub data Producer (A : Type 0) : Type 0 where
  request : (key : List ℕ) → Producer A  -- before the query for the page `key`
  sending : (left : List A) (next : Option (List ℕ)) → Producer A  -- in the loop over a page
  failing : Error → Producer A  -- before `errChan <- err`
  close_err : Producer A  -- the deferred calls run in reverse order: errChan is closed first
  close_items : Producer A
  finished : Producer A
  -- The read of NextKey has met a nil pagination: the panic ends the program, and the deferred calls that
  -- run before are left out.
  crashed : Producer A

pub record Link (A : Type 0) : Type 0 where
  pub producer : Producer A
  pub buffer : List A  -- the item channel, first item first
  pub buffer_closed : Bool
  pub fault : Option Error  -- errChan, of capacity 1
  pub fault_closed : Bool
  pub cancelled : Bool  -- whether ctx is done

abbrev pub opened : {A : Type 0} → Link A
opened = record {
  producer = request [];
  buffer = [];
  buffer_closed = false;
  fault = none;
  fault_closed = false;
  cancelled = false;
}

pub data Produce {A : Type 0} (st : Stream A) (l : Link A) : Link A → Type 0 where
  answer :
      {key : List ℕ} {xs : List A} {next : Option (List ℕ)}
      → l.producer ≡ request key
      → st.fetch key ≡ page xs next
      → Produce st l (record l { producer = sending xs next })
  refuse :
      {key : List ℕ} {e : Error}
      → l.producer ≡ request key
      → st.fetch key ≡ refused e
      → Produce st l (record l { producer = failing (if l.cancelled then cancelled else e) })
  -- A done context can end the query itself.
  interrupt :
      {key : List ℕ}
      → l.producer ≡ request key
      → l.cancelled ≡ true
      → Produce st l (record l { producer = failing cancelled })
  send :
      {x : A} {xs : List A} {next : Option (List ℕ)}
      → l.producer ≡ sending (x ∷ xs) next
      → length l.buffer < st.capacity
      → Produce st l (record l { producer = sending xs next; buffer = l.buffer ++ x ∷ [] })
  abort :
      {x : A} {xs : List A} {next : Option (List ℕ)}
      → l.producer ≡ sending (x ∷ xs) next
      → l.cancelled ≡ true
      → Produce st l (record l { producer = failing cancelled })
  turn_page :
      {b : ℕ} {bs : List ℕ}
      → l.producer ≡ sending [] (some (b ∷ bs))
      → Produce st l (record l { producer = request (b ∷ bs) })
  last_page : l.producer ≡ sending [] (some []) → Produce st l (record l { producer = close_err })
  no_pagination : l.producer ≡ sending [] none → Produce st l (record l { producer = crashed })
  report :
      {e : Error}
      → l.producer ≡ failing e
      → Produce st l (record l { producer = close_err; fault = some e })
  shut_err :
      l.producer ≡ close_err
      → Produce st l (record l { producer = close_items; fault_closed = true })
  shut_items :
      l.producer ≡ close_items
      → Produce st l (record l { producer = finished; buffer_closed = true })
