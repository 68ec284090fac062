-- ===== src/Marker/Empty.antt =====
-- The nil value of `GetAccountValue` (pkg/provenance/marker.go). The goroutine of the stream closes
-- errChan when it ends without an error, and the `select` may read the nil of the closed channel.
use prov_go.Base.{
  ℕ, ◌+◌, ◌≤◌, ◌≡◌, refl, false, true, String, Option, none, some, List, [], ◌∷◌, ◌++◌, append-nil,
  append_assoc, length, length-append, arith, Bool,
}
use prov_go.Stream.Channel.{
  Stream, Producer, answer, page, send, sending, last_page, close_items, shut_err,
}
use prov_go.Marker.Account.{Coin, Scopes, no_value}
use prov_go.Marker.Valuation.{
  Caller, looping, returned, nothing, Valuation, produce, notice_nil, close_results, Reach, start,
  later,
}

module _ (S : Scopes) (st : Stream Coin) (address : String) where
  -- While the stream runs ahead of the loop, and after that.
  abbrev ahead :
      Producer Coin → List Coin → (fault_closed results_closed : Bool) → Caller → Valuation
  ahead p buffer fault_closed results_closed c = record {
    link = record {
      producer = p;
      buffer = buffer;
      buffer_closed = false;
      fault = none;
      fault_closed = fault_closed;
      cancelled = false;
    };
    caller = c;
    running = [];
    results = [];
    results_closed = results_closed;
    sum = no_value address;
    sent = false;
  }

  send_all :
      (xs buffer : List Coin) (next : Option (List ℕ))
      → length buffer + length xs ≤ st.capacity
      → Reach S st address (ahead (sending xs next) buffer false false looping)
      → Reach S st address (ahead (sending [] next) (buffer ++ xs) false false looping)
  send_all [] buffer next h r = rw append-nil r
  send_all (x ∷ xs) buffer next h r = rw (append_assoc buffer (x ∷ []) xs) at (
      send_all xs (buffer ++ x ∷ []) next (omega (arith, length-append buffer (x ∷ [])))
        (later r (produce (send refl (omega arith)))))

  -- If the account's balances are one page that the item channel holds, `GetAccountValue` can return a
  -- nil value with a nil error, though no query has failed and the context is not cancelled.
  pub value_lost :
      (xs : List Coin)
      → st.fetch [] ≡ page xs (some [])
      → length xs ≤ st.capacity
      → (v : Valuation) × Reach S st address v
        × (v.caller ≡ returned nothing)
        × (v.link.fault ≡ none)
        × (v.link.cancelled ≡ false)
  value_lost xs first room =
      (ahead close_items xs true true (returned nothing), lost, refl, refl, refl)
    where
      sent : Reach S st address (ahead (sending [] (some [])) xs false false looping)
      sent = send_all xs [] (some []) (omega arith) (later start (produce (answer refl first)))

      closed : Reach S st address (ahead close_items xs true false looping)
      closed = later (later sent (produce (last_page refl))) (produce (shut_err refl))

      lost : Reach S st address (ahead close_items xs true true (returned nothing))
      lost = later (later closed (notice_nil refl refl refl)) (close_results refl refl)
