-- ===== src/Stream/Lost.antt =====
-- The race between the two channels. The goroutine closes both once its error is in errChan, so
-- the caller's `select` may find the closed item channel first and return without the error.
use prov_go.Base.{
  Error, List, Option, [], append-nil, append_assoc, arith, false, length, length-append, none, ok,
  refl, some, true, ℕ, ◌++◌, ◌+◌, ◌∷◌, ◌≡◌, ◌≤◌,
}
use prov_go.Stream.Channel.{
  Stream, answer, finished, page, refuse, refused, report, request, send, sending, shut_err,
  shut_items, turn_page, Producer,
}
use prov_go.Stream.Collect.{
  Reach, System, advance, collecting, complete, later, produce, receive, returned, start, Collector,
}

module _ {A : Type 0} (st : Stream A) where
  -- While the goroutine runs ahead of its caller.
  abbrev ahead : Producer A → List A → System A
  ahead p buffer = record {
    link = record {
      producer = p;
      buffer = buffer;
      buffer_closed = false;
      fault = none;
      fault_closed = false;
      cancelled = false;
    };
    collector = collecting [];
  }

  -- Once the goroutine has ended by an error.
  abbrev behind : Error → List A → Collector A → System A
  behind e buffer c = record {
    link = record {
      producer = finished;
      buffer = buffer;
      buffer_closed = true;
      fault = some e;
      fault_closed = true;
      cancelled = false;
    };
    collector = c;
  }

  send_all :
      (xs buffer : List A) (next : Option (List ℕ))
      → length buffer + length xs ≤ st.capacity
      → Reach st (ahead (sending xs next) buffer)
      → Reach st (ahead (sending [] next) (buffer ++ xs))
  send_all [] buffer next h r = rw append-nil r
  send_all (x ∷ xs) buffer next h r = rw (append_assoc buffer (x ∷ []) xs) at (
      send_all xs (buffer ++ x ∷ []) next (omega (arith, length-append buffer (x ∷ [])))
        (later r (advance (produce (send refl (omega arith))))))

  receive_all :
      (xs acc : List A) (e : Error)
      → Reach st (behind e xs (collecting acc))
      → Reach st (behind e [] (collecting (acc ++ xs)))
  receive_all [] acc e r = rw append-nil r
  receive_all (x ∷ xs) acc e r =
      rw (append_assoc acc (x ∷ []) xs) at
        (receive_all xs (acc ++ x ∷ []) e (later r (advance (receive refl refl))))

  fail_after :
      (key : List ℕ) (e : Error) (buffer : List A)
      → st.fetch key ≡ refused e
      → Reach st (ahead (request key) buffer)
      → Reach st (behind e buffer (collecting []))
  fail_after key e buffer f r =
      later
        (later
          (later (later r (advance (produce (refuse refl f)))) (advance (produce (report refl))))
          (advance (produce (shut_err refl))))
        (advance (produce (shut_items refl)))

  lose :
      (e : Error) (acc : List A)
      → Reach st (behind e [] (collecting acc))
      → Reach st (behind e [] (returned (ok acc)))
  lose e acc r = later r (advance (complete refl refl refl))

  -- If the query for the second page fails, the caller can still return the first page as the whole
  -- result, with no error: for every first page that the channel holds.
  pub error_lost :
      (xs : List A) (b : ℕ) (bs : List ℕ) (e : Error)
      → st.fetch [] ≡ page xs (some (b ∷ bs))
      → st.fetch (b ∷ bs) ≡ refused e
      → length xs ≤ st.capacity
      → (s : System A) × Reach st s
        × (s.collector ≡ returned (ok xs))
        × (s.fault ≡ some e)
        × (s.cancelled ≡ false)
  error_lost xs b bs e first second room =
      (behind e [] (returned (ok xs)), lose e xs gathered, refl, refl, refl)
    where
      sent : Reach st (ahead (sending [] (some (b ∷ bs))) xs)
      sent =
          send_all xs [] (some (b ∷ bs)) (omega arith)
            (later start (advance (produce (answer refl first))))

      gathered : Reach st (behind e [] (collecting xs))
      gathered =
          receive_all xs [] e
            (fail_after (b ∷ bs) e xs second (later sent (advance (produce (turn_page refl)))))
