-- ===== src/Tests/Stream.antt =====
-- Runs of a paginated query (pkg/provenance/bank.go) of two pages.
use prov_go.Base.{
  ℕ, ◌≡◌, ◌↔◌, ◌≢◌, refl, ◌⊎◌, true, false, List, [], ◌∷◌, none, some, ok, Error, errorf, arith,
}
use prov_go.Stream.Channel.{
  Reply, page, refused, Stream, Link, Produce, finished, crashed, answer, send, turn_page,
  last_page, shut_err, shut_items,
}
use prov_go.Stream.Collect.{
  System, returned, initial, produce, receive, complete, advance, Reach, start, later,
}
use prov_go.Stream.Fetched.{IsListing}
use prov_go.Stream.Safety.{IsSound, collect_complete, collect-IsSound}
use prov_go.Stream.Progress.{CanAdvance, collect_progress, goroutine_ends}
use prov_go.Stream.Lost.{error_lost}
use prov_go.Stream.Watched.{CanPrint, CanGather, CanPrint-iff}

abbrev three_items : List ℕ → Reply ℕ
three_items [] = page (1 ∷ 2 ∷ []) (some (7 ∷ []))
three_items (_ ∷ _) = page (3 ∷ []) (some [])

abbrev two_pages : Stream ℕ
two_pages = record { capacity = 2; fetch = three_items }

abbrev final : System ℕ
final = record {
  link = record {
    producer = finished;
    buffer = [];
    buffer_closed = true;
    fault = none;
    fault_closed = true;
    cancelled = false;
  };
  collector = returned (ok (1 ∷ 2 ∷ 3 ∷ []));
}

two_pages-Reach-final : Reach two_pages final
two_pages-Reach-final =
    let asked : Reach two_pages _ = later start (advance (produce (answer refl refl))) in
    let one : Reach two_pages _ = later asked (advance (produce (send refl (omega arith)))) in
    let two : Reach two_pages _ = later one (advance (produce (send refl (omega arith)))) in
    let turned : Reach two_pages _ = later two (advance (produce (turn_page refl))) in
    let got_one : Reach two_pages _ = later turned (advance (receive refl refl)) in
    let got_two : Reach two_pages _ = later got_one (advance (receive refl refl)) in
    let again : Reach two_pages _ = later got_two (advance (produce (answer refl refl))) in
    let three : Reach two_pages _ = later again (advance (produce (send refl (omega arith)))) in
    let last : Reach two_pages _ = later three (advance (produce (last_page refl))) in
    let shut : Reach two_pages _ = later last (advance (produce (shut_err refl))) in
    let closed : Reach two_pages _ = later shut (advance (produce (shut_items refl))) in
    let got_three : Reach two_pages _ = later closed (advance (receive refl refl)) in
    later got_three (advance (complete refl refl refl))

three_items_answers : (key : List ℕ) (e : Error) → three_items key ≢ refused e
three_items_answers [] e = λ p. cc
three_items_answers (_ ∷ _) e = λ p. cc

collect_complete_example : IsListing three_items (1 ∷ 2 ∷ 3 ∷ [])
collect_complete_example =
    collect_complete two_pages two_pages-Reach-final refl refl three_items_answers

collect-IsSound_example : IsSound two_pages false (ok (1 ∷ 2 ∷ 3 ∷ []))
collect-IsSound_example = collect-IsSound two_pages two_pages-Reach-final refl

abbrev beginning : System ℕ
beginning = initial

collect_progress_example : (beginning.producer ≡ crashed) ⊎ CanAdvance two_pages beginning
collect_progress_example = collect_progress two_pages start (omega arith) refl

goroutine_ends_example :
    (final.producer ≡ finished)
    ⊎ ((final.producer ≡ crashed) ⊎ ((l : Link ℕ) × Produce two_pages final.link l))
goroutine_ends_example = goroutine_ends two_pages two_pages-Reach-final refl

abbrev failure : Error
failure = errorf "unavailable" []

abbrev one_item : List ℕ → Reply ℕ
one_item [] = page (1 ∷ []) (some (7 ∷ []))
one_item (_ ∷ _) = refused failure

abbrev failing_stream : Stream ℕ
failing_stream = record { capacity = 50; fetch = one_item }

error_lost_example :
    (s : System ℕ) × Reach failing_stream s
    × (s.collector ≡ returned (ok (1 ∷ [])))
    × (s.fault ≡ some failure)
    × (s.cancelled ≡ false)
error_lost_example = error_lost failing_stream (1 ∷ []) 7 [] failure refl refl (omega arith)

CanPrint-iff_example :
    CanPrint two_pages (ok (1 ∷ 2 ∷ 3 ∷ [])) ↔ CanGather two_pages (ok (1 ∷ 2 ∷ 3 ∷ []))
CanPrint-iff_example = CanPrint-iff two_pages (ok (1 ∷ 2 ∷ 3 ∷ []))
