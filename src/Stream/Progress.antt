-- ===== src/Stream/Progress.antt =====
-- Neither the caller of a paginated query nor its goroutine is ever stuck.
use prov_go.Base.{
  List, Option, Result, [], inl, inr, none, refl, some, subst, true, ℕ, ◌<◌, ◌∷◌, ◌≡◌, ◌⊎◌,
}
use prov_go.Stream.Channel.{
  Link, Produce, Reply, Stream, abort, answer, close_err, close_items, crashed, failing, finished,
  last_page, no_pagination, page, refuse, refused, report, request, send, sending, shut_err,
  shut_items, turn_page, Producer,
}
use prov_go.Stream.Invariant.{HoldsAt, IsPast}
use prov_go.Stream.Collect.{
  Advance, Reach, System, collecting, complete, produce, receive, returned,
}
use prov_go.Stream.Safety.{GoodAt, Reach-Good}

module _ {A : Type 0} (st : Stream A) where
  abbrev CanProduce : Link A → Type 0
  CanProduce l = (l' : Link A) × Produce st l l'

  abbrev pub CanAdvance : System A → Type 0
  CanAdvance s = (t : System A) × Advance st s t

  produce_request :
      (l : Link A) (key : List ℕ) (r : Reply A)
      → l.producer ≡ request key
      → st.fetch key ≡ r
      → CanProduce l
  produce_request l key (page xs next) p e = (_, answer p e)
  produce_request l key (refused x) p e = (_, refuse p e)

  produce_page_end :
      (l : Link A) (next : Option (List ℕ)) → l.producer ≡ sending [] next → CanProduce l
  produce_page_end l none p = (_, no_pagination p)
  produce_page_end l (some []) p = (_, last_page p)
  produce_page_end l (some (_ ∷ _)) p = (_, turn_page p)

  -- With the context cancelled or the loop left, the goroutine has ended or can go on by itself.
  produce_free :
      (l : Link A) (p : Producer A)
      → l.producer ≡ p
      → (l.cancelled ≡ true) ⊎ IsPast st p
      → (p ≡ finished) ⊎ ((p ≡ crashed) ⊎ CanProduce l)
  produce_free l (request key) p h = inr (inr (produce_request l key (st.fetch key) p refl))
  produce_free l (sending [] next) p h = inr (inr (produce_page_end l next p))
  produce_free l (sending (_ ∷ _) next) p (inl c) = inr (inr (_, abort p c))
  produce_free l (sending (_ ∷ _) next) p (inr h) = absurd h
  produce_free l (failing e) p h = inr (inr (_, report p))
  produce_free l close_err p h = inr (inr (_, shut_err p))
  produce_free l close_items p h = inr (inr (_, shut_items p))
  produce_free l finished p h = inl refl
  produce_free l crashed p h = inr (inl refl)

  advance_sending :
      (s : System A) (acc buffer : List A) (x : A) (xs : List A) (next : Option (List ℕ))
      → 0 < st.capacity
      → s.collector ≡ collecting acc
      → s.producer ≡ sending (x ∷ xs) next
      → s.buffer ≡ buffer
      → CanAdvance s
  advance_sending s acc [] x xs next room c p b = (_, produce (send p (rw b room)))
  advance_sending s acc (_ ∷ _) x xs next room c p b = (_, receive c b)

  advance_finished :
      (s : System A) (acc buffer : List A)
      → s.collector ≡ collecting acc
      → s.buffer_closed ≡ true
      → s.buffer ≡ buffer
      → CanAdvance s
  advance_finished s acc [] c closed b = (_, complete c b closed)
  advance_finished s acc (_ ∷ _) c closed b = (_, receive c b)

  by_producer : (s : System A) → CanProduce s.link → CanAdvance s
  by_producer s (l, p) = (_, produce p)

  advance_collecting :
      (s : System A) (acc : List A) (p : Producer A)
      → 0 < st.capacity
      → s.collector ≡ collecting acc
      → s.producer ≡ p
      → HoldsAt st acc s.link p
      → (p ≡ crashed) ⊎ CanAdvance s
  advance_collecting s acc (request key) room c p h =
      inr (by_producer s (produce_request s.link key (st.fetch key) p refl))
  advance_collecting s acc (sending [] next) room c p h =
      inr (by_producer s (produce_page_end s.link next p))
  advance_collecting s acc (sending (x ∷ xs) next) room c p h =
      inr (advance_sending s acc s.buffer x xs next room c p refl)
  advance_collecting s acc (failing e) room c p h = inr (_, produce (report p))
  advance_collecting s acc close_err room c p h = inr (_, produce (shut_err p))
  advance_collecting s acc close_items room c p h = inr (_, produce (shut_items p))
  advance_collecting s acc finished room c p (_, _, closed) =
      inr (advance_finished s acc s.buffer c closed refl)
  advance_collecting s acc crashed room c p h = inl refl

-- No deadlock, where the item channel has room for one item at least: while the caller gathers items and the goroutine has not panicked on an absent
-- pagination, one of the two has a step that changes the state.
pub collect_progress :
    {A : Type 0} (st : Stream A) {s : System A} {acc : List A}
    → Reach st s
    → 0 < st.capacity
    → s.collector ≡ collecting acc
    → (s.producer ≡ crashed) ⊎ CanAdvance st s
collect_progress st {s} {acc} r room c =
    advance_collecting st s acc s.producer room c refl
      (subst (GoodAt st s.link) c (Reach-Good st r))

-- No leak: once the caller has returned, the goroutine has ended, or can go on with no receiver.
pub goroutine_ends :
    {A : Type 0} (st : Stream A) {s : System A} {r : Result (List A)}
    → Reach st s
    → s.collector ≡ returned r
    → (s.producer ≡ finished) ⊎ ((s.producer ≡ crashed) ⊎ ((l : Link A) × Produce st s.link l))
goroutine_ends st {s} w c =
    produce_free st s.link s.producer refl (subst (GoodAt st s.link) c (Reach-Good st w)).1
