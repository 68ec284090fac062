-- ===== src/Marker/Sound.antt =====
-- What `GetAccountValue` (pkg/provenance/marker.go) returns.
use prov_go.Base.{
  ◌≡◌, ◌∙◌, concat, refl, ap, sym, subst, inl, inr, Bool, true, String, none, some, List, [], ◌∷◌,
  ◌++◌, arith, ok,
}
use prov_go.Stream.Channel.{Stream}
use prov_go.Stream.Fetched.{IsCause, IsListing}
use prov_go.Stream.Invariant.{Holds-opened}
use prov_go.Stream.Safety.{IsSound}
use prov_go.Marker.Account.{Coin, NftAccount, AccountValue, Scopes, values, add_nft}
use prov_go.Marker.Valuation.{
  Exit, whole, stopped, Ending, valued, failed, nothing, Caller, summing, returned, Valuation,
  after, Step, produce, cancel, give_up, pass_over, take_up, complete, notice, notice_nil, submit,
  close_results, finish, job_send, job_silent, job_leave, sum_take, sum_send, Reach, start, later,
}
use prov_go.Marker.Worth.{AllGive, values-AllGive}
use prov_go.Marker.Bags.{total, of_jobs, of_caller, total-add_nft, SameBag, amount_of}
use prov_go.Marker.Invariant.{IsSeen, Step-IsSeen, IsCounted, Step-IsCounted, next_got, Seen, view}
use prov_go.Marker.Shut.{IsShut, IsFinal, Step-IsShut, Step-IsFinal}

module _ (S : Scopes) (st : Stream Coin) where
  abbrev pub IsTallied : AccountValue → Type 0
  IsTallied a = (a.total.amount ≡ total amount_of (a.nfts)) × (a.total.denom ≡ "usd")

  -- The value of these balances: what each of them adds, as often as it was received, and the sum of the
  -- prices, in usd.
  abbrev pub IsValue : List Coin → AccountValue → Type 0
  IsValue got a =
      (parts : List (List NftAccount)) × AllGive S got parts
      × SameBag (concat parts) (a.nfts)
      × IsTallied a

  IsValue-values :
      (got : List Coin) (a : AccountValue)
      → SameBag (values S got) (a.nfts)
      → IsTallied a
      → IsValue got a
  IsValue-values got a same tallied =
      let (parts, all, e) = values-AllGive S got in
      (parts, all, λ f. ap (total f) e ∙ same f, tallied)

  abbrev EndAt : List Coin → Caller → Type 0
  EndAt got (returned (valued a)) = IsValue got a
  EndAt got _ = Unit

  abbrev Good : List Coin → Valuation → Type 0
  Good got v =
      IsSeen S st got v
      × (IsCounted S st got v
          × (IsTallied v.sum × (IsShut S st v × (IsFinal S st v × EndAt got v.caller))))

  tally : (v : AccountValue) (x : NftAccount) → IsTallied v → IsTallied (add_nft v x)
  unfolding add_nft
  tally v x (sum, usd) = (omega (arith, sum, total-add_nft amount_of v x), usd)

  Step-IsTallied : {v u : Valuation} → IsTallied v.sum → Step S st v u → IsTallied u.sum
  Step-IsTallied {v} h (sum_take {nft} _ _) = tally v.sum nft h
  Step-IsTallied h (produce _) = h
  Step-IsTallied h cancel = h
  Step-IsTallied h (give_up _ _) = h
  Step-IsTallied h (pass_over _ _ _) = h
  Step-IsTallied h (take_up _ _ _) = h
  Step-IsTallied h (complete _ _ _) = h
  Step-IsTallied h (notice _ _) = h
  Step-IsTallied h (notice_nil _ _ _) = h
  Step-IsTallied h (submit _ _) = h
  Step-IsTallied h (close_results _ _) = h
  Step-IsTallied h (finish _ _) = h
  Step-IsTallied h (job_send _ _ _ _ _ _) = h
  Step-IsTallied h (job_silent _ _ _ _ _) = h
  Step-IsTallied h (job_leave _ _ _) = h
  Step-IsTallied h (sum_send _ _ _) = h

  -- When the sum is sent, and the caller waits for it, it is the value of the balances.
  summed :
      (got : List Coin) (v : Valuation)
      → IsCounted S st got v
      → IsTallied v.sum
      → IsFinal S st v
      → v.caller ≡ summing
      → v.sent ≡ true
      → IsValue got v.sum
  summed got v count tallied (inl s) e sent = cc
  summed got v count tallied (inr (r, q)) e sent =
      IsValue-values got v.sum
        (λ f. omega (arith, count f, ap (total f) r, ap (of_jobs f S) q, ap (of_caller f S) e))
        tallied

  EndAt-after : (got : List Coin) (x : Exit) → EndAt got (after x)
  EndAt-after got whole = tt
  EndAt-after got (stopped none) = tt
  EndAt-after got (stopped (some e)) = tt

  Step-EndAt :
      (got : List Coin) {v u : Valuation}
      → Good got v
      → (p : Step S st v u) → EndAt (next_got S st got p) u.caller
  Step-EndAt got {v} h (pass_over {x} e _ _) = subst (EndAt (got ++ x ∷ [])) (sym e) tt
  Step-EndAt got {v} (_, (count, (tallied, (_, (final, _))))) (finish e sent) =
      summed got v count tallied final e sent
  Step-EndAt got h (take_up _ _ _) = tt
  Step-EndAt got h (give_up _ _) = tt
  Step-EndAt got h (complete _ _ _) = tt
  Step-EndAt got h (notice _ _) = tt
  Step-EndAt got h (notice_nil _ _ _) = tt
  Step-EndAt got h (submit _ _) = tt
  Step-EndAt got h (close_results {x} _ _) = EndAt-after got x
  Step-EndAt got (_, (_, (_, (_, (_, h))))) (produce _) = h
  Step-EndAt got (_, (_, (_, (_, (_, h))))) cancel = h
  Step-EndAt got (_, (_, (_, (_, (_, h))))) (job_send _ _ _ _ _ _) = h
  Step-EndAt got (_, (_, (_, (_, (_, h))))) (job_silent _ _ _ _ _) = h
  Step-EndAt got (_, (_, (_, (_, (_, h))))) (job_leave _ _ _) = h
  Step-EndAt got (_, (_, (_, (_, (_, h))))) (sum_take _ _) = h
  Step-EndAt got (_, (_, (_, (_, (_, h))))) (sum_send _ _ _) = h

  Step-Good :
      (got : List Coin) {v u : Valuation}
      → Good got v
      → (p : Step S st v u) → Good (next_got S st got p) u
  Step-Good got (seen, (count, (tallied, (shut, (final, end))))) p = (
    Step-IsSeen S st got seen p,
    (
      Step-IsCounted S st got count p,
      (
        Step-IsTallied tallied p,
        (
          Step-IsShut S st shut p,
          (
            Step-IsFinal S st shut final p,
            Step-EndAt got (seen, (count, (tallied, (shut, (final, end))))) p,
          ),
        ),
      ),
    ),
  )

  Reach-Good :
      (address : String) {v : Valuation} → Reach S st address v → (got : List Coin) × Good got v
  unfolding values
  Reach-Good address start =
      ([], (Holds-opened st, (λ f. refl, ((refl, refl), ((refl, refl), (inl refl, tt))))))
  Reach-Good address (later r p) =
      let (got, h) = Reach-Good address r in (next_got S st got p, Step-Good got h p)

  -- A value without an error is that of the balances received: all of them, or, where a query gave
  -- an error or the context is cancelled, those with which the pages begin. A nil value without an
  -- error comes only where every page has been fetched.
  abbrev pub IsRight : Bool → Ending → Type 0
  IsRight done (valued a) = (got : List Coin) × IsSound st done (ok got) × IsValue got a
  IsRight done (failed e) = IsCause st.fetch done e
  IsRight done nothing = (all : List Coin) × IsListing st.fetch all

  -- Whatever `GetAccountValue` returns: an error is one that a query gave, or that of a cancelled
  -- context. A value holds what the balances received add, each as often as it was received, and the sum
  -- of the prices in usd: a balance adds its NFT if its denom begins with "nft" and has one slash, the
  -- calls for its scope give a result, and its price is in usd or missing, which counts as 0 usd;
  -- any other adds nothing. These are all the balances, unless a query gave an error or the context
  -- is cancelled. A nil value without an error is possible, and only where every page has been fetched.
  pub account_value-IsRight :
      (address : String) {v : Valuation} {ending : Ending}
      → Reach S st address v
      → v.caller ≡ returned ending
      → IsRight v.link.cancelled ending
  account_value-IsRight address {v} {ending} r e =
      let (got, h) = Reach-Good address r in
      by_end got ending (subst (λ c. Seen S st v.link (view S st got c)) e h.0)
        (subst (EndAt got) e h.1.1.1.1.1)
    where
      by_end :
          (got : List Coin) (ending : Ending)
          → Seen S st v.link (view S st got (returned ending))
          → EndAt got (returned ending)
          → IsRight v.link.cancelled ending
      by_end got (valued a) seen end = (got, seen.0, end)
      by_end got (failed x) seen end = seen.0
      by_end got nothing seen end = seen
