-- ===== src/Tests/Marker.antt =====
-- A run of `GetAccountValue` (pkg/provenance/marker.go) on one page with an NFT and a coin.
use prov_go.Base.{◌≡◌, refl, true, false, none, some, [], ◌∷◌, ok, codes, arith}
use prov_go.Stream.Channel.{
  Stream, page, answer, send, last_page, shut_err, shut_items, opened, finished,
}
use prov_go.Marker.Account.{Coin, NftAccount, AccountValue, Scopes, Nav, scope_of, run_job, add_nft}
use prov_go.Marker.Valuation.{
  Valuation, Reach, start, later, begin, produce, pass_over, take_up, submit, job_send, job_leave,
  sum_take, sum_send, complete, close_results, finish, returned, valued, nothing, leaving,
}
use prov_go.Marker.Sound.{IsRight, account_value-IsRight}
use prov_go.Marker.Empty.{value_lost}

abbrev deed : Coin
deed = record { denom = "nft/a1"; amount = 1 }

abbrev cash : Coin
cash = record { denom = "nhash"; amount = 9 }

abbrev balances : Stream Coin
balances = record { capacity = 100; fetch = λ _. page (deed ∷ cash ∷ []) (some []) }

abbrev price : Nav
price = record { price = record { denom = "usd"; amount = 250 }; updated_block_height = 7 }

abbrev scopes : Scopes
scopes = record {
  get_nav = λ _. ok (some price);
  parse_scope_id = λ s. ok s;
  scope_uuid = λ _. ok "a1-uuid";
}

abbrev nft : NftAccount
nft = record { denom = codes "a1"; nav = price.price; uuid = "a1-uuid"; updated_block_height = 7 }

abbrev worth : AccountValue
worth = record {
  address = "marker";
  total = record { denom = "usd"; amount = 250 };
  nfts = nft ∷ [];
}

abbrev settled : Valuation
settled = record {
  link = record opened { producer = finished; buffer_closed = true; fault_closed = true };
  caller = returned (valued worth);
  running = [];
  results = [];
  results_closed = true;
  sum = worth;
  sent = true;
}

deed_scope : scope_of deed ≡ some (codes "a1")
unfolding scope_of
deed_scope = refl

cash_scope : scope_of cash ≡ none
unfolding scope_of
cash_scope = refl

deed_job : run_job scopes (codes "a1") ≡ nft ∷ []
unfolding run_job
deed_job = refl

-- Up to the moment where the job of the deed has sent its result.
abbrev fetched : Valuation
fetched = record (begin scopes balances "marker") {
  link = record opened { producer = finished; buffer_closed = true; fault_closed = true };
  running = leaving ∷ [];
  results = nft ∷ [];
}

fetched_run : Reach scopes balances "marker" fetched
fetched_run =
    later
      (later
        (later
          (later
            (later
              (later
                (later
                  (later
                    (later (later start (produce (answer refl refl)))
                      (produce (send refl (omega arith))))
                    (produce (send refl (omega arith))))
                  (take_up refl refl deed_scope))
                (submit refl (omega arith)))
              (pass_over refl refl cash_scope))
            (produce (last_page refl)))
          (produce (shut_err refl)))
        (produce (shut_items refl)))
      (job_send [] [] (codes "a1") refl deed_job refl)

settled_run : Reach scopes balances "marker" settled
unfolding add_nft
settled_run =
    later
      (later
        (later
          (later (later (later fetched_run (sum_take refl refl)) (job_leave [] [] refl))
            (complete refl refl refl))
          (close_results refl refl))
        (sum_send refl refl refl))
      (finish refl refl)

account_value-IsRight_example : IsRight scopes balances false (valued worth)
account_value-IsRight_example = account_value-IsRight scopes balances "marker" settled_run refl

value_lost_example :
    (v : Valuation) × Reach scopes balances "marker" v
    × (v.caller ≡ returned nothing)
    × (v.link.fault ≡ none)
    × (v.link.cancelled ≡ false)
value_lost_example = value_lost scopes balances "marker" (deed ∷ cash ∷ []) refl (omega arith)
