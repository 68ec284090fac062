-- ===== src/Marker/Bags.antt =====
-- Counting NFT accounts: two lists with the same sum for every measure hold the same ones, as often.
use prov_go.Base.{ℕ, ◌+◌, ◌≡◌, refl, ap, ◌∙◌, none, some, List, [], ◌∷◌, ◌++◌, arith}
use prov_go.Marker.Account.{
  Coin, NftAccount, AccountValue, Scopes, scope_of, run_job, value_of, values, add_nft,
}
use prov_go.Marker.Valuation.{
  Caller, submitting, Job, asking, leaving, Valuation, Exit, after, whole, stopped,
}

module _ (f : NftAccount → ℕ) where
  abbrev pub total : List NftAccount → ℕ
  total [] = 0
  total (x ∷ xs) = f x + total xs

  pub total-append : (xs ys : List NftAccount) → total (xs ++ ys) ≡ total xs + total ys
  total-append [] ys = omega arith
  total-append (x ∷ xs) ys = omega (arith, total-append xs ys)

  pub total-add_nft :
      (v : AccountValue) (x : NftAccount) → total ((add_nft v x).nfts) ≡ total (v.nfts) + f x
  unfolding add_nft
  total-add_nft v x = omega (arith, total-append (v.nfts) (x ∷ []))

  module _ (S : Scopes) where
    -- What the jobs that have not sent yet will send.
    abbrev pub of_job : Job → ℕ
    of_job (asking scope) = total (run_job S scope)
    of_job leaving = 0

    abbrev pub of_jobs : List Job → ℕ
    of_jobs [] = 0
    of_jobs (j ∷ js) = of_job j + of_jobs js

    pub of_jobs-append : (xs ys : List Job) → of_jobs (xs ++ ys) ≡ of_jobs xs + of_jobs ys
    of_jobs-append [] ys = omega arith
    of_jobs-append (x ∷ xs) ys = omega (arith, of_jobs-append xs ys)

    -- What the caller holds: a scope that it is submitting.
    abbrev pub of_caller : Caller → ℕ
    of_caller (submitting scope) = total (run_job S scope)
    of_caller _ = 0

    pub of_caller-after : (x : Exit) → of_caller (after x) ≡ 0
    of_caller-after whole = refl
    of_caller-after (stopped o) = refl

    abbrev pub of_valuation : Valuation → ℕ
    of_valuation v =
        total (v.sum.nfts) + (total v.results + (of_jobs v.running + of_caller v.caller))

    pub values-append :
        (xs ys : List Coin)
        → total (values S (xs ++ ys)) ≡ total (values S xs) + total (values S ys)
    unfolding values
    values-append [] ys = omega arith
    values-append (x ∷ xs) ys = omega (
      arith,
      total-append (value_of S x) (values S (xs ++ ys)),
      total-append (value_of S x) (values S xs),
      values-append xs ys,
    )

    -- One more balance: an NFT or not.
    value_of_scope :
        (x : Coin) (scope : List ℕ) → scope_of x ≡ some scope → value_of S x ≡ run_job S scope
    unfolding value_of
    value_of_scope x scope e = ground arith

    value_of_plain : (x : Coin) → scope_of x ≡ none → value_of S x ≡ []
    unfolding value_of
    value_of_plain x e = ground arith

    values_one :
        (xs : List Coin) (x : Coin)
        → total (values S (xs ++ x ∷ [])) ≡ total (values S xs) + total (value_of S x)
    unfolding values
    values_one xs x = omega (arith, values-append xs (x ∷ []), total-append (value_of S x) [])

    pub values_scope :
        (xs : List Coin) (x : Coin) (scope : List ℕ)
        → scope_of x ≡ some scope
        → total (values S (xs ++ x ∷ [])) ≡ total (values S xs) + total (run_job S scope)
    values_scope xs x scope e =
        values_one xs x ∙ ap (λ ys. total (values S xs) + total ys) (value_of_scope x scope e)

    pub values_plain :
        (xs : List Coin) (x : Coin)
        → scope_of x ≡ none
        → total (values S (xs ++ x ∷ [])) ≡ total (values S xs)
    values_plain xs x e = omega (arith, values_one xs x, ap total (value_of_plain x e))

-- The same accounts, as often.
abbrev pub SameBag : List NftAccount → List NftAccount → Type 0
SameBag xs ys = (f : NftAccount → ℕ) → total f xs ≡ total f ys

abbrev pub amount_of : NftAccount → ℕ
amount_of x = x.nav.amount
