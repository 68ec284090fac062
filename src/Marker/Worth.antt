-- ===== src/Marker/Worth.antt =====
-- What each balance adds to the value of a marker account (pkg/provenance/marker.go, GetAccountValue),
-- described beside the code.
use prov_go.Base.{
  ℕ, ◌≡◌, refl, ap, sym, ◌∙◌, inl, inr, false, String, ◌==◌, eq_iff, Option, none, some, List, [],
  ◌∷◌, ◌++◌, Result, ok, err, panic, arith, concat, codes, subst, Bool-cases, Option-cases,
  Result-cases, ◌>>=◌, Error,
}
use prov_go.Platform.{Bytes}
use prov_go.Marker.Account.{
  Coin, NftAccount, Nav, Scopes, scope_of, or_free, ask, run_job, value_of, values,
}
use prov_go.Marker.Denoms.{NamesScope, scope_of-NamesScope, NamesScope-scope_of}

module _ (S : Scopes) where
  -- What the answer of `GetNAV` makes of the price and the height: nothing in usd where there is none.
  abbrev Quoted : Option Nav → Coin → ℕ → Type 0
  Quoted none price height = (price ≡ record { denom = "usd"; amount = 0 }) × (height ≡ 0)
  Quoted (some nav) price height = (price ≡ nav.price) × (height ≡ nav.updated_block_height)

  -- The balance is an NFT with a price in usd, and all three calls for its scope have given a result.
  abbrev pub IsNft : Coin → NftAccount → Type 0
  IsNft x nft =
      (scope : List ℕ) × (nav : Option Nav) × (address : Bytes) × NamesScope (codes x.denom) scope
      × (S.get_nav scope ≡ ok nav)
      × (S.parse_scope_id scope ≡ ok address)
      × (S.scope_uuid address ≡ ok nft.uuid)
      × (nft.denom ≡ scope)
      × Quoted nav nft.nav nft.updated_block_height
      × (nft.nav.denom ≡ "usd")

  -- What one balance adds to the value: its NFT, or nothing where there is none.
  abbrev pub Gives : Coin → List NftAccount → Type 0
  Gives x [] = (nft : NftAccount) → ¬ IsNft x nft
  Gives x (nft ∷ []) = IsNft x nft
  Gives x (_ ∷ _ ∷ _) = ⊥

  abbrev pub AllGive : List Coin → List (List NftAccount) → Type 0
  AllGive [] [] = Unit
  AllGive [] (_ ∷ _) = ⊥
  AllGive (_ ∷ _) [] = ⊥
  AllGive (x ∷ xs) (part ∷ parts) = Gives x part × AllGive xs parts

  Quoted-or_free :
      (nav : Option Nav) → Quoted nav (or_free nav).price (or_free nav).updated_block_height
  Quoted-or_free none = (refl, refl)
  Quoted-or_free (some nav) = (refl, refl)

  or_free-Quoted :
      (nav : Option Nav) (price : Coin) (height : ℕ)
      → Quoted nav price height
      → (price ≡ (or_free nav).price) × (height ≡ (or_free nav).updated_block_height)
  or_free-Quoted none price height h = h
  or_free-Quoted (some nav) price height h = h

  chain_inverse :
      {A B : Type 0} (r : Result A) (f : A → Result B) (b : B)
      → (r >>= f) ≡ ok b
      → (a : A) × (r ≡ ok a) × (f a ≡ ok b)
  chain_inverse (ok a) f b h = (a, refl, h)
  chain_inverse (err e) f b h = absurd (ground arith)
  chain_inverse (panic s) f b h = absurd (ground arith)

  ask_inverse :
      (scope : List ℕ) (nft : NftAccount)
      → ask S scope ≡ ok nft
      → (nav : Option Nav) × (address : Bytes) × (uuid : String) × (S.get_nav scope ≡ ok nav)
        × (S.parse_scope_id scope ≡ ok address)
        × (S.scope_uuid address ≡ ok uuid)
        × (nft ≡ record {
          denom = scope;
          nav = (or_free nav).price;
          uuid = uuid;
          updated_block_height = (or_free nav).updated_block_height;
        })
  unfolding ask
  ask_inverse scope nft h =
      let (nav, e, h1) = chain_inverse (S.get_nav scope) _ nft h in
      let (address, e1, h2) = chain_inverse (S.parse_scope_id scope) _ nft h1 in
      let (uuid, e2, h3) = chain_inverse (S.scope_uuid address) _ nft h2 in
      (nav, address, uuid, e, e1, e2, ground arith)

  run_job-one :
      (scope : List ℕ) (nft : NftAccount)
      → ask S scope ≡ ok nft
      → nft.nav.denom ≡ "usd"
      → run_job S scope ≡ nft ∷ []
  unfolding run_job
  run_job-one scope nft e usd = ground (arith, (eq_iff nft.nav.denom "usd").1 usd)

  value_of-scope :
      (x : Coin) (scope : List ℕ) → scope_of x ≡ some scope → value_of S x ≡ run_job S scope
  unfolding value_of
  value_of-scope x scope e = ground arith

  ask-ok :
      (scope : List ℕ) (nav : Option Nav) (address : Bytes) (uuid : String)
      → S.get_nav scope ≡ ok nav
      → S.parse_scope_id scope ≡ ok address
      → S.scope_uuid address ≡ ok uuid
      → ask S scope
        ≡ ok (record {
          denom = scope;
          nav = (or_free nav).price;
          uuid = uuid;
          updated_block_height = (or_free nav).updated_block_height;
        })
  unfolding ask
  ask-ok scope nav address uuid e e1 e2 = rw (e, e1, e2) refl

  value_of-IsNft : (x : Coin) (nft : NftAccount) → IsNft x nft → value_of S x ≡ nft ∷ []
  value_of-IsNft x nft (scope, nav, address, names, asked, parsed, known, same, quoted, usd) =
      let (price, height) = or_free-Quoted nav nft.nav nft.updated_block_height quoted in
      let made : ok (record {
        denom = scope;
        nav = (or_free nav).price;
        uuid = nft.uuid;
        updated_block_height = (or_free nav).updated_block_height;
      })
          ≡ ok nft =
        rw (← price, ← height, ← same) refl in
      value_of-scope x scope (NamesScope-scope_of x scope names)
      ∙ run_job-one scope nft (ask-ok scope nav address nft.uuid asked parsed known ∙ made) usd

  -- A balance that adds nothing.
  Gives-nothing : (x : Coin) → value_of S x ≡ [] → Gives x (value_of S x)
  Gives-nothing x e = rw e (λ nft is. absurd (cc (value_of-IsNft x nft is)))

  Gives-one :
      (x : Coin) (scope : List ℕ) (nft : NftAccount)
      → scope_of x ≡ some scope
      → ask S scope ≡ ok nft
      → nft.nav.denom ≡ "usd"
      → Gives x (value_of S x)
  Gives-one x scope nft e asked usd =
      let (nav, address, uuid, e1, e2, e3, made) = ask_inverse scope nft asked in
      let quoted =
        subst (λ (n : NftAccount). Quoted nav n.nav n.updated_block_height) (sym made)
          (Quoted-or_free nav) in
      rw (value_of-scope x scope e ∙ run_job-one scope nft asked usd) (
        scope,
        nav,
        address,
        scope_of-NamesScope x scope e,
        e1,
        e2,
        e3 ∙ ap ok (ap (λ n. n.uuid) (sym made)),
        ap (λ n. n.denom) made,
        quoted,
        usd,
      )

  run_job-none :
      (scope : List ℕ) (nft : NftAccount)
      → ask S scope ≡ ok nft
      → (nft.nav.denom == "usd") ≡ false
      → run_job S scope ≡ []
  unfolding run_job
  run_job-none scope nft e other = ground arith

  run_job-err : (scope : List ℕ) (e : Error) → ask S scope ≡ err e → run_job S scope ≡ []
  unfolding run_job
  run_job-err scope e h = ground arith

  run_job-panic : (scope : List ℕ) (s : String) → ask S scope ≡ panic s → run_job S scope ≡ []
  unfolding run_job
  run_job-panic scope s h = ground arith

  value_of-plain : (x : Coin) → scope_of x ≡ none → value_of S x ≡ []
  unfolding value_of
  value_of-plain x e = ground arith

  value_of-Gives : (x : Coin) → Gives x (value_of S x)
  value_of-Gives x = elim (Option-cases (scope_of x)) [
    | inl e ↦ Gives-nothing x (value_of-plain x e)
    | inr (scope, e) ↦
        let this = value_of-scope x scope e in
        elim (Result-cases (ask S scope)) [
          | inl (nft, asked) ↦ elim (Bool-cases (nft.nav.denom == "usd")) [
            | inl usd ↦ Gives-one x scope nft e asked ((eq_iff nft.nav.denom "usd").0 usd)
            | inr other ↦ Gives-nothing x (this ∙ run_job-none scope nft asked other)
          ]
          | inr (inl (why, asked)) ↦ Gives-nothing x (this ∙ run_job-err scope why asked)
          | inr (inr (why, asked)) ↦ Gives-nothing x (this ∙ run_job-panic scope why asked)
        ]
  ]

  -- What the jobs of these balances send, balance by balance.
  pub values-AllGive :
      (got : List Coin)
      → (parts : List (List NftAccount)) × AllGive got parts × (concat parts ≡ values S got)
  unfolding values
  values-AllGive [] = ([], tt, refl)
  values-AllGive (x ∷ xs) =
      let (parts, all, e) = values-AllGive xs in
      (value_of S x ∷ parts, (value_of-Gives x, all), ap (λ t. value_of S x ++ t) e)
