-- ===== src/Contract/Granted.antt =====
-- What the authz queries of pkg/demoprime/contract/authz_query.go find.
use mathlib.Core.Option.{some-injective}
use prov_go.Base.{
  ℕ, zero, suc, ◌≤◌, ◌≡◌, refl, sym, ap, subst, ◌∙◌, ◌⊎◌, inl, inr, true, false, ◌&&◌, String, ◌==◌,
  eq_iff, Option, none, some, List, [], ◌∷◌, ◌++◌, append_assoc, ok, arith, is_nil, get_elem?,
  Bool-cases, Option-cases,
}
use prov_go.Stream.Channel.{Reply, page}
use prov_go.Contract.Grants.{
  Grant, ContractGrant, grant_still_valid, grants_from, all_grants, for_contract, granted_by,
  execution_grants, execution_outcome, Authz, contract_execution_grants,
  has_contract_execution_grant,
}

-- `Listed fetch n key xs`: from the page `key` on there are `n` pages, which hold `xs` in order; the
-- last has no pagination or an empty next key.
pub data Listed {A : Type 0} (fetch : List ℕ → Reply A) : ℕ → List ℕ → List A → Type 0 where
  last_page : {key : List ℕ} {xs : List A} → fetch key ≡ page xs (some []) → Listed fetch 1 key xs
  bare_page : {key : List ℕ} {xs : List A} → fetch key ≡ page xs none → Listed fetch 1 key xs
  next_page :
      {n : ℕ} {key : List ℕ} {xs ys : List A} {b : ℕ} {bs : List ℕ}
      → fetch key ≡ page xs (some (b ∷ bs))
      → Listed fetch n (b ∷ bs) ys
      → Listed fetch (suc n) key (xs ++ ys)

module _ {A : Type 0} (fetch : List ℕ → Reply A) where
  grants_from-Listed :
      (m : ℕ) {n : ℕ} {key : List ℕ} {xs : List A} (out : List A)
      → Listed fetch n key xs
      → n ≤ m
      → grants_from m fetch key out ≡ some (ok (out ++ xs))
  unfolding grants_from
  grants_from-Listed zero out (last_page e) h = absurd (omega arith)
  grants_from-Listed zero out (bare_page e) h = absurd (omega arith)
  grants_from-Listed zero out (next_page e l) h = absurd (omega arith)
  grants_from-Listed (suc m) out (last_page e) h = rw (e, grants_from)
  grants_from-Listed (suc m) out (bare_page e) h = rw (e, grants_from)
  grants_from-Listed (suc m) out (next_page {xs} {ys} e l) h =
      rw (e, grants_from)
        (grants_from-Listed m (out ++ xs) l (omega arith)
          ∙ ap (λ z. some (ok z)) (append_assoc out xs ys))

  -- The loop over the pages of grants ends, and gives all grants of all pages in order: as many
  -- rounds as there are pages are enough.
  all_grants_complete :
      {n : ℕ} {xs : List A} (m : ℕ)
      → Listed fetch n [] xs
      → n ≤ m
      → all_grants m fetch ≡ some (ok xs)
  unfolding all_grants
  all_grants_complete m l h = grants_from-Listed m [] l h

module _ {A : Type 0} (now : ℕ) (contract_addr : String)
    (unpack : A → Option (List ContractGrant)) where
  -- The grant has no expiration, or one that is not before now.
  abbrev pub IsLive : Grant A → Type 0
  IsLive g = (g.expiration ≡ none) ⊎ ((t : ℕ) × (g.expiration ≡ some t) × (now ≤ t))

  IsLive-of_valid : (g : Grant A) → grant_still_valid (some g) now ≡ true → IsLive g
  unfolding grant_still_valid
  IsLive-of_valid g h = elim (Option-cases (g.expiration)) [
    | inl never ↦ inl never
    | inr (t, e) ↦ inr (t, e, ground arith)
  ]

  grant_still_valid-IsLive : (g : Grant A) → IsLive g → grant_still_valid (some g) now ≡ true
  unfolding grant_still_valid
  grant_still_valid-IsLive g (inl never) = rw never
  grant_still_valid-IsLive g (inr (t, e, later)) = rw e (ground arith)

  -- A list of grants with one for the contract.
  abbrev pub Names : List ContractGrant → Type 0
  Names l = (j : ℕ) × (c : ContractGrant) × (get_elem? l j ≡ some c) × (c.contract ≡ contract_addr)

  -- A valid grant whose authorization unpacks to such a list.
  abbrev pub Grants : Option (Grant A) → Type 0
  Grants g =
      (h : Grant A) × (l : List ContractGrant) × (g ≡ some h)
      × IsLive h
      × (unpack h.authorization ≡ some l)
      × Names l

  abbrev pub SomeGrants : List (Option (Grant A)) → Type 0
  SomeGrants gs = (i : ℕ) × (g : Option (Grant A)) × (get_elem? gs i ≡ some g) × Grants g

  Names-of_for_contract :
      (l : List ContractGrant) → is_nil (for_contract now contract_addr unpack l) ≡ false → Names l
  unfolding for_contract
  Names-of_for_contract [] h = absurd (ground arith)
  Names-of_for_contract (c ∷ l) h = elim (Bool-cases (c.contract == contract_addr)) [
    | inl same ↦ (0, c, refl, ground (arith, eq_iff (c.contract) contract_addr))
    | inr other ↦
        let (j, d, at_j, e) = Names-of_for_contract l (ground arith) in (suc j, d, at_j, e)
  ]

  for_contract-Names :
      (l : List ContractGrant) → Names l → is_nil (for_contract now contract_addr unpack l) ≡ false
  unfolding for_contract
  for_contract-Names [] (j, c, e, same) = cc
  for_contract-Names (d ∷ l) (zero, c, e, same) =
      let here : d.contract ≡ contract_addr = ap (λ x. x.contract) (some-injective d c e) ∙ same in
      ground (arith, eq_iff (d.contract) contract_addr)
  for_contract-Names (d ∷ l) (suc j, c, e, same) =
      ground (arith, for_contract-Names l (j, c, e, same))

  granted_by-Grants :
      (g : Option (Grant A)) → Grants g → is_nil (granted_by now contract_addr unpack g) ≡ false
  unfolding granted_by
  granted_by-Grants none (h, l, e, _, _, _) = cc
  granted_by-Grants (some g) (h, l, e, valid, unpacked, named) =
      let same : g ≡ h = some-injective g h e in
      let opened : unpack g.authorization ≡ some l =
        ap (λ (x : Grant A). unpack x.authorization) same ∙ unpacked in
      let live : grant_still_valid (some g) now ≡ true =
        grant_still_valid-IsLive g (subst IsLive (sym same) valid) in
      rw (live, opened) (for_contract-Names l named)

  Grants-of_granted_by :
      (g : Option (Grant A)) → is_nil (granted_by now contract_addr unpack g) ≡ false → Grants g
  unfolding granted_by
  Grants-of_granted_by none h = absurd (ground arith)
  Grants-of_granted_by (some g) h = elim (Bool-cases (grant_still_valid (some g) now)) [
    | inr dead ↦ absurd (ground arith)
    | inl live ↦ elim (Option-cases (unpack g.authorization)) [
      | inl bad ↦ absurd (ground arith)
      | inr (l, opened) ↦
          (g, l, refl, IsLive-of_valid g live, opened, Names-of_for_contract l (ground arith))
    ]
  ]

  is_nil-append : {B : Type 0} (xs ys : List B) → is_nil (xs ++ ys) ≡ (is_nil xs && is_nil ys)
  is_nil-append [] ys = refl
  is_nil-append (x ∷ xs) ys = refl

  execution_grants-SomeGrants :
      (gs : List (Option (Grant A)))
      → SomeGrants gs
      → is_nil (execution_grants now contract_addr unpack gs) ≡ false
  unfolding execution_grants
  execution_grants-SomeGrants [] (i, g, e, _) = cc
  execution_grants-SomeGrants (f ∷ gs) (zero, g, e, granted) =
      rw is_nil-append
        (ground (arith, granted_by-Grants f (subst Grants (sym (some-injective f g e)) granted)))
  execution_grants-SomeGrants (f ∷ gs) (suc i, g, e, granted) =
      rw is_nil-append (ground (arith, execution_grants-SomeGrants gs (i, g, e, granted)))

  SomeGrants-of_execution_grants :
      (gs : List (Option (Grant A)))
      → is_nil (execution_grants now contract_addr unpack gs) ≡ false
      → SomeGrants gs
  unfolding execution_grants
  SomeGrants-of_execution_grants [] h = absurd (ground arith)
  SomeGrants-of_execution_grants (f ∷ gs) h =
      elim (Bool-cases (is_nil (granted_by now contract_addr unpack f))) [
        | inr more ↦ (0, f, refl, Grants-of_granted_by f more)
        | inl empty ↦
            let (i, g, e, granted) = SomeGrants-of_execution_grants gs (
              ground (
                arith,
                is_nil-append (granted_by now contract_addr unpack f)
                    (execution_grants now contract_addr unpack gs),
              )) in
            (suc i, g, e, granted)
      ]

  -- `HasContractExecutionGrant` answers whenever the node lists the grants without an error, given as
  -- many rounds as there are pages: true if a grant that has not expired unpacks to one for this
  -- contract, and false if no grant does.
  pub has_contract_execution_grant_decides :
      (q : Authz A) (granter grantee : String) {n : ℕ} {gs : List (Option (Grant A))} (m : ℕ)
      → Listed (λ key. q.grants granter grantee "" key 100) n [] gs
      → n ≤ m
      → ((has_contract_execution_grant m q contract_addr now unpack granter grantee
            ≡ some (ok true))
          × SomeGrants gs)
        ⊎ ((has_contract_execution_grant m q contract_addr now unpack granter grantee
              ≡ some (ok false))
            × (¬ (SomeGrants gs)))
  unfolding has_contract_execution_grant contract_execution_grants execution_outcome
  has_contract_execution_grant_decides q granter grantee {gs} m listed h =
      let found = all_grants_complete (λ key. q.grants granter grantee "" key 100) m listed h in
      elim (Bool-cases (is_nil (execution_grants now contract_addr unpack gs))) [
        | inr more ↦ inl (rw (found, more), SomeGrants-of_execution_grants gs more)
        | inl empty ↦
            inr (rw (found, empty), λ s. absurd (ground (arith, execution_grants-SomeGrants gs s)))
      ]
