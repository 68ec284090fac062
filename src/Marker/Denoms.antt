-- ===== src/Marker/Denoms.antt =====
-- Which balances of a marker account are NFTs (pkg/provenance/marker.go, GetAccountValue), described by
-- their denoms.
use prov_go.Base.{
  ℕ, ◌≡◌, ◌≢◌, refl, ap, ◌∙◌, ◌⊎◌, inl, inr, true, false, some, List, [], ◌∷◌, ◌++◌, arith, All,
  codes, has_prefix, nat_eq, subst, Bool-cases,
}
use prov_go.Marker.Account.{Coin, split_slash, second_of_two, scope_of}

abbrev pub NoSlash : List ℕ → Type 0
NoSlash s = All (λ c. c ≢ b'/') s

-- The denom begins with "nft" and has one slash, and the scope is what follows it.
abbrev pub NamesScope : List ℕ → List ℕ → Type 0
NamesScope denom scope =
    (front more : List ℕ) × (denom ≡ codes "nft" ++ more)
    × (denom ≡ front ++ b'/' ∷ scope)
    × NoSlash front
    × NoSlash scope

has_prefix-append : (t u : List ℕ) → has_prefix (t ++ u) t ≡ true
unfolding has_prefix
has_prefix-append [] u = ground arith
has_prefix-append (c ∷ t) u = ground (arith, has_prefix-append t u)

has_prefix-inverse : (s t : List ℕ) → has_prefix s t ≡ true → (u : List ℕ) × (s ≡ t ++ u)
unfolding has_prefix
has_prefix-inverse s [] h = (s, refl)
has_prefix-inverse [] (c ∷ t) h = absurd (ground arith)
has_prefix-inverse (c ∷ s) (d ∷ t) h =
    let (u, e) = has_prefix-inverse s t (ground arith) in
    let same : c ≡ d = ground arith in (u, rw (same, e) refl)

split_slash-cons : (s : List ℕ) → (p : List ℕ) × (ps : List (List ℕ)) × (split_slash s ≡ p ∷ ps)
unfolding split_slash
split_slash-cons [] = ([], [], refl)
split_slash-cons (c ∷ s) = elim (Bool-cases (nat_eq c b'/')) [
  | inl e ↦ ([], split_slash s, rw e refl)
  | inr e ↦ let (p, ps, q) = split_slash-cons s in (c ∷ p, ps, rw (e, q) refl)
]

split_slash-NoSlash : (s : List ℕ) → NoSlash s → split_slash s ≡ s ∷ []
unfolding split_slash
split_slash-NoSlash [] h = refl
split_slash-NoSlash (c ∷ s) (n, h) =
    let other : nat_eq c b'/' ≡ false = ground arith in rw (other, split_slash-NoSlash s h) refl

split_slash-two : (a b : List ℕ) → NoSlash a → NoSlash b → split_slash (a ++ b'/' ∷ b) ≡ a ∷ b ∷ []
unfolding split_slash
split_slash-two [] b h k = rw (split_slash-NoSlash b k) refl
split_slash-two (c ∷ a) b (n, h) k =
    let other : nat_eq c b'/' ≡ false = ground arith in rw (other, split_slash-two a b h k) refl

split_slash-front : (a b : List ℕ) → NoSlash a → split_slash (a ++ b'/' ∷ b) ≡ a ∷ split_slash b
unfolding split_slash
split_slash-front [] b h = refl
split_slash-front (c ∷ a) b (n, h) =
    let other : nat_eq c b'/' ≡ false = ground arith in rw (other, split_slash-front a b h) refl

-- A text has no slash, or it is cut at its first one.
Slashed : List ℕ → Type 0
Slashed s = NoSlash s ⊎ ((a b : List ℕ) × (s ≡ a ++ b'/' ∷ b) × NoSlash a)

Slashed-text : (s : List ℕ) → Slashed s
unfolding Slashed
Slashed-text [] = inl tt
Slashed-text (c ∷ s) = elim (Bool-cases (nat_eq c b'/')) [
  | inl e ↦ let same : c ≡ b'/' = ground arith in inr ([], s, rw same refl, tt)
  | inr e ↦
      let other : c ≢ b'/' = λ q. ground arith in
      elim (Slashed-text s) [
        | inl none_in ↦ inl (other, none_in)
        | inr (a, b, q, h) ↦ inr (c ∷ a, b, ap (λ x. c ∷ x) q, (other, h))
      ]
]

second_of_two-inverse :
    (s scope : List ℕ)
    → second_of_two (split_slash s) ≡ some scope
    → (front : List ℕ) × (s ≡ front ++ b'/' ∷ scope) × NoSlash front × NoSlash scope
unfolding Slashed
second_of_two-inverse s scope h = elim (Slashed-text s) [
  | inl none_in ↦ absurd (ground (arith, split_slash-NoSlash s none_in))
  | inr (a, b, e, front) ↦ elim (Slashed-text b) [
    | inl none_in ↦
        let cut = split_slash-two a b front none_in in
        let same : b ≡ scope = ground (arith, cut, ap split_slash e) in
        (a, rw (e, same) refl, front, subst NoSlash same none_in)
    | inr (c, d, q, more) ↦
        let (p, ps, last) = split_slash-cons d in
        let cut = split_slash-front a b front in
        let cut2 = split_slash-front c d more in
        absurd (ground (arith, cut, ap split_slash e, cut2, ap split_slash q, last))
  ]
]

pub scope_of-NamesScope :
    (x : Coin) (scope : List ℕ) → scope_of x ≡ some scope → NamesScope (codes x.denom) scope
unfolding scope_of
scope_of-NamesScope x scope h = elim (Bool-cases (has_prefix (codes x.denom) (codes "nft"))) [
  | inl starts ↦
      let (more, e) = has_prefix-inverse (codes x.denom) (codes "nft") starts in
      let (front, cut, one, last) = second_of_two-inverse (codes x.denom) scope (rw starts at h) in
      (front, more, e, cut, one, last)
  | inr other ↦ absurd (ground arith)
]

pub NamesScope-scope_of :
    (x : Coin) (scope : List ℕ) → NamesScope (codes x.denom) scope → scope_of x ≡ some scope
unfolding scope_of
NamesScope-scope_of x scope (front, more, e, cut, one, last) =
    let starts : has_prefix (codes x.denom) (codes "nft") ≡ true =
      rw e (has_prefix-append (codes "nft") more) in
    let parts = ap split_slash cut ∙ split_slash-two front scope one last in rw (starts, parts) refl
