-- ===== src/Client/Monad.antt =====
-- Methods of `ProvenanceClient`: a result, with the client's fields and the node's state after it.
use prov_go.Base.{
  ℕ, Bool, String, Option, none, some, Result, ok, err, panic, wrap_err, Error, if◌then◌else◌,
  Result-cases, inl, inr, ◌≡◌, arith,
}
use prov_go.Platform.{Platform, Bytes}

-- `PrivKey` is nil in a client that only queries. The chain id and the denom are those of `BcConfig`.
pub record ProvenanceClient : Type 0 where
  pub priv_key : Option Bytes
  pub chain_id : String
  pub denom : String
  pub address : String
  pub account_number : ℕ
  pub sequence : ℕ

module _ (P : Platform) where
  pub record World : Type 0 where
    pub client : ProvenanceClient
    pub node : P.State

  abbrev pub Action : Type 0 → Type 0
  Action A = World → Result A × World

module _ {P : Platform} where
  infixl 5 ◌>>=◌ ◌>>◌
  abbrev pub ◌>>=◌ : {A B : Type 0} → Action P A → (A → Action P B) → Action P B
  ◌>>=◌ m f w =
      let (r, w') = m w in elim r [ ok a ↦ f a w' | err e ↦ (err e, w') | panic s ↦ (panic s, w') ]

  abbrev pub ◌>>◌ : {B : Type 0} → Action P (Unit {0}) → Action P B → Action P B
  m >> k = m >>= λ _. k

  abbrev pub lift : {A : Type 0} → Result A → Action P A
  lift r w = (r, w)

  abbrev pub gets : {A : Type 0} → (ProvenanceClient → A) → Action P A
  gets f w = (ok (f w.client), w)

  -- A call of the node.
  abbrev pub call : {A : Type 0} → (P.State → Result A × P.State) → Action P A
  call f w = let (r, s) = f w.node in (r, record w { node = s })

  -- The read of a field behind a pointer that may be nil.
  abbrev pub deref : {A : Type 0} → Option A → Action P A
  deref none = lift (panic "nil pointer dereference")
  deref (some a) = lift (ok a)

  abbrev pub wrapping : {A : Type 0} → String → Action P A → Action P A
  wrapping s m w = let (r, w') = m w in (wrap_err s r, w')

  abbrev pub guard : Bool → Error → Action P (Unit {0})
  guard b e = lift (if b then ok tt else err e)

  -- A chain that gives a value has a first part that gives one.
  pub bind_inverse :
      {A B : Type 0} (m : Action P A) (f : A → Action P B) (w : World P) (b : B)
      → ((m >>= f) w).0 ≡ ok b
      → (a : A) × ((m w).0 ≡ ok a) × ((f a (m w).1).0 ≡ ok b)
  bind_inverse m f w b h = elim (Result-cases (m w).0) [
    | inl (a, e) ↦ (a, e, ground arith)
    | inr (inl (x, e)) ↦ absurd (ground arith)
    | inr (inr (x, e)) ↦ absurd (ground arith)
  ]

  -- The rest of a chain runs after its first part.
  pub bind_ok :
      {A B : Type 0} (m : Action P A) (f : A → Action P B) (w : World P) (a : A)
      → (m w).0 ≡ ok a
      → (m >>= f) w ≡ f a (m w).1
  bind_ok m f w a e = ground arith
