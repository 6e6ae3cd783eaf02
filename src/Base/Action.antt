-- ===== src/Base/Action.antt =====
-- Code that updates accounts and can stop on the way: the accounts stay as the code has left them.
pub mod Runs
use elusiv.Base.Errors.{Result, ok, err, panic}

abbrev pub Action {ℓ κ} : Type ℓ → Type 0 → Type κ → Type (ℓ ⊔ κ)
Action S E A = S → S × Result E A

module _ {ℓ κ} {S : Type ℓ} {E : Type 0} {A : Type κ} where
  abbrev pub and_then {μ} : {B : Type μ} → S × Result E A → (A → Action S E B) → S × Result E B
  and_then (s, ok a) f = f a s
  and_then (s, err e) f = (s, err e)
  and_then (s, panic) f = (s, panic)

  -- A result that leaves the accounts alone.
  abbrev pub lift : Result E A → Action S E A
  lift r s = (s, r)

  -- An update of a part of the accounts, the part being put back.
  abbrev pub zoom {μ} : {T : Type μ} → (S → T) → (T → S → S) → Action T E A → Action S E A
  zoom get put m s = let (t, r) = m (get s) in (put t s, r)

infixl 5 ◌>>=◌ ◌>>◌
abbrev pub ◌>>=◌ {ℓ κ μ} :
    {S : Type ℓ} {E : Type 0} {A : Type κ} {B : Type μ}
    → Action S E A
    → (A → Action S E B)
    → Action S E B
(m >>= f) s = and_then (m s) f

abbrev pub ◌>>◌ {ℓ μ} :
    {S : Type ℓ} {E : Type 0} {B : Type μ} → Action S E (Unit {0}) → Action S E B → Action S E B
m >> k = m >>= λ _. k

-- A new account or an error.
abbrev pub update {ℓ} : {S : Type ℓ} {E : Type 0} → (S → Result E S) → Action S E (Unit {0})
update f s = elim (f s) [ ok s' ↦ (s', ok tt) | err e ↦ (s, err e) | panic ↦ (s, panic) ]

-- The accounts as they are.
abbrev pub current {ℓ} : {S : Type ℓ} {E : Type 0} → Action S E S
current s = (s, ok s)
