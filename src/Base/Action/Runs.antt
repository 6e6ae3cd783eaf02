-- ===== src/Base/Action/Runs.antt =====
-- The runs of actions whose parts have been run.
use elusiv.Base.Errors.{Result, ok, err, panic, outcome_cases}
use elusiv.Base.Action.{Action, ◌>>=◌, and_then, zoom, update}
use mathlib.Core.Path.{◌≡◌, ap, refl, ◌∙◌}
use mathlib.Core.Logic.{inl, inr}

module _ {ℓ κ} {S : Type ℓ} {E : Type 0} {A : Type κ} where
  pub >>=-ok {μ} :
      {B : Type μ} (m : Action S E A) (f : A → Action S E B) {s s' : S} {a : A}
      → m s ≡ (s', ok a)
      → (m >>= f) s ≡ f a s'
  >>=-ok m f h = ap (λ x. and_then x f) h

  pub >>=-panic {μ} :
      {B : Type μ} (m : Action S E A) (f : A → Action S E B) {s s' : S}
      → m s ≡ (s', panic)
      → (m >>= f) s ≡ (s', panic)
  >>=-panic m f h = ap (λ x. and_then x f) h

  pub zoom-eq {μ} :
      {T : Type μ} (get : S → T) (put : T → S → S) (m : Action T E A) {s : S} {t : T}
      {r : Result E A}
      → m (get s) ≡ (t, r)
      → zoom get put m s ≡ (put t s, r)
  zoom-eq get put m {s = s} h = ap (λ x. (put x.0 s, x.1)) h

module _ {ℓ} {S : Type ℓ} {E : Type 0} where
  pub update-ok : (f : S → Result E S) {s s' : S} → f s ≡ ok s' → update f s ≡ (s', ok tt)
  update-ok f h = rw (update, h) refl

  pub update-panic : (f : S → Result E S) {s : S} → f s ≡ panic → update f s ≡ (s, panic)
  update-panic f h = rw (update, h) refl

-- What the parts of an action have done that returned.
module _ {ℓ κ μ} {S : Type ℓ} {E : Type 0} {A : Type κ} {B : Type μ} where
  pub and_then-eq-ok :
      (p : S × Result E A) (f : A → Action S E B) {s' : S} {b : B}
      → and_then p f ≡ (s', ok b)
      → (s : S) × (a : A) × (p ≡ (s, ok a)) × (f a s ≡ (s', ok b))
  and_then-eq-ok (s, ok a) f h = (s, a, refl, h)
  and_then-eq-ok (s, err e) f h = absurd (cc)
  and_then-eq-ok (s, panic) f h = absurd (cc)

  pub lift-eq-ok :
      (r : Result E A) (s : S) (f : A → Action S E B) {s' : S} {b : B}
      → and_then (s, r) f ≡ (s', ok b)
      → (a : A) × (r ≡ ok a) × (f a s ≡ (s', ok b))
  lift-eq-ok (ok a) s f h = (a, refl, h)
  lift-eq-ok (err e) s f h = absurd (cc)
  lift-eq-ok panic s f h = absurd (cc)

  pub zoom-eq-ok {ν} :
      {T : Type ν} (put : T → S → S) (p : T × Result E A) (s : S) (f : A → Action S E B) {s' : S}
      {b : B}
      → and_then (put p.0 s, p.1) f ≡ (s', ok b)
      → (t : T) × (a : A) × (p ≡ (t, ok a)) × (f a (put t s) ≡ (s', ok b))
  zoom-eq-ok put (t, ok a) s f h = (t, a, refl, h)
  zoom-eq-ok put (t, err e) s f h = absurd (cc)
  zoom-eq-ok put (t, panic) s f h = absurd (cc)

module _ {κ} {E : Type 0} {T : Type κ} where
  pub update-eq-ok : (f : T → Result E T) (t t' : T) → update f t ≡ (t', ok tt) → f t ≡ ok t'
  update-eq-ok f t t' h = elim (outcome_cases (f t)) [
    | inl (x, e) ↦ let q = rw (update, e) at h in e ∙ ap ok (ap (λ x. x.0) q)
    | inr (inl (x, e)) ↦ absurd (let q = rw (update, e) at h in cc)
    | inr (inr e) ↦ absurd (let q = rw (update, e) at h in cc)
  ]
