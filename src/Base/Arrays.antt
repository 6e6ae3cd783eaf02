-- ===== src/Base/Arrays.antt =====
-- Arrays of a fixed length: a read or a write out of range panics.
use Prim.Native.Nat.{ℕ, zero, suc, ◌+◌, ◌^◌, ◌<◌}
use native.Mathlib.Omega.{arith}
use mathlib.Core.Path.{◌≡◌, refl, sym, ap, ◌∙◌}
use mathlib.Core.Logic.{inl, inr}
use mathlib.Core.List.{List, [], ◌∷◌}
use elusiv.Base.Tests.{ltb, if◌then◌else◌, lt→ltb, ltb→lt, Bool-cases}
use elusiv.Base.Lists.{
  length, get_elem?, set, get_elem?_in_range, get_elem?-set_self, get_elem?-set_ne, length-set,
}
use elusiv.Base.Errors.{Result, ok, panic, ◌>>=◌, unwrap, ok_injective, unwrap-ok, >>=-eq-ok}

abbrev pub read {ℓ} : {E : Type 0} {A : Type ℓ} → List A → ℕ → Result E A
read xs i = unwrap (get_elem? xs i)

abbrev pub write {ℓ} : {E : Type 0} {A : Type ℓ} → List A → ℕ → A → Result E (List A)
write xs i a = if ltb i (length xs) then ok (set xs i a) else panic

-- The writes of `values`, one after the other, from the place `i` on.
abbrev pub write_all {ℓ} : {E : Type 0} {A : Type ℓ} → List A → ℕ → List A → Result E (List A)
write_all xs i [] = ok xs
write_all xs i (v ∷ vs) = write xs i v >>= λ xs'. write_all xs' (suc i) vs

-- `two_pow!`.
abbrev pub two_pow : {E : Type 0} → ℕ → Result E ℕ
two_pow n = if ltb n 64 then ok (2 ^ n) else panic

pub write-ok {ℓ} :
    {E : Type 0} {A : Type ℓ} (xs : List A) (i : ℕ) (a : A)
    → i < length xs
    → write {E = E} xs i a ≡ ok (set xs i a)
write-ok xs i a h = rw (lt→ltb i (length xs) h) refl

pub read-ok {ℓ} :
    {E : Type 0} {A : Type ℓ} (xs : List A) (i : ℕ)
    → i < length xs
    → (a : A) × (read {E = E} xs i ≡ ok a)
read-ok xs i h = let (a, e) = get_elem?_in_range xs i h in (a, unwrap-ok e)

pub write-eq-ok {ℓ} :
    {E : Type 0} {A : Type ℓ} (xs : List A) (i : ℕ) (a : A) {ys : List A}
    → write {E = E} xs i a ≡ ok ys
    → (i < length xs) × (ys ≡ set xs i a)
write-eq-ok xs i a h = elim (Bool-cases (ltb i (length xs))) [
  | inl b ↦ (ltb→lt _ _ b, let q = rw b at h in sym (ok_injective q))
  | inr b ↦ let q = rw b at h in cc
]

pub two_pow-value : {E : Type 0} (n w : ℕ) → two_pow {E = E} n ≡ ok w → w ≡ 2 ^ n
two_pow-value n w h = elim (Bool-cases (ltb n 64)) [
  | inl b ↦ let q = rw b at h in sym (ok_injective q)
  | inr b ↦ let q = rw b at h in cc
]

-- What the writes leave: the places before, and behind them the values.
pub write_all-before {ℓ} :
    {E : Type 0} {A : Type ℓ} (xs : List A) (i : ℕ) (vs : List A) {ys : List A} (j : ℕ)
    → write_all {E = E} xs i vs ≡ ok ys
    → j < i
    → get_elem? ys j ≡ get_elem? xs j
write_all-before xs i [] j h before = ap (λ zs. get_elem? zs j) (sym (ok_injective h))
write_all-before {E} xs i (v ∷ vs) j h before =
    let (xs', e, h) = >>=-eq-ok (write {E = E} xs i v) _ h in
    let (inside, eq) = write-eq-ok {E = E} xs i v e in
    write_all-before {E = E} xs' (suc i) vs j h (omega arith)
    ∙ ap (λ zs. get_elem? zs j) eq
    ∙ get_elem?-set_ne xs i j v (λ same. omega arith)

pub length-write_all {ℓ} :
    {E : Type 0} {A : Type ℓ} (xs : List A) (i : ℕ) (vs : List A) {ys : List A}
    → write_all {E = E} xs i vs ≡ ok ys
    → length ys ≡ length xs
length-write_all xs i [] h = ap length (sym (ok_injective h))
length-write_all {E} xs i (v ∷ vs) h =
    let (xs', e, h) = >>=-eq-ok (write {E = E} xs i v) _ h in
    let (inside, eq) = write-eq-ok {E = E} xs i v e in
    length-write_all {E = E} xs' (suc i) vs h ∙ ap length eq ∙ length-set xs i v

pub write_all-value {ℓ} :
    {E : Type 0} {A : Type ℓ} (xs : List A) (i : ℕ) (vs : List A) {ys : List A} (j : ℕ)
    → write_all {E = E} xs i vs ≡ ok ys
    → j < length vs
    → get_elem? ys (i + j) ≡ get_elem? vs j
write_all-value xs i [] j h l = absurd (omega arith)
write_all-value {E} xs i (v ∷ vs) {ys} zero h l =
    let (xs', e, h) = >>=-eq-ok (write {E = E} xs i v) _ h in
    let (inside, eq) = write-eq-ok {E = E} xs i v e in
    let here : i + 0 ≡ i = omega arith in
    ap (get_elem? ys) here
    ∙ write_all-before {E = E} xs' (suc i) vs i h (omega arith)
    ∙ ap (λ zs. get_elem? zs i) eq
    ∙ get_elem?-set_self xs i v inside
write_all-value {E} xs i (v ∷ vs) {ys} (suc j) h l =
    let (xs', e, h) = >>=-eq-ok (write {E = E} xs i v) _ h in
    let next : i + suc j ≡ suc i + j = omega arith in
    ap (get_elem? ys) next ∙ write_all-value {E = E} xs' (suc i) vs j h (omega arith)
