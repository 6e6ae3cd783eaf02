-- ===== src/Commitment/Batch/Prefix.antt =====
-- The next batch is the shortest prefix of the queue that is as long as its highest rate asks for.
use elusiv.Base.{
  lt→ltb, ge→ltb, ==_iff, length, get_elem?, take, length-append, in_range_of, guard, >>=-eq-ok,
  guard-eq-ok, ok_injective, ok_or-eq-ok, outcome_cases, ProgramError, Result, ok, err, panic,
  u32_mod, two_pow, two_pow-value, ℕ, zero, suc, ◌+◌, ◌-◌, ◌^◌, ◌≤◌, ◌<◌, max, ◌≡◌, refl, sym, ap,
  ◌∙◌, subst, ◌⊎◌, inl, inr, true, Option, none, some, List, [], ◌∷◌, ◌++◌, arith, dec_lt,
}
use native.Mathlib.Nat.{pow-le-pow_right, one-le-pow}
use elusiv.Queue.{RingQueue, view}
use elusiv.Queue.Fifo
use elusiv.Queue.Invariant.{len-le-capacity}
use elusiv.Queue.Slots.{Represents}
use elusiv.Queue.Refine.{view_refines}
use elusiv.Commitment.Batch.{
  CommitmentHashRequest, BatchLoop, same_fee_version, batch_step, batch_loop,
}

unfoldable pub highest_rate {ℓ} : {U : Type ℓ} → List (CommitmentHashRequest U) → ℕ
highest_rate [] = 0
highest_rate (r ∷ rs) = max r.min_batching_rate (highest_rate rs)

unfoldable pub HaveFeeVersion {ℓ} : {U : Type ℓ} → ℕ → List (CommitmentHashRequest U) → Type 0
HaveFeeVersion f [] = Unit {0}
HaveFeeVersion f (r ∷ rs) = (r.fee_version ≡ f) × HaveFeeVersion f rs

-- `batch`, of the rate `rate`, is the front of the queue's elements `xs`.
pub record IsBatch {ℓ} {U : Type ℓ} (xs batch : List (CommitmentHashRequest U)) (rate : ℕ)
    : Type ℓ where
  pub front : batch ≡ take (2 ^ rate) xs
  pub full : length batch ≡ 2 ^ rate
  pub highest : rate ≡ highest_rate batch
  pub fee_version : ℕ
  pub same_fee : HaveFeeVersion fee_version batch

module _ {ℓ} {U : Type ℓ} where
  highest_rate_append :
      (xs : List (CommitmentHashRequest U)) (r : CommitmentHashRequest U)
      → highest_rate (xs ++ r ∷ []) ≡ max (highest_rate xs) r.min_batching_rate
  unfolding highest_rate
  highest_rate_append [] r = omega arith
  highest_rate_append (x ∷ xs) r = omega (arith, highest_rate_append xs r)

  fee_append :
      (f : ℕ) (xs : List (CommitmentHashRequest U)) (r : CommitmentHashRequest U)
      → HaveFeeVersion f xs
      → r.fee_version ≡ f
      → HaveFeeVersion f (xs ++ r ∷ [])
  unfolding HaveFeeVersion
  fee_append f [] r h e = (e, tt)
  fee_append f (x ∷ xs) r (here, h) e = (here, fee_append f xs r h e)

  take_next :
      (xs : List (CommitmentHashRequest U)) (n : ℕ) (r : CommitmentHashRequest U)
      → get_elem? xs n ≡ some r
      → take (suc n) xs ≡ take n xs ++ r ∷ []
  take_next [] n r e = cc
  take_next (x ∷ xs) zero r e = let same : x ≡ r = cc in ap (λ y. y ∷ []) same
  take_next (x ∷ xs) (suc n) r e = ap (◌∷◌ x) (take_next xs n r e)

  -- The fee version of the loop is that of the requests taken.
  unfoldable pub FeesTaken : Option ℕ → List (CommitmentHashRequest U) → Type 0
  unfolding HaveFeeVersion
  FeesTaken none batch = length batch ≡ 0
  FeesTaken (some f) batch = HaveFeeVersion f batch

  pub record IsTaken (xs : List (CommitmentHashRequest U)) (l : BatchLoop U) : Type ℓ where
    pub front : l.requests ≡ take (length l.requests) xs
    pub inside : length l.requests ≤ length xs
    pub highest : l.highest_batching_rate ≡ highest_rate l.requests
    pub count :
        (length l.requests ≡ 0) × (l.commitment_count ≡ u32_mod - 1)
        ⊎ (l.commitment_count ≡ 2 ^ l.highest_batching_rate)
    pub below : length l.requests ≤ l.commitment_count
    pub fees : FeesTaken l.fee_version l.requests

  view-found :
      (xs : List (CommitmentHashRequest U)) (n : ℕ) (r : CommitmentHashRequest U)
      → Fifo.view xs n ≡ ok r
      → get_elem? xs n ≡ some r
  unfolding Fifo.view
  view-found [] n r h = cc
  view-found (x ∷ xs) n r h = ok_or-eq-ok (get_elem? (x ∷ xs) n) _ h

  -- The first request passes the guard, another one has the fee version of those before.
  fees_next :
      (o : Option ℕ) (batch : List (CommitmentHashRequest U)) (r : CommitmentHashRequest U)
      → FeesTaken o batch
      → same_fee_version o r.fee_version ≡ true
      → FeesTaken (some r.fee_version) (batch ++ r ∷ [])
  unfolding FeesTaken HaveFeeVersion
  fees_next none [] r t e = (refl, tt)
  fees_next none (x ∷ batch) r t e = absurd (omega arith)
  fees_next (some f) batch r t e =
      let same : f ≡ r.fee_version = (==_iff f r.fee_version).0 e in
      fee_append r.fee_version batch r (subst (λ k. HaveFeeVersion k batch) same t) refl

  abbrev taken_with : BatchLoop U → CommitmentHashRequest U → BatchLoop U
  taken_with l request =
      let highest = max l.highest_batching_rate request.min_batching_rate in
      record {
        requests = l.requests ++ request ∷ [];
        highest_batching_rate = highest;
        commitment_count = 2 ^ highest;
        fee_version = some request.fee_version;
      }

  -- The count grows with the requests: a batch of the higher rate is no shorter.
  count_grows :
      (xs : List (CommitmentHashRequest U)) (l : BatchLoop U) (highest : ℕ)
      → IsTaken xs l
      → length l.requests < l.commitment_count
      → l.highest_batching_rate ≤ highest
      → suc (length l.requests) ≤ 2 ^ highest
  count_grows xs l highest t more higher = elim t.count [
    | inl (first, big) ↦ omega (arith, one-le-pow highest 2 (omega arith))
    | inr exact ↦ omega (arith, pow-le-pow_right {n = 2} (omega arith) higher)
  ]

  next-IsTaken :
      (xs : List (CommitmentHashRequest U)) (l : BatchLoop U) (request : CommitmentHashRequest U)
      → IsTaken xs l
      → length l.requests < l.commitment_count
      → get_elem? xs (length l.requests) ≡ some request
      → same_fee_version l.fee_version request.fee_version ≡ true
      → IsTaken xs (taken_with l request)
  next-IsTaken xs l request t more e fee =
      let n = length l.requests in
      let longer : length (l.requests ++ request ∷ []) ≡ suc n =
        omega (arith, length-append l.requests (request ∷ [])) in
      let highest = max l.highest_batching_rate request.min_batching_rate in
      record {
        front =
            ap (λ ys. ys ++ request ∷ []) t.front
            ∙ sym (take_next xs n request e)
            ∙ ap (λ k. take k xs) (sym longer);
        inside = omega (arith, in_range_of xs n e);
        highest =
            ap (λ k. max k request.min_batching_rate) t.highest
            ∙ sym (highest_rate_append l.requests request);
        count = inr refl;
        below = omega (arith, count_grows xs l highest t more (omega arith));
        fees = fees_next l.fee_version l.requests request t.fees fee;
      }

module _ {ℓ} {U : Type ℓ} (capacity : ℕ) where
  step-IsTaken :
      (q : RingQueue (CommitmentHashRequest U)) (xs : List (CommitmentHashRequest U))
      (l l' : BatchLoop U)
      → Represents capacity q xs
      → IsTaken xs l
      → length l.requests < l.commitment_count
      → batch_step capacity q l ≡ ok l'
      → IsTaken xs l' × (length l'.requests ≡ suc (length l.requests))
  unfolding batch_step
  step-IsTaken q xs l l' r t more h =
      let n = length l.requests in
      let (request, e, h) = >>=-eq-ok (view capacity q n) _ h in
      let highest = max l.highest_batching_rate request.min_batching_rate in
      let (count, f, h) = >>=-eq-ok (two_pow highest) _ h in
      let (u, g, h) =
        >>=-eq-ok (guard (same_fee_version l.fee_version request.fee_version) _) _ h in
      let fee = guard-eq-ok (same_fee_version l.fee_version request.fee_version) _ g in
      let small : n < u32_mod =
        omega (arith, t.inside, r.count, len-le-capacity capacity q r.valid, r.valid.small) in
      let found = view-found xs n request (sym (view_refines capacity q n xs r small) ∙ e) in
      let same : taken_with l request ≡ l' =
        ap
          (λ k. record {
            requests = l.requests ++ request ∷ [];
            highest_batching_rate = highest;
            commitment_count = k;
            fee_version = some request.fee_version;
          })
          (sym (two_pow-value highest count f))
        ∙ ok_injective h in
      (
        subst (IsTaken xs) same (next-IsTaken xs l request t more found fee),
        sym (ap (λ l. length l.requests) same)
            ∙ omega (arith, length-append l.requests (request ∷ [])),
      )

  -- Enough fuel ends the loop, with an error, a panic, or a batch that is taken.
  pub loop-IsTaken :
      (fuel : ℕ) (q : RingQueue (CommitmentHashRequest U)) (xs : List (CommitmentHashRequest U))
      (l : BatchLoop U)
      → Represents capacity q xs
      → IsTaken xs l
      → length xs < length l.requests + fuel
      → (o : Result ProgramError (BatchLoop U)) × (batch_loop capacity fuel q l ≡ some o)
        × ((l' : BatchLoop U)
            → o ≡ ok l'
            → IsTaken xs l' × (l'.commitment_count ≤ length l'.requests))
  unfolding batch_loop
  loop-IsTaken zero q xs l r t enough = absurd (omega (arith, t.inside))
  loop-IsTaken (suc fuel) q xs l r t enough = elim (dec_lt (length l.requests) l.commitment_count) [
    | no done ↦ rw (ge→ltb (length l.requests) l.commitment_count (omega arith)) (
      ok l,
      refl,
      λ l' e.
          let same : l ≡ l' = ok_injective e in
          subst (λ k. IsTaken xs k × (k.commitment_count ≤ length k.requests)) same
            (t, omega arith),
    )
    | yes more ↦
        rw (lt→ltb (length l.requests) l.commitment_count more)
          (elim (outcome_cases (batch_step capacity q l)) [
            | inl (l', e) ↦
                let (t', next) = step-IsTaken q xs l l' r t more e in
                rw e (loop-IsTaken fuel q xs l' r t' (omega (arith, next)))
            | inr (inl (x, e)) ↦ rw e (err x, refl, λ l' d. absurd (cc))
            | inr (inr e) ↦ rw e (panic, refl, λ l' d. absurd (cc))
          ])
  ]
