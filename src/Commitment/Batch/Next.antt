-- ===== src/Commitment/Batch/Next.antt =====
-- The result of next_batch, beside the elements of the queue.
use elusiv.Base.{
  ◌==◌, ==_iff, length, take, ok_injective, ProgramError, Result, ok, err, panic, ℕ, ◌+◌, ◌^◌, ◌≤◌,
  ◌≡◌, refl, ap, ◌∙◌, subst, ◌≢◌, inl, inr, true, false, Option, none, some, List, arith,
  ℕ_discrete,
}
use elusiv.Queue.{RingQueue}
use elusiv.Queue.Invariant.{len-le-capacity}
use elusiv.Queue.Slots.{Represents}
use elusiv.Commitment.Batch.{
  CommitmentHashRequest, BatchLoop, no_requests, batch_result, next_batch,
}
use elusiv.Commitment.Batch.Prefix.{
  IsBatch, IsTaken, FeesTaken, HaveFeeVersion, highest_rate, loop-IsTaken,
}

module _ {ℓ} {U : Type ℓ} (capacity : ℕ) where
  none-IsTaken : (xs : List (CommitmentHashRequest U)) → IsTaken xs (no_requests capacity)
  unfolding highest_rate FeesTaken
  none-IsTaken xs = record {
    front = refl;
    inside = omega arith;
    highest = refl;
    count = inl (refl, refl);
    below = omega arith;
    fees = refl;
  }

  fees_of :
      (o : Option ℕ) (batch : List (CommitmentHashRequest U))
      → FeesTaken o batch
      → length batch ≢ 0
      → (f : ℕ) × HaveFeeVersion f batch
  unfolding FeesTaken
  fees_of none batch t some_request = absurd (some_request t)
  fees_of (some f) batch t some_request = (f, t)

  taken-IsBatch :
      (xs : List (CommitmentHashRequest U)) (l : BatchLoop U)
      → IsTaken xs l
      → l.commitment_count ≤ length l.requests
      → length l.requests ≢ 0
      → IsBatch xs l.requests l.highest_batching_rate
  taken-IsBatch xs l t enough some_request =
      let (f, fees) = fees_of l.fee_version l.requests t.fees some_request in
      let full : length l.requests ≡ 2 ^ l.highest_batching_rate = elim t.count [
        | inl (empty, big) ↦ absurd (some_request empty)
        | inr exact ↦ omega (arith, t.below)
      ] in
      record {
        front = t.front ∙ ap (λ k. take k xs) full;
        full = full;
        highest = t.highest;
        fee_version = f;
        same_fee = fees;
      }

  result-IsBatch :
      (xs : List (CommitmentHashRequest U)) (o : Result ProgramError (BatchLoop U))
      (batch : List (CommitmentHashRequest U)) (rate : ℕ)
      → ((l : BatchLoop U) → o ≡ ok l → IsTaken xs l × (l.commitment_count ≤ length l.requests))
      → batch_result capacity o ≡ ok (batch, rate)
      → IsBatch xs batch rate
  result-IsBatch xs (err e) batch rate taken h = cc
  result-IsBatch xs panic batch rate taken h = cc
  result-IsBatch xs (ok l) batch rate taken h =
      let (t, enough) = taken l refl in
      elim (ℕ_discrete (length l.requests) 0) [
        | yes empty ↦
            let b : (length l.requests == 0) ≡ true = (==_iff _ _).1 empty in
            let q = rw b at h in cc
        | no some_request ↦
            let b : (length l.requests == 0) ≡ false = ground arith in
            let q = rw b at h in
            let same = ok_injective q in
            subst (λ p. IsBatch xs p.0 p.1) same (taken-IsBatch xs l t enough some_request)
      ]

  -- On a queue that holds `xs`, next_batch ends within its fuel. If it returns a batch, that is the
  -- front of `xs`, of 2^rate requests, the rate is the highest
  -- minimum rate of its requests, and they all have the same fee version.
  pub next_batch_lem :
      (q : RingQueue (CommitmentHashRequest U)) (xs : List (CommitmentHashRequest U))
      → Represents capacity q xs
      → (o : Result ProgramError (List (CommitmentHashRequest U) × ℕ)) × (next_batch capacity q
          ≡ some o)
        × ((batch : List (CommitmentHashRequest U)) (rate : ℕ)
            → o ≡ ok (batch, rate)
            → IsBatch xs batch rate)
  unfolding next_batch
  next_batch_lem q xs r =
      let (o, e, taken) =
        loop-IsTaken capacity (capacity + 2) q xs (no_requests capacity) r (none-IsTaken xs)
          (omega (arith, r.count, len-le-capacity capacity q r.valid)) in
      rw (next_batch, e)
        (batch_result capacity o, refl, λ batch rate h. result-IsBatch xs o batch rate taken h)
