-- ===== src/Commitment/Batch.antt =====
-- elusiv/src/state/commitment.rs: the next batch of the commitment queue, whose rate is the highest
-- minimum of its requests.
pub mod Prefix
pub mod Next
mod Tests
use elusiv.Base.{
  ltb, ◌==◌, if◌then◌else◌, length, ◌>>=◌, ◌>>◌, guard, from_elusiv, queue_is_empty,
  invalid_fee_version, ProgramError, Result, ok, err, panic, u32_mod, ℕ, zero, suc, ◌+◌, ◌-◌, max,
  Bool, true, Option, none, some, List, [], ◌∷◌, ◌++◌,
}
use elusiv.Queue.{RingQueue, view}
use elusiv.Commitment.{commitments_per_batch}

-- `COMMITMENT_QUEUE_LEN`, the places of the queues of commitments and of metadata.
abbrev pub commitment_queue_len : ℕ
commitment_queue_len = 240

-- `CAPACITY` of these queues, one less.
abbrev pub commitment_queue_capacity : ℕ
commitment_queue_capacity = commitment_queue_len - 1

pub record CommitmentHashRequest {ℓ} (U : Type ℓ) : Type ℓ where
  pub commitment : U
  pub fee_version : ℕ
  pub min_batching_rate : ℕ

-- The variables of the loop of `next_batch`.
pub record BatchLoop {ℓ} (U : Type ℓ) : Type ℓ where
  pub requests : List (CommitmentHashRequest U)
  pub highest_batching_rate : ℕ
  pub commitment_count : ℕ
  pub fee_version : Option ℕ

-- The guard on the fee version, which the first request passes.
abbrev pub same_fee_version : Option ℕ → ℕ → Bool
same_fee_version none version = true
same_fee_version (some f) version = f == version

module _ {ℓ} {U : Type ℓ} (capacity : ℕ) where
  unfoldable pub batch_step :
      RingQueue (CommitmentHashRequest U) → BatchLoop U → Result ProgramError (BatchLoop U)
  batch_step q l = do
    request ← view capacity q (length l.requests)
    let highest = max l.highest_batching_rate request.min_batching_rate
    count ← commitments_per_batch highest
    guard (same_fee_version l.fee_version request.fee_version) (from_elusiv invalid_fee_version)
    ok (record {
      requests = l.requests ++ request ∷ [];
      highest_batching_rate = highest;
      commitment_count = count;
      fee_version = some request.fee_version;
    })

  -- The loop, `none` when the fuel runs out.
  unfoldable pub batch_loop :
      ℕ
      → RingQueue (CommitmentHashRequest U)
      → BatchLoop U
      → Option (Result ProgramError (BatchLoop U))
  unfolding batch_step
  batch_loop zero q l = none
  batch_loop (suc fuel) q l =
      if ltb (length l.requests) l.commitment_count
      then elim (batch_step q l) [
        | ok l' ↦ batch_loop fuel q l'
        | err e ↦ some (err e)
        | panic ↦ some panic
      ]
      else some (ok l)

  abbrev pub no_requests : BatchLoop U
  no_requests = record {
    requests = [];
    highest_batching_rate = 0;
    commitment_count = u32_mod - 1;
    fee_version = none;
  }

  -- What follows the loop.
  abbrev pub batch_result :
      Result ProgramError (BatchLoop U) → Result ProgramError (List (CommitmentHashRequest U) × ℕ)
  batch_result r = r >>= λ l.
      if length l.requests == 0
      then err (from_elusiv queue_is_empty)
      else ok (l.requests, l.highest_batching_rate)

  -- A round reads one more element of the queue, so a queue of `capacity` elements lets the loop make
  -- at most that many, and one more test.
  unfoldable pub next_batch :
      RingQueue (CommitmentHashRequest U)
      → Option (Result ProgramError (List (CommitmentHashRequest U) × ℕ))
  unfolding batch_loop
  next_batch q = elim (batch_loop (capacity + 2) q no_requests) [
    | none ↦ none
    | some r ↦ some (batch_result r)
  ]
