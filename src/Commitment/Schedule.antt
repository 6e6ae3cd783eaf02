-- ===== src/Commitment/Schedule.antt =====
-- The instructions of a batch, and a call that performs one of them.
use elusiv.Base.{
  length, >>=-ok, ok, u32_mod, ℕ, zero, suc, ◌*◌, ◌≤◌, ◌<◌, ◌≡◌, refl, ap, List, arith,
}
use elusiv.Computation.Budget.{total}
use elusiv.Computation.Hashes.{hash_compute_units_returns}
use elusiv.Commitment.{
  batch_hash_count, commitment_hash_computation, commitment_hash_computation_instructions,
  commitment_hash_computation_rounds,
}
use elusiv.Commitment.Progress.{hash_count}

-- The hash counts of the macro are those of hash_count_per_batch.
batch_hash_count_lem : (r : ℕ) → r ≤ 4 → batch_hash_count r ≡ ok (hash_count r)
unfolding batch_hash_count
batch_hash_count_lem zero h = refl
batch_hash_count_lem (suc zero) h = refl
batch_hash_count_lem (suc (suc zero)) h = refl
batch_hash_count_lem (suc (suc (suc zero))) h = refl
batch_hash_count_lem (suc (suc (suc (suc zero)))) h = refl
batch_hash_count_lem (suc (suc (suc (suc (suc r))))) h = absurd (omega arith)

pub hash_count_small : (r : ℕ) → r ≤ 4 → hash_count r ≤ 31
hash_count_small zero h = omega arith
hash_count_small (suc zero) h = omega arith
hash_count_small (suc (suc zero)) h = omega arith
hash_count_small (suc (suc (suc zero))) h = omega arith
hash_count_small (suc (suc (suc (suc zero)))) h = omega arith
hash_count_small (suc (suc (suc (suc (suc r))))) h = absurd (omega arith)

-- The instructions of a batching rate: together they are the rounds of all hashes.
pub record IsSchedule (r : ℕ) (instructions : List ℕ) : Type 0 where
  pub table : commitment_hash_computation_instructions r ≡ ok instructions
  pub rounds : commitment_hash_computation_rounds r ≡ ok (65 * hash_count r)
  pub all : total instructions ≡ 65 * hash_count r
  pub short : length instructions < u32_mod

-- For a batching rate up to 4, the table of the instructions exists, and its rounds are those of all
-- hashes of the batch.
pub IsSchedule-exists : (r : ℕ) → r ≤ 4 → (instructions : List ℕ) × IsSchedule r instructions
unfolding commitment_hash_computation_instructions commitment_hash_computation_rounds
    commitment_hash_computation
IsSchedule-exists r h =
    let (result, e, all, rounds, most) =
      hash_compute_units_returns (hash_count r) (omega (arith, hash_count_small r h)) in
    let found : commitment_hash_computation r ≡ ok result = >>=-ok _ (batch_hash_count_lem r h) e in
    (
      result.instructions,
      record {
        table = >>=-ok _ found refl;
        rounds = >>=-ok _ found (ap ok rounds);
        all = all;
        short = omega (arith, hash_count_small r h);
      },
    )
