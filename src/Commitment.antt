-- ===== src/Commitment.antt =====
-- elusiv/src/commitment/mod.rs: the sizes of the batches in which commitments are hashed. The commitments
-- of a batch are the leaves of a small hash tree, whose root is hashed up to the root of the Merkle tree.
pub mod Account
pub mod Inputs
pub mod Hashes
pub mod Progress
pub mod Rounds
pub mod Schedule
pub mod Calls
pub mod Frame
pub mod Root
pub mod Batch
pub mod Update
pub mod Writes
pub mod Finalize
pub mod Processor
pub mod Queues
pub mod Taken
pub mod BaseHashing
mod Tests
use elusiv.Base.{
  ◌>>=◌, ◌>>◌, ProgramError, Result, ok, read, two_pow, ℕ, ◌+◌, ◌-◌, ◌^◌, List, [], ◌∷◌,
}
use elusiv.Computation.{PartialComputationResult, hash_compute_units}

abbrev pub max_commitment_batching_rate : ℕ
max_commitment_batching_rate = 4

abbrev pub mt_height : ℕ
mt_height = 20

abbrev pub max_ht_size : ℕ
max_ht_size = 2 ^ (max_commitment_batching_rate + 1) - 1

abbrev pub max_ht_commitments : ℕ
max_ht_commitments = 2 ^ max_commitment_batching_rate

abbrev pub commitments_per_batch : {E : Type 0} → ℕ → Result E ℕ
commitments_per_batch batching_rate = two_pow batching_rate

abbrev pub hash_count_per_batch : {E : Type 0} → ℕ → Result E ℕ
hash_count_per_batch batching_rate = do
  w ← two_pow batching_rate
  ok (w - 1 + mt_height - batching_rate)

-- The arguments of `commitment_batch_hashing!`; another rate panics.
unfoldable pub batch_hash_count : ℕ → Result ProgramError ℕ
batch_hash_count batching_rate = read (20 ∷ 20 ∷ 21 ∷ 24 ∷ 31 ∷ []) batching_rate

unfoldable pub commitment_hash_computation : ℕ → Result ProgramError PartialComputationResult
unfolding batch_hash_count hash_compute_units
commitment_hash_computation batching_rate =
    batch_hash_count batching_rate >>= λ hashes. hash_compute_units hashes 0

unfoldable pub commitment_hash_computation_instructions : ℕ → Result ProgramError (List ℕ)
unfolding commitment_hash_computation
commitment_hash_computation_instructions batching_rate =
    commitment_hash_computation batching_rate >>= λ result. ok result.instructions

unfoldable pub commitment_hash_computation_rounds : ℕ → Result ProgramError ℕ
unfolding commitment_hash_computation
commitment_hash_computation_rounds batching_rate =
    commitment_hash_computation batching_rate >>= λ result. ok result.total_rounds

-- `BaseCommitmentHashComputation`.
unfoldable pub base_commitment_hash_computation : Result ProgramError PartialComputationResult
unfolding hash_compute_units
base_commitment_hash_computation = hash_compute_units 1 100_000
