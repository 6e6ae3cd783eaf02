-- ===== src/Fee/Tests.antt =====
-- The fee of a commitment that is hashed alone.
use elusiv.Base.{length, ok, ℕ, ◌+◌, ◌*◌, ◌≤◌, ◌<◌, ◌≡◌, refl, List, [], ◌∷◌, arith}
use elusiv.Computation.{
  hash_compute_units, hash_round_costs, compute_unit_optimization, optimize, optimize_round, finish,
}
use elusiv.Commitment.{
  batch_hash_count, commitment_hash_computation, commitment_hash_computation_instructions,
}
use elusiv.Fee.{ProgramFee, commitment_hash_computation_fee}
use elusiv.Fee.Cover.{commitment_hash_computation_fee_covers}

abbrev fees : ProgramFee
fees = record {
  lamports_per_tx = 5000;
  base_commitment_network_fee = 0;
  proof_network_fee = 0;
  base_commitment_subvention = 0;
  proof_subvention = 0;
  warden_hash_tx_reward = 100;
  warden_proof_reward = 0;
  proof_base_tx_count = 5;
}

-- The instructions of one commitment.
abbrev table : List ℕ
table =
    56 ∷ 54 ∷ 54 ∷ 54 ∷ 54 ∷ 55 ∷ 57 ∷ 54 ∷ 54 ∷ 54 ∷ 54 ∷ 54 ∷ 57 ∷ 54 ∷ 54 ∷ 54 ∷ 54 ∷ 54 ∷ 57
    ∷ 55 ∷ 54 ∷ 54 ∷ 54 ∷ 45 ∷ []

table_test : commitment_hash_computation_instructions 0 ≡ ok table
unfolding commitment_hash_computation_instructions commitment_hash_computation batch_hash_count
    hash_compute_units hash_round_costs compute_unit_optimization optimize optimize_round finish
table_test = refl

commitment_hash_computation_fee_example :
    (fee : ℕ) × (commitment_hash_computation_fee fees 0 ≡ ok fee)
    × (length table * 5100 ≤ fee * 1)
    × (fee * 1 < length table * 5100 + 1)
commitment_hash_computation_fee_example =
    commitment_hash_computation_fee_covers fees 0 table (omega arith) table_test (omega arith)
