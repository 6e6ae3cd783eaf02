-- ===== src/Commitment/Tests.antt =====
-- Runs with a hash function of numbers, and the witnesses of the properties.
use elusiv.Base.{
  length, get_elem?, replicate, ok, ℕ, ◌+◌, ◌<◌, ◌≡◌, refl, true, false, none, some, List, [], ◌∷◌,
  arith,
}
use elusiv.Storage.{
  StorageAccount, mt_array_index, account_and_local_index, write_child, write_place, set_node,
}
use elusiv.Computation.{
  hash_compute_units, hash_round_costs, compute_unit_optimization, optimize, optimize_round, finish,
}
use elusiv.Poseidon.{Hasher}
use elusiv.Commitment.{
  batch_hash_count, commitment_hash_computation, commitment_hash_computation_instructions,
}
use elusiv.Commitment.Account.{
  CommitmentHashingAccount, index_below_from, next_hashing_state, reset,
}
use elusiv.Commitment.Inputs.{hash_inputs, next_hashing_state_lem}
use elusiv.Commitment.Progress.{hash_count, IsFinished}
use elusiv.Commitment.Calls.{compute_calls}
use elusiv.Commitment.Root.{IsFresh, compute_calls-IsFinished}
use elusiv.Commitment.Update.{nodes_below_level, insert_level, update_mt, finalize_commitment_hash}
use elusiv.Commitment.Finalize.{IsFinalized, finalize_commitment_hash-IsFinalized}

abbrev hasher : Hasher ℕ ℕ
hasher = record {
  zero_fr = 0;
  to_fr = λ x. x;
  to_u256 = λ x. x;
  hash_round = λ r s. record { s0 = s.s0 + s.s1 + r; s1 = s.s2; s2 = s.s0 };
}

abbrev fresh_account : CommitmentHashingAccount ℕ ℕ
fresh_account = record {
  instruction = 0;
  round = 0;
  fee_version = 0;
  is_active = false;
  is_setup = true;
  finalization_ix = 0;
  batching_rate = 0;
  state = record { s0 = 0; s1 = 0; s2 = 0 };
  ordering = 41_956;
  siblings = replicate 20 9;
  above_hashes = replicate 20 0;
  hash_tree = replicate 31 0;
}

abbrev batch : List ℕ
batch = 5 ∷ 6 ∷ replicate 14 0

-- The account after a reset with a batch of two commitments.
abbrev begun_account : CommitmentHashingAccount ℕ ℕ
begun_account = record fresh_account {
  is_active = true;
  fee_version = 7;
  batching_rate = 1;
  state = record { s0 = 0; s1 = 5; s2 = 6 };
  hash_tree = 5 ∷ 6 ∷ replicate 29 0;
}

IsFresh-test : IsFresh hasher fresh_account
IsFresh-test = record {
  tree_size = refl;
  above_size = refl;
  siblings_size = refl;
  no_instruction = refl;
  no_round = refl;
}

reset_test : reset hasher fresh_account 1 7 batch ≡ ok begun_account
unfolding reset next_hashing_state index_below_from
reset_test = refl

compute_calls-IsFinished_example :
    (instructions : List ℕ) × (a1 : CommitmentHashingAccount ℕ ℕ)
    × (commitment_hash_computation_instructions 1 ≡ ok instructions)
    × (compute_calls hasher (length instructions) begun_account ≡ ok a1)
    × ((i : ℕ) → i < hash_count 1 → IsFinished hasher a1 2 i)
    × ((i : ℕ) → i < 2 → get_elem? a1.hash_tree i ≡ get_elem? batch i)
compute_calls-IsFinished_example =
    compute_calls-IsFinished hasher fresh_account begun_account 1 7 batch IsFresh-test (omega arith)
      (omega arith) reset_test

next_hashing_state_example :
    next_hashing_state hasher begun_account 1 ≡ hash_inputs hasher begun_account 2 1
next_hashing_state_example = next_hashing_state_lem hasher begun_account 1 (omega arith)

-- The first finalization of the batch, which stores the commitments.
abbrev computed_account : CommitmentHashingAccount ℕ ℕ
computed_account = record begun_account { instruction = 24 }

abbrev storage : StorageAccount ℕ
storage = record {
  children =
      none
      ∷ none
      ∷ none
      ∷ none
      ∷ none
      ∷ none
      ∷ none
      ∷ none
      ∷ none
      ∷ none
      ∷ none
      ∷ none
      ∷ none
      ∷ some (0 ∷ 0 ∷ [])
      ∷ [];
  next_commitment_ptr = 41_956;
  trees_count = 0;
  archived_count = 0;
  active_mt_root_history = replicate 100 0;
  mt_roots_count = 1;
}

abbrev storage_after : StorageAccount ℕ
storage_after = record storage {
  children =
      none
      ∷ none
      ∷ none
      ∷ none
      ∷ none
      ∷ none
      ∷ none
      ∷ none
      ∷ none
      ∷ none
      ∷ none
      ∷ none
      ∷ none
      ∷ some (5 ∷ 6 ∷ [])
      ∷ [];
}

finalize_test :
    finalize_commitment_hash [] computed_account storage
    ≡ ok (record computed_account { finalization_ix = 1 }, storage_after)
unfolding finalize_commitment_hash update_mt nodes_below_level insert_level set_node mt_array_index
    account_and_local_index write_child write_place commitment_hash_computation_instructions
    commitment_hash_computation batch_hash_count hash_compute_units hash_round_costs
    compute_unit_optimization optimize optimize_round finish
finalize_test = refl

finalize_commitment_hash-IsFinalized_example :
    IsFinalized [] computed_account storage
      (record computed_account { finalization_ix = 1 })
      storage_after
finalize_commitment_hash-IsFinalized_example =
    finalize_commitment_hash-IsFinalized [] computed_account
      (record computed_account { finalization_ix = 1 }) storage storage_after finalize_test
