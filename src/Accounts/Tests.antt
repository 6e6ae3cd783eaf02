-- ===== src/Accounts/Tests.antt =====
-- A full tree that is closed.
use elusiv.Base.{replicate, length-replicate, ok, ℕ, ◌+◌, ◌≡◌, refl, some, [], ◌∷◌, arith}
use elusiv.Queue.{RingQueue}
use elusiv.Storage.{
  StorageAccount, is_full, get_root, get_node, use_default_value, mt_array_index,
  account_and_local_index, read_child, reset, mt_commitment_count,
}
use elusiv.Nullifier.{NullifierAccount}
use elusiv.Commitment.Batch.{CommitmentHashRequest, commitment_queue_len, commitment_queue_capacity}
use elusiv.Queue.Slots.{Represents}
use elusiv.Queue.Refine.{clear-Represents}
use elusiv.Queue.{clear}
use elusiv.Accounts.{is_mt_full, reset_active_merkle_tree}
use elusiv.Accounts.Reset.{CountsAsFull, reset_active_merkle_tree_lem}

abbrev no_request : CommitmentHashRequest ℕ
no_request = record { commitment = 0; fee_version = 0; min_batching_rate = 0 }

abbrev queue : RingQueue (CommitmentHashRequest ℕ)
queue = record { head = 0; tail = 0; raw_data = replicate commitment_queue_len no_request }

queue_test : Represents commitment_queue_capacity queue []
unfolding clear
queue_test = clear-Represents commitment_queue_capacity queue (record {
  positive = omega arith;
  small = omega arith;
  storage = length-replicate commitment_queue_len no_request;
  head_in = omega arith;
  tail_in = omega arith;
})

abbrev full_tree : StorageAccount ℕ
full_tree = record {
  children = some (7 ∷ []) ∷ [];
  next_commitment_ptr = mt_commitment_count;
  trees_count = 2;
  archived_count = 0;
  active_mt_root_history = 1 ∷ 2 ∷ [];
  mt_roots_count = 2;
}

abbrev empty_tree : StorageAccount ℕ
empty_tree = record {
  children = some (7 ∷ []) ∷ [];
  next_commitment_ptr = 0;
  trees_count = 3;
  archived_count = 0;
  active_mt_root_history = 0 ∷ 0 ∷ [];
  mt_roots_count = 0;
}

abbrev nullifiers : NullifierAccount
nullifiers = record {
  children = [];
  root = 0;
  nullifier_hash_count = 0;
  max_values = [];
  moved_values_count = 0;
  moved_values = [];
  moved_values_target = [];
}

close_test :
    reset_active_merkle_tree [] full_tree queue nullifiers 2
    ≡ ok (empty_tree, record nullifiers { root = 7 })
unfolding reset_active_merkle_tree is_mt_full is_full get_root get_node use_default_value
    mt_array_index account_and_local_index read_child reset
close_test = refl

reset_active_merkle_tree_example :
    CountsAsFull full_tree []
    × (get_root [] full_tree ≡ ok 7)
    × (◌≡◌ {A = ℕ} 3 (2 + 1))
    × (◌≡◌ {A = ℕ} 0 0)
    × (◌≡◌ {A = ℕ} 0 0)
reset_active_merkle_tree_example =
    reset_active_merkle_tree_lem [] full_tree empty_tree queue nullifiers
      (record nullifiers { root = 7 }) 2 [] queue_test close_test
