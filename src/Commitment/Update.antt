-- ===== src/Commitment/Update.antt =====
-- elusiv/src/state/commitment.rs: `update_mt`, which stores the hashes of a batch in the Merkle tree, and
-- elusiv/src/processor/commitment.rs: `finalize_commitment_hash`, which takes the steps of it.
use elusiv.Base.{
  leb, ◌==◌, if◌then◌else◌, length, ◌>>=◌, ◌>>◌, guard, unwrap_ok, from_elusiv,
  no_room_for_commitment, computation_is_not_yet_started, computation_is_not_yet_finished,
  computation_is_already_finished, ProgramError, Result, ok, add_u32, read, write, ℕ, zero, suc,
  ◌+◌, ◌-◌, ◌/◌, ◌%◌, ◌^◌, false, List,
}
use elusiv.Storage.{StorageAccount, set_node, get_root, history_array_size, mt_commitment_count}
use elusiv.Commitment.{mt_height, commitments_per_batch, commitment_hash_computation_instructions}
use elusiv.Commitment.Account.{CommitmentHashingAccount}

-- The nodes of the hash tree below the level `level`, of a tree with `count` levels from there on.
unfoldable pub nodes_below_level : ℕ → ℕ → ℕ
nodes_below_level level zero = 0
nodes_below_level level (suc count) = nodes_below_level level count + 2 ^ (level + suc count)

module _ {ℓ κ} {F : Type ℓ} {U : Type κ} where
  -- The writes of the hashes of a level, `count` of them from the place `i` on.
  unfoldable pub insert_level :
      ℕ
      → CommitmentHashingAccount F U
      → StorageAccount U
      → ℕ
      → ℕ
      → ℕ
      → ℕ
      → Result ProgramError (StorageAccount U)
  unfolding set_node
  insert_level zero a s nodes_below ordering mt_level i = ok s
  insert_level (suc count) a s nodes_below ordering mt_level i = do
    value ← read a.hash_tree (nodes_below + i)
    s' ← unwrap_ok {E = ProgramError} (set_node s value (ordering + i) mt_level)
    insert_level count a s' nodes_below ordering mt_level (suc i)

  -- The writes of the hashes above the hash tree, `count` of them from the hash `i` on.
  unfoldable pub insert_above :
      ℕ
      → CommitmentHashingAccount F U
      → StorageAccount U
      → ℕ
      → Result ProgramError (StorageAccount U)
  unfolding set_node
  insert_above zero a s i = ok s
  insert_above (suc count) a s i = do
    value ← read a.above_hashes i
    s' ← unwrap_ok {E = ProgramError} (
        set_node s value (a.ordering / 2 ^ (a.batching_rate + i + 1))
          (mt_height - a.batching_rate - i - 1))
    insert_above count a s' (suc i)

module _ {ℓ κ} {F : Type ℓ} {U : Type κ} (empty_tree : List U) where
  -- What the last finalization adds: the hashes above, the next place, and the root in the history.
  unfoldable pub complete_mt :
      CommitmentHashingAccount F U → StorageAccount U → Result ProgramError (StorageAccount U)
  unfolding insert_above get_root
  complete_mt a s = do
    s' ← insert_above (mt_height - a.batching_rate) a s 0
    count ← commitments_per_batch a.batching_rate
    let filled = record s' { next_commitment_ptr = add_u32 a.ordering count }
    root ← unwrap_ok {E = ProgramError} (get_root empty_tree filled)
    history ← write filled.active_mt_root_history (a.ordering % history_array_size) root
    ok (record filled {
      active_mt_root_history = history;
      mt_roots_count = add_u32 filled.mt_roots_count 1;
    })

  unfoldable pub update_mt :
      CommitmentHashingAccount F U → StorageAccount U → ℕ → Result ProgramError (StorageAccount U)
  unfolding insert_level nodes_below_level complete_mt
  update_mt a s finalization_ix =
      let ht_level = a.batching_rate - finalization_ix in
      let nodes_below = nodes_below_level ht_level (a.batching_rate - ht_level) in
      let ordering = a.ordering / 2 ^ (a.batching_rate - ht_level) in
      let mt_level = mt_height - a.batching_rate + ht_level in
      (if leb finalization_ix a.batching_rate
        then insert_level (2 ^ ht_level) a s nodes_below ordering mt_level 0
        else ok s)
      >>= λ s'. if finalization_ix == a.batching_rate then complete_mt a s' else ok s'

  unfoldable pub finalize_commitment_hash :
      CommitmentHashingAccount F U
      → StorageAccount U
      → Result ProgramError (CommitmentHashingAccount F U × StorageAccount U)
  unfolding update_mt commitment_hash_computation_instructions
  finalize_commitment_hash a s = do
    guard a.is_active (from_elusiv computation_is_not_yet_started)
    guard (leb a.finalization_ix a.batching_rate) (from_elusiv computation_is_already_finished)
    instructions ← commitment_hash_computation_instructions a.batching_rate
    guard (leb (length instructions) a.instruction) (from_elusiv computation_is_not_yet_finished)
    count ← commitments_per_batch a.batching_rate
    guard (leb (s.next_commitment_ptr + count) mt_commitment_count)
        (from_elusiv no_room_for_commitment)
    s' ← update_mt a s a.finalization_ix
    let last = a.finalization_ix == a.batching_rate
    ok (
      record a {
        finalization_ix = add_u32 a.finalization_ix 1;
        is_active = if last then false else a.is_active;
        is_setup = if last then false else a.is_setup;
      },
      s',
    )
