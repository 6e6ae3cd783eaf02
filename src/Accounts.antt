-- ===== src/Accounts.antt =====
-- elusiv/src/processor/accounts.rs: the change from a Merkle tree to the next one.
pub mod Reset
mod Tests
use elusiv.Base.{
  ltb, leb, ◌==◌, if◌then◌else◌, length, ◌>>=◌, ◌>>◌, guard, ok_or, unwrap, from_elusiv, math_err,
  invalid_instruction_data, invalid_account_state, merkle_tree_is_not_full_yet, ProgramError,
  Result, ok, panic, u32_mod, checked_add, ℕ, ◌+◌, Bool, true, not, List,
}
use elusiv.Queue.{RingQueue, is_empty}
use elusiv.Storage.{StorageAccount, mt_commitment_count, is_full, get_root, reset}
use elusiv.Metadata.{MetadataAccount}
use elusiv.Nullifier.{NullifierAccount}
use elusiv.Commitment.Account.{CommitmentHashingAccount}
use elusiv.Commitment.Batch.{CommitmentHashRequest, commitment_queue_capacity, next_batch}

-- The search for the next batch is on fuel, which is always enough.
unfoldable pub is_mt_full {ℓ} :
    {U : Type ℓ} → StorageAccount U → RingQueue (CommitmentHashRequest U) → Result ProgramError Bool
unfolding is_full next_batch
is_mt_full s queue = if is_full s then ok true else (do
  found ← unwrap (next_batch commitment_queue_capacity queue)
  batch ← found
  ok (leb mt_commitment_count (s.next_commitment_ptr + length batch.0)))

-- `zero_bytes` is the root of an unused history entry; the nullifier account stores the root as the
-- number of its bytes.
unfoldable pub reset_active_merkle_tree :
    List ℕ
    → StorageAccount ℕ
    → RingQueue (CommitmentHashRequest ℕ)
    → NullifierAccount
    → ℕ
    → Result ProgramError (StorageAccount ℕ × NullifierAccount)
unfolding is_mt_full get_root reset
reset_active_merkle_tree empty_tree s queue n active_merkle_tree_index = do
  guard (s.trees_count == active_merkle_tree_index) (from_elusiv invalid_instruction_data)
  full ← is_mt_full s queue
  guard full (from_elusiv merkle_tree_is_not_full_yet)
  trees ← ok_or (checked_add u32_mod active_merkle_tree_index 1) math_err
  root ← get_root empty_tree s
  ok (reset 0 (record s { trees_count = trees }), record n { root = root })

-- The trees that can be archived; the rest of the function is a panic.
unfoldable pub archive_closed_merkle_tree : StorageAccount ℕ → ℕ → Result ProgramError (Unit {0})
archive_closed_merkle_tree s closed_merkle_tree_index =
    guard (ltb closed_merkle_tree_index s.trees_count) (from_elusiv invalid_instruction_data)
    >> panic

-- `create_new_accounts_v1` after the three accounts are opened.
unfoldable pub create_new_accounts_v1 {ℓ κ μ} :
    {F : Type ℓ} {U : Type κ} {M : Type μ}
    → StorageAccount U
    → CommitmentHashingAccount F U
    → RingQueue (CommitmentHashRequest U)
    → MetadataAccount M
    → Result ProgramError (MetadataAccount M)
unfolding is_empty
create_new_accounts_v1 s hashing queue metadata = do
  guard (not hashing.is_active) (from_elusiv invalid_account_state)
  guard (is_empty commitment_queue_capacity queue) (from_elusiv invalid_account_state)
  ok (record metadata { next_metadata_ptr = s.next_commitment_ptr })
