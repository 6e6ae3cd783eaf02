-- ===== src/Proof/Check.antt =====
-- elusiv/src/processor/proof.rs: the checks of the public inputs of a proof. `reduce` is the Montgomery
-- reduction, `zero_commitment_raw` the number of the zero commitment, and `empty_tree` the nodes of an
-- empty tree.
pub mod Different
use elusiv.Base.{
  ltb, leb, ◌==◌, if◌then◌else◌, length, set, ◌>>=◌, ◌>>◌, guard, from_elusiv,
  invalid_instruction_data, invalid_amount, invalid_merkle_root, could_not_insert_nullifier,
  invalid_recent_commitment_index, invalid_public_inputs, ProgramError, Result, ok, add_u32, read,
  ℕ, suc, ◌/◌, ◌%◌, ◌^◌, Bool, true, false, not, ◌&&◌, ◌||◌, none, some, List, [], ◌∷◌, ◌++◌,
}
use elusiv.Queue.{usize_as_u32_safe}
use elusiv.Storage.{StorageAccount, is_root_valid, mt_commitment_count}
use elusiv.Nullifier.{join_split_max_n_arity, NullifierAccount, can_insert_nullifier_hash}
use elusiv.Commitment.Processor.{verify_recent_commitment_index}
use elusiv.Proof.{InputCommitment, JoinSplitPublicInputs}

abbrev pub timestamp_bits_pruning : ℕ
timestamp_bits_pruning = 5

abbrev pub max_mt_count : ℕ
max_mt_count = 2

unfoldable pub is_timestamp_valid : ℕ → ℕ → Bool
is_timestamp_valid asserted_time timestamp =
    leb (asserted_time / 2 ^ timestamp_bits_pruning) (timestamp / 2 ^ timestamp_bits_pruning)

abbrev pub mem : ℕ → List ℕ → Bool
mem x [] = false
mem x (y ∷ ys) = if x == y then true else mem x ys

-- The size of the set of the values.
abbrev pub distinct_count : List ℕ → ℕ
distinct_count [] = 0
distinct_count (x ∷ xs) = let rest = distinct_count xs in if mem x xs then rest else suc rest

unfoldable pub is_vec_duplicate_free : List ℕ → Bool
is_vec_duplicate_free v = distinct_count v == length v

unfoldable pub minimum_commitment_mt_index : ℕ → ℕ → ℕ → Result ProgramError (ℕ × ℕ)
minimum_commitment_mt_index mt_index commitment_count commitment_queue_len = do
  count ← usize_as_u32_safe mt_commitment_count
  let total = add_u32 commitment_count commitment_queue_len
  ok (total % count, add_u32 mt_index (total / count))

-- What the first loop gathers, `nullifier_hashes` by tree.
pub record Trees : Type 0 where
  pub roots : List ℕ
  pub tree_index : List ℕ
  pub nullifier_hashes : List (List ℕ)

-- The inner loop, for the input `i`, over the inputs from `j` on.
unfoldable pub check_duplicates :
    List ℕ → ℕ → InputCommitment → ℕ → List InputCommitment → Result ProgramError (Unit {0})
check_duplicates tree_index i c j [] = ok tt
check_duplicates tree_index i c j (d ∷ ds) =
    let rest = check_duplicates tree_index i c (suc j) ds in
    if i == j
    then rest
    else if c.nullifier_hash == d.nullifier_hash
    then (do
      a ← read tree_index i
      b ← read tree_index j
      guard (not (a == b)) (from_elusiv invalid_public_inputs)
      rest)
    else rest

module _ (reduce : ℕ → ℕ) (zero_commitment_raw : ℕ) (empty_tree : List ℕ) where
  -- The first loop's body.
  unfoldable pub check_root :
      StorageAccount ℕ
      → List NullifierAccount
      → List ℕ
      → InputCommitment
      → Trees
      → Result ProgramError Trees
  unfolding is_root_valid
  check_root storage nullifier_accounts tree_indices c t = elim c.root [
    | none ↦ do
      first ← read t.nullifier_hashes 0
      ok (record t {
        tree_index = t.tree_index ++ 0 ∷ [];
        nullifier_hashes = set t.nullifier_hashes 0 (first ++ c.nullifier_hash ∷ []);
      })
    | some root ↦ do
      let index = length t.roots
      tree ← read tree_indices index
      valid ←
          if tree == storage.trees_count
          then is_root_valid empty_tree ◌==◌ storage (reduce root)
          else (read nullifier_accounts index >>= λ a. ok (reduce root == a.root))
      guard valid (from_elusiv invalid_merkle_root)
      ok (record {
        roots = t.roots ++ root ∷ [];
        tree_index = t.tree_index ++ index ∷ [];
        nullifier_hashes = t.nullifier_hashes ++ (c.nullifier_hash ∷ []) ∷ [];
      })
  ]

  unfoldable pub check_roots :
      StorageAccount ℕ
      → List NullifierAccount
      → List ℕ
      → List InputCommitment
      → Trees
      → Result ProgramError Trees
  unfolding check_root
  check_roots storage nullifier_accounts tree_indices [] t = ok t
  check_roots storage nullifier_accounts tree_indices (c ∷ cs) t =
      check_root storage nullifier_accounts tree_indices c t >>= λ t'.
      check_roots storage nullifier_accounts tree_indices cs t'

  -- The second loop, from the input `i` on.
  unfoldable pub check_nullifiers :
      List NullifierAccount
      → List ℕ
      → List InputCommitment
      → ℕ
      → List InputCommitment
      → Result ProgramError (Unit {0})
  unfolding check_duplicates can_insert_nullifier_hash
  check_nullifiers nullifier_accounts tree_index inputs i [] = ok tt
  check_nullifiers nullifier_accounts tree_index inputs i (c ∷ cs) = do
    check_duplicates tree_index i c 0 inputs
    tree ← read tree_index i
    account ← read nullifier_accounts tree
    free ← can_insert_nullifier_hash account (reduce c.nullifier_hash)
    guard free (from_elusiv could_not_insert_nullifier)
    check_nullifiers nullifier_accounts tree_index inputs (suc i) cs

  unfoldable pub check_join_split_public_inputs :
      JoinSplitPublicInputs
      → StorageAccount ℕ
      → List NullifierAccount
      → List ℕ
      → Result ProgramError (Unit {0})
  unfolding verify_recent_commitment_index check_roots is_vec_duplicate_free check_nullifiers
  check_join_split_public_inputs j storage nullifier_accounts tree_indices = do
    let inputs = j.input_commitments
    guard (not (j.output_commitment == zero_commitment_raw)) (from_elusiv invalid_public_inputs)
    first ← read inputs 0
    guard (elim (first.root) [ none ↦ false | some r ↦ true ]) (from_elusiv invalid_public_inputs)
    guard (leb (length inputs) join_split_max_n_arity) (from_elusiv invalid_public_inputs)
    guard (verify_recent_commitment_index j.recent_commitment_index storage)
        (from_elusiv invalid_recent_commitment_index)
    guard (leb (j.optional_fee.amount) j.amount) (from_elusiv invalid_amount)
    trees ←
        check_roots storage nullifier_accounts tree_indices inputs
          (record { roots = []; tree_index = []; nullifier_hashes = [] })
    let count = length trees.roots
    guard (not (count == 0) && leb count max_mt_count) (from_elusiv invalid_public_inputs)
    guard (leb count (length tree_indices)) (from_elusiv invalid_public_inputs)
    guard (not (ltb 1 count) || is_vec_duplicate_free tree_indices)
        (from_elusiv invalid_instruction_data)
    check_nullifiers nullifier_accounts trees.tree_index inputs 0 inputs
