-- ===== src/Commitment/Account.antt =====
-- elusiv/src/state/commitment.rs and elusiv/src/commitment/mod.rs: the accounts in which the hashes are
-- computed, over several calls. `U` is the type of the 32 bytes, `F` that of the field elements.
use elusiv.Base.{
  ltb, leb, ◌==◌, if◌then◌else◌, length, ◌>>=◌, ◌>>◌, guard, from_elusiv, invalid_account_state,
  computation_is_already_finished, ProgramError, Result, ok, panic, add_u32, add_u64, sub_u64, read,
  write, write_all, two_pow, ℕ, zero, suc, ◌+◌, ◌-◌, ◌*◌, ◌/◌, ◌%◌, ◌^◌, Bool, true, false, not,
  List,
}
use elusiv.Poseidon.{HashingState, Hasher, new_state, result, total_poseidon_rounds}
use elusiv.Commitment.{
  max_ht_size, commitments_per_batch, hash_count_per_batch,
  commitment_hash_computation_instructions, commitment_hash_computation_rounds,
}

pub record CommitmentHashingAccount {ℓ κ} (F : Type ℓ) (U : Type κ) : Type (ℓ ⊔ κ) where
  pub instruction : ℕ
  pub round : ℕ
  pub fee_version : ℕ
  pub is_active : Bool
  pub is_setup : Bool
  pub finalization_ix : ℕ
  pub batching_rate : ℕ
  pub state : HashingState F
  pub ordering : ℕ
  pub siblings : List U
  pub above_hashes : List U
  pub hash_tree : List U

-- The search for the layer of a hash: `layer` layers are left, with `nodes_below` hashes under them.
-- The index of its first child is the result.
unfoldable pub index_below_from : ℕ → ℕ → ℕ → ℕ → Result ProgramError ℕ
index_below_from hash_index commitment_count zero nodes_below = panic
index_below_from hash_index commitment_count (suc ht_layer) nodes_below =
    let above =
      index_below_from hash_index commitment_count ht_layer (nodes_below + 2 ^ ht_layer) in
    let index_in_layer = sub_u64 hash_index nodes_below in
    if ltb index_in_layer (2 ^ ht_layer)
    then ok (
        add_u64 (sub_u64 (commitment_count + nodes_below) (2 ^ (ht_layer + 1)))
          (index_in_layer * 2))
    else above

-- `ordering >> shift & 1 == 1`; a shift takes the shift modulo the width.
abbrev pub is_right : ℕ → ℕ → Bool
is_right ordering shift = ordering / 2 ^ (shift % 32) % 2 == 1

module _ {ℓ κ} {F : Type ℓ} {U : Type κ} where
  unfoldable pub setup :
      CommitmentHashingAccount F U → ℕ → List U → Result ProgramError (CommitmentHashingAccount F U)
  setup a ordering siblings = do
    guard (not a.is_active) (from_elusiv invalid_account_state)
    siblings' ← write_all a.siblings 0 siblings
    ok (record a {
      is_setup = true;
      instruction = 0;
      round = 0;
      ordering = ordering;
      finalization_ix = 0;
      siblings = siblings';
    })

module _ {ℓ κ} {F : Type ℓ} {U : Type κ} (h : Hasher F U) where
  unfoldable pub next_hashing_state :
      CommitmentHashingAccount F U → ℕ → Result ProgramError (HashingState F)
  unfolding index_below_from
  next_hashing_state a hash_index = two_pow a.batching_rate >>= λ w.
      let sub_tree_size = w - 1 in
      let index = hash_index - sub_tree_size in
      if ltb hash_index sub_tree_size
      then (do
        commitment_count ← commitments_per_batch a.batching_rate
        index_below ← index_below_from hash_index commitment_count a.batching_rate 0
        l ← read a.hash_tree index_below
        r ← read a.hash_tree (index_below + 1)
        ok (new_state h (h.to_fr l) (h.to_fr r) false))
      else if hash_index == sub_tree_size
      then (do
        w' ← two_pow (a.batching_rate + 1)
        l ← read a.hash_tree (w' - 2)
        r ← read a.siblings a.batching_rate
        ok (new_state h (h.to_fr l) (h.to_fr r) (is_right a.ordering a.batching_rate)))
      else (do
        l ← read a.above_hashes (index - 1)
        r ← read a.siblings (a.batching_rate + index)
        ok (new_state h (h.to_fr l) (h.to_fr r) (is_right a.ordering (index + a.batching_rate))))

  unfoldable pub save_finished_hash :
      CommitmentHashingAccount F U
      → ℕ
      → HashingState F
      → Result ProgramError (CommitmentHashingAccount F U)
  save_finished_hash a hash_index state = two_pow a.batching_rate >>= λ w.
      let value = h.to_u256 (result h state) in
      if ltb hash_index (w - 1)
      then (do
        hash_tree' ← write a.hash_tree (w + hash_index) value
        ok (record a { hash_tree = hash_tree' }))
      else (do
        above_hashes' ← write a.above_hashes (hash_index - (w - 1)) value
        ok (record a { above_hashes = above_hashes' }))

  unfoldable pub reset :
      CommitmentHashingAccount F U
      → ℕ
      → ℕ
      → List U
      → Result ProgramError (CommitmentHashingAccount F U)
  unfolding next_hashing_state
  reset a batching_rate fee_version commitments = do
    guard (not a.is_active) (from_elusiv invalid_account_state)
    guard a.is_setup (from_elusiv invalid_account_state)
    hash_tree' ←
        (if leb (length commitments) max_ht_size
          then write_all a.hash_tree 0 commitments
          else panic)
    let a' : CommitmentHashingAccount F U = record a {
      is_active = true;
      fee_version = fee_version;
      batching_rate = batching_rate;
      hash_tree = hash_tree';
    }
    state' ← next_hashing_state a' 0
    ok (record a' { state = state' })

  -- A round of the loop, on the account and the state beside it.
  unfoldable pub compute_round :
      CommitmentHashingAccount F U
      → HashingState F
      → ℕ
      → Result ProgramError (CommitmentHashingAccount F U × HashingState F)
  unfolding save_finished_hash next_hashing_state
  compute_round a state round =
      let state' = h.hash_round (round % total_poseidon_rounds) state in
      let hash_index = round / total_poseidon_rounds in
      if round % total_poseidon_rounds == 64
      then (do
        a' ← save_finished_hash a hash_index state'
        count ← hash_count_per_batch a.batching_rate
        (if ltb hash_index (count - 1)
            then (next_hashing_state a' (hash_index + 1) >>= λ next. ok (a', next))
            else ok (a', state')))
      else ok (a, state')

  unfoldable pub compute_rounds :
      ℕ
      → CommitmentHashingAccount F U
      → HashingState F
      → ℕ
      → Result ProgramError (CommitmentHashingAccount F U × HashingState F)
  unfolding compute_round
  compute_rounds zero a state round = ok (a, state)
  compute_rounds (suc count) a state round =
      compute_round a state round >>= λ p. compute_rounds count p.0 p.1 (suc round)

  unfoldable pub compute_commitment_hash_partial :
      CommitmentHashingAccount F U → Result ProgramError (CommitmentHashingAccount F U)
  unfolding compute_rounds commitment_hash_computation_instructions
      commitment_hash_computation_rounds
  compute_commitment_hash_partial a = do
    instructions ← commitment_hash_computation_instructions a.batching_rate
    guard (ltb a.instruction (length instructions)) (from_elusiv computation_is_already_finished)
    rounds ← read instructions a.instruction
    total ← commitment_hash_computation_rounds a.batching_rate
    let end = add_u32 a.round rounds
    guard (leb end total) (from_elusiv computation_is_already_finished)
    p ← compute_rounds (end - a.round) a a.state a.round
    ok (record p.0 { state = p.1; instruction = add_u32 a.instruction 1; round = end })
