-- ===== src/Proof/Tests.antt =====
-- A send with one input, from the checks of its inputs to the insertion of its nullifier.
use elusiv.Base.{
  get_elem?, replicate, ProgramError, Result, ok, ℕ, ◌≡◌, refl, ◌≢◌, ◌⊎◌, true, false, some, [],
  ◌∷◌, arith,
}
use elusiv.Map.{get_ptr, compute_mid, is_empty}
use elusiv.Map.Search.{is_full, binary_search, contains}
use elusiv.Map.Insert.{
  set_entry, link_ptrs, link_new, pointer_of, update_mid_ptr, update_mid_ptrs_from, update_mid_ptrs,
  place_entry, insert_not_full, insert_at, insert_found, try_insert,
}
use elusiv.Nullifier.{
  child_map, moved_from, get_all_moved_values, find_from, find_child_account_index, is_moved,
  swap_smaller, insert_into, keep_moved, try_insert_nullifier_hash, can_insert_nullifier_hash,
}
use elusiv.Storage.{StorageAccount, is_root_valid, get_root, get_node, use_default_value, any_root}
use elusiv.Buffer.{RingBuffer}
use elusiv.Commitment.Processor.{verify_recent_commitment_index}
use elusiv.Proof.{InputCommitment, le_bytes, proof_setup, insert_nullifiers, finalized}
use elusiv.Proof.Sysvar.{
  verify_finalize_send_instruction, count_insertions, enforce_from,
  enforce_finalize_send_instructions,
}
use elusiv.Proof.Sysvar.Sequence.{IsSequence, enforce_finalize_send_instructions-IsSequence}
use elusiv.Proof.Inputs.{generate_hashed_inputs, from_le_bytes}
use elusiv.Proof.Check.{
  minimum_commitment_mt_index, is_vec_duplicate_free, check_duplicates, check_root, check_roots,
  check_nullifiers, check_join_split_public_inputs,
}
use elusiv.Proof.Check.Different.{trees_of, IsNew, check_join_split_public_inputs_lem}
use elusiv.Proof.Finalize.{
  FinalizeSend, check_final_data, verify_hashed_inputs, enforce_send, finalize_verification_send,
  insert_input, insert_or_move, after_insertion, finalize_verification_insert_nullifier,
}
use elusiv.Proof.Finalize.Inserted.{no_call, next_call, IsSendInserting, run-IsSendInserting}
use elusiv.Proof.Finalize.Send.{IsRejected, IsAccepted, finalize_verification_send_lem}
use elusiv.Proof.Machine.{finalize, insert, no_step, next_step, IsJudged}
use elusiv.Proof.Machine.Judged.{Reachable-IsJudged}
use elusiv.Proof.Samples.{
  environment, curve, pairing, one_input, sent_inputs, Sample, verification, nullifiers,
  nullifiers_after, finalization,
}

enforce_finalize_send_instructions-IsSequence_example :
    (r : Result ProgramError (Unit {0})) × (enforce_finalize_send_instructions finalization 7 true 0
      ≡ some r)
    × (r ≡ ok tt
        → (current : ℕ) × (finalization.current_index ≡ ok current)
          × IsSequence finalization 7 0 current true)
enforce_finalize_send_instructions-IsSequence_example =
    enforce_finalize_send_instructions-IsSequence finalization 7 0 true

accepted_test : enforce_finalize_send_instructions finalization 7 true 0 ≡ some (ok tt)
unfolding enforce_finalize_send_instructions enforce_from count_insertions
    verify_finalize_send_instruction
accepted_test = refl

abbrev storage : StorageAccount ℕ
storage = record {
  children = [];
  next_commitment_ptr = 0;
  trees_count = 0;
  archived_count = 0;
  active_mt_root_history = [];
  mt_roots_count = 0;
}

check_test :
    check_join_split_public_inputs
      (λ x. x)
      0
      (replicate 21 9)
      one_input
      storage
      (nullifiers ∷ [])
      (0 ∷ 1 ∷ [])
    ≡ ok tt
unfolding check_join_split_public_inputs verify_recent_commitment_index check_roots check_root
    is_root_valid get_root get_node use_default_value any_root is_vec_duplicate_free
    check_nullifiers check_duplicates can_insert_nullifier_hash find_child_account_index find_from
    get_all_moved_values moved_from is_moved child_map contains binary_search is_empty get_ptr
check_test = refl

first_tree : get_elem? (trees_of 0 one_input.input_commitments) 0 ≡ some 0
unfolding trees_of
first_tree = refl

check_join_split_public_inputs_lem_example :
    IsNew
      (λ x. x)
      0
      (replicate 21 9)
      (nullifiers ∷ [])
      (record { root = some 9; nullifier_hash = 5 })
      0
    × ((k : ℕ) (d : InputCommitment)
        → 0 ≢ k
        → get_elem? (one_input.input_commitments) k ≡ some d
        → get_elem? (trees_of 0 one_input.input_commitments) k ≡ some 0
        → 5 ≢ d.nullifier_hash)
check_join_split_public_inputs_lem_example =
    check_join_split_public_inputs_lem (λ x. x) 0 (replicate 21 9) one_input storage
      (nullifiers ∷ []) (0 ∷ 1 ∷ []) check_test 0 (record { root = some 9; nullifier_hash = 5 }) 0
      refl first_tree

abbrev verified : Sample
verified = record verification { state = proof_setup; is_verified = some true }

abbrev send_accounts : FinalizeSend
send_accounts = record {
  program_id = 7;
  spl_memo_program_id = 0;
  recipient = 2;
  identifier = 0;
  transaction_reference = 0;
  instructions_key = 0;
  commitment_queue_count = 0;
  verification_account_index = 0;
  final_data = record {
    total_amount = 130;
    token_id = 0;
    mt_index = 0;
    commitment_index = 0;
    iv = 0;
    encrypted_owner = 0;
  };
  uses_memo = false;
}

abbrev inserting : Sample
inserting = record verified {
  state = insert_nullifiers;
  other_data = record (verified.other_data) { recipient_wallet = some 2 };
}

abbrev buffer : RingBuffer
buffer = record { values = []; count = 0; pointer = 0 }

send_test :
    finalize_verification_send
      (λ x. x)
      (λ bytes. [])
      finalization
      send_accounts
      storage
      buffer
      verified
    ≡ ok (buffer, inserting)
unfolding finalize_verification_send verify_hashed_inputs generate_hashed_inputs from_le_bytes
    le_bytes enforce_send check_final_data minimum_commitment_mt_index
    enforce_finalize_send_instructions enforce_from count_insertions
    verify_finalize_send_instruction
send_test = refl

finalize_verification_send_lem_example :
    IsRejected (λ x. x) (λ bytes. []) finalization verified inserting
    ⊎ IsAccepted (λ x. x) (λ bytes. []) finalization send_accounts sent_inputs verified inserting
finalize_verification_send_lem_example =
    finalize_verification_send_lem (λ x. x) (λ bytes. []) finalization send_accounts sent_inputs
      storage buffer buffer verified inserting refl send_test

abbrev inserted : Sample
inserted = record inserting { state = finalized; instruction = 1 }

insert_test :
    finalize_verification_insert_nullifier (λ x. x) inserting nullifiers
    ≡ ok (inserted, nullifiers_after)
unfolding finalize_verification_insert_nullifier insert_or_move insert_input after_insertion
    try_insert_nullifier_hash find_child_account_index find_from get_all_moved_values moved_from
    is_moved swap_smaller child_map insert_into keep_moved try_insert insert_found insert_at
    insert_not_full pointer_of place_entry set_entry link_new link_ptrs update_mid_ptrs
    update_mid_ptrs_from update_mid_ptr binary_search get_ptr compute_mid is_empty is_full
insert_test = refl

run-IsSendInserting_example :
    IsSendInserting (λ x. x) sent_inputs nullifiers inserted nullifiers_after
run-IsSendInserting_example =
    run-IsSendInserting (λ x. x) sent_inputs inserting inserted nullifiers nullifiers_after
      (omega arith) (omega arith) refl refl refl
      (next_call inserting inserting inserted nullifiers nullifiers nullifiers_after
        (no_call inserting nullifiers) insert_test)

Reachable-IsJudged_example : IsJudged environment curve pairing (λ x. x) (λ bytes. []) inserted
Reachable-IsJudged_example =
    Reachable-IsJudged environment curve pairing (λ x. x) (λ bytes. []) verified inserted (λ e. cc)
      (λ e. cc)
      (next_step verified inserting inserted
        (next_step verified verified inserting (no_step verified)
          (finalize verified inserting finalization send_accounts storage buffer buffer send_test))
        (insert inserting inserted nullifiers nullifiers_after insert_test))
