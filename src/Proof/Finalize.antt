-- ===== src/Proof/Finalize.antt =====
-- elusiv/src/processor/proof.rs: from the running computation to the insertion of the nullifiers. The current
-- index and the other instructions are the sysvar's; `hash` is the SDK's, `reduce` the Montgomery reduction.
pub mod Inserted
pub mod Send
use elusiv.Base.{
  ltb, leb, ◌==◌, if◌then◌else◌, length, replicate, ◌>>=◌, ◌>>◌, guard, unwrap, from_elusiv,
  ElusivError, inputs_mismatch, invalid_account, invalid_account_state, feature_not_available,
  computation_is_not_yet_finished, computation_is_already_finished, ProgramError, Result, ok, err,
  panic, add_u32, sub_u64, write, ℕ, suc, Bool, true, false, not, ◌&&◌, Option, none, some, List,
  [], ◌∷◌,
}
use elusiv.Buffer.{RingBuffer, find_position}
use elusiv.Storage.{StorageAccount}
use elusiv.Nullifier.{
  NullifierAccount, try_insert_nullifier_hash, move_nullifier_hashes_to_next_account,
  is_moved_nullifier_empty,
}
use elusiv.Proof.{
  InputCommitment, ProofRequest, send, migrate, SendPublicInputs, VerificationAccount,
  VerificationState, initialized, fee_transferred, proof_setup, insert_nullifiers, finalized,
  closed, total_amount, le_bytes,
}
use elusiv.Proof.Preparation.{Curve, InputsKey}
use elusiv.Proof.Verifier.{Verification, Pairing, is_proof_setup}
use elusiv.Proof.Verifier.Steps.{verify_partial}
use elusiv.Proof.Inputs.{generate_hashed_inputs}
use elusiv.Proof.Sysvar.{
  InstructionsSysvar, get_memo_from_instructions, enforce_finalize_send_instructions,
}
use elusiv.Proof.Check.{minimum_commitment_mt_index}

abbrev pub is_invalid_account_state : ElusivError → Bool
is_invalid_account_state invalid_account_state = true
is_invalid_account_state _ = false

abbrev pub can_compute : VerificationState → Bool
can_compute initialized = true
can_compute proof_setup = true
can_compute _ = false

module _ {F A B R T W : Type 0} (c : Curve F A) (p : Pairing F A B R T W) where
  -- The match on the result: an error other than `InvalidAccountState` rejects the proof.
  unfoldable pub conclude :
      Verification F A B R T W × Result ElusivError (Option Bool)
      → Result ProgramError (Verification F A B R T W)
  conclude (s, ok none) = ok s
  conclude (s, ok (some final_result)) = ok (record s { is_verified = some final_result })
  conclude (s, err e) =
      if is_invalid_account_state e
      then err (from_elusiv e)
      else ok (record s { is_verified = some false })
  conclude (s, panic) = panic

  -- `vkey` is what the account of the verifying key loads, if it can.
  unfoldable pub compute_verification :
      ℕ
      → Result ProgramError (InputsKey F A)
      → Result ProgramError ℕ
      → ℕ
      → Verification F A B R T W
      → Result ProgramError (Verification F A B R T W)
  unfolding verify_partial conclude
  compute_verification vkey_version vkey current_index vkey_id s = do
    guard (not (vkey_version == 0)) (from_elusiv invalid_account)
    guard (s.vkey_id == vkey_id) (from_elusiv invalid_account)
    guard (elim s.is_verified [ none ↦ true | some v ↦ false ])
        (from_elusiv computation_is_already_finished)
    guard (can_compute s.state) (from_elusiv invalid_account_state)
    instruction_index ← current_index
    key ← vkey
    conclude (verify_partial c key p instruction_index s)

pub record FinalizeSendData : Type 0 where
  pub total_amount : ℕ
  pub token_id : ℕ
  pub mt_index : ℕ
  pub commitment_index : ℕ
  pub iv : ℕ
  pub encrypted_owner : ℕ

-- What the first instruction of the finalization reads, the accounts by their keys.
pub record FinalizeSend : Type 0 where
  pub program_id : ℕ
  pub spl_memo_program_id : ℕ
  pub recipient : ℕ
  pub identifier : ℕ
  pub transaction_reference : ℕ
  pub instructions_key : ℕ
  pub commitment_queue_count : ℕ
  pub verification_account_index : ℕ
  pub final_data : FinalizeSendData
  pub uses_memo : Bool

abbrev pub requests_send : ProofRequest → Result ProgramError SendPublicInputs
requests_send (send p) = ok p
requests_send (migrate p) = err (from_elusiv feature_not_available)

-- What the sender has estimated.
unfoldable pub check_final_data :
    FinalizeSend → SendPublicInputs → StorageAccount ℕ → Result ProgramError (Unit {0})
unfolding minimum_commitment_mt_index
check_final_data a q storage = do
  (commitment_index, mt_index) ←
      minimum_commitment_mt_index storage.trees_count storage.next_commitment_ptr
        a.commitment_queue_count
  guard (a.final_data.total_amount == total_amount q.join_split) (from_elusiv inputs_mismatch)
  guard (a.final_data.token_id == q.join_split.token_id) (from_elusiv inputs_mismatch)
  guard (leb (a.final_data.commitment_index) commitment_index) (from_elusiv inputs_mismatch)
  guard (a.final_data.mt_index == mt_index) (from_elusiv inputs_mismatch)

module _ (reduce : ℕ → ℕ) (hash : List ℕ → List ℕ) (sysvar : InstructionsSysvar) where
  unfoldable pub verify_hashed_inputs :
      FinalizeSend → SendPublicInputs → Result ProgramError (Unit {0})
  unfolding get_memo_from_instructions generate_hashed_inputs
  verify_hashed_inputs a q = do
    memo ←
        if a.uses_memo
        then (get_memo_from_instructions sysvar a.spl_memo_program_id q.solana_pay_transfer
            >>= λ bytes. ok (some bytes))
        else ok none
    let hashed =
        generate_hashed_inputs hash a.recipient a.identifier (a.final_data.iv)
          (a.final_data.encrypted_owner)
          (if a.transaction_reference == a.instructions_key then 0 else a.transaction_reference)
          q.recipient_is_associated_token_account (q.join_split.metadata)
          (q.join_split.optional_fee) memo
    guard (hashed == q.hashed_inputs) (from_elusiv inputs_mismatch)

  -- The commitment of a rejected proof leaves the buffer.
  unfoldable pub remove_commitment : SendPublicInputs → RingBuffer → Result ProgramError RingBuffer
  unfolding le_bytes
  remove_commitment q buffer = do
    position ← find_position 32 128 buffer (le_bytes 32 (reduce (q.join_split.output_commitment)))
    elim position [
      | none ↦ ok buffer
      | some index ↦ do
        values ← write buffer.values index (replicate 32 0)
        ok (record buffer { values = values })
    ]

  module _ {P C : Type 0} where
    -- For a verified proof.
    unfoldable pub enforce_send :
        FinalizeSend
        → SendPublicInputs
        → StorageAccount ℕ
        → VerificationAccount P C
        → Result ProgramError (VerificationAccount P C)
    unfolding enforce_finalize_send_instructions check_final_data
    enforce_send a q storage s = do
      enforced ← unwrap (
          enforce_finalize_send_instructions sysvar a.program_id (q.join_split.token_id == 0)
            a.verification_account_index)
      enforced
      check_final_data a q storage
      ok (record s { state = insert_nullifiers; instruction = 0 })

    unfoldable pub finalize_verification_send :
        FinalizeSend
        → StorageAccount ℕ
        → RingBuffer
        → VerificationAccount P C
        → Result ProgramError (RingBuffer × VerificationAccount P C)
    unfolding verify_hashed_inputs remove_commitment enforce_send
    finalize_verification_send a storage buffer s = do
      guard (is_proof_setup s.state) (from_elusiv invalid_account_state)
      q ← requests_send s.request
      verify_hashed_inputs a q
      let addressed = record s {
        other_data = record (s.other_data) { recipient_wallet = some a.recipient };
      }
      elim s.is_verified [
        | none ↦ err (from_elusiv computation_is_not_yet_finished)
        | some false ↦ do
          buffer' ← remove_commitment q buffer
          ok (buffer', record addressed { state = finalized })
        | some true ↦ do s' ← enforce_send a q storage addressed; ok (buffer, s')
      ]

abbrev pub is_inserting : VerificationState → Bool
is_inserting insert_nullifiers = true
is_inserting _ = false

-- The tree of an input, and the number of trees behind it.
abbrev pub tree_at : InputCommitment → ℕ → ℕ
tree_at c tree_index = elim c.root [ none ↦ 0 | some r ↦ tree_index ]

abbrev pub trees_seen : InputCommitment → ℕ → ℕ
trees_seen c tree_index = elim c.root [ none ↦ tree_index | some r ↦ suc tree_index ]

-- The loop over the inputs from the index `index` on, the trees before it counted, that inserts the
-- nullifier hash of the input sought.
module _ (reduce : ℕ → ℕ) where
  unfoldable pub insert_input :
      ℕ → ℕ → ℕ → List InputCommitment → NullifierAccount → Result ProgramError NullifierAccount
  unfolding try_insert_nullifier_hash
  insert_input sought index tree_index [] n = ok n
  insert_input sought index tree_index (c ∷ cs) n =
      let tree = tree_at c tree_index in
      let seen = trees_seen c tree_index in
      let rest = insert_input sought (suc index) seen cs n in
      if not (tree == 0)
      then err (from_elusiv feature_not_available)
      else if index == sought
      then try_insert_nullifier_hash n (reduce c.nullifier_hash)
      else rest

  -- The part of the handler that inserts or moves.
  unfoldable pub insert_or_move :
      ℕ → List InputCommitment → NullifierAccount → Result ProgramError NullifierAccount
  unfolding insert_input move_nullifier_hashes_to_next_account
  insert_or_move index inputs n =
      if ltb index (length inputs)
      then insert_input index 0 0 inputs n
      else if not (is_moved_nullifier_empty n)
      then move_nullifier_hashes_to_next_account n
      else ok n

  module _ {P C : Type 0} where
    -- The writes that follow. The subtraction of 1 from no inputs wraps.
    unfoldable pub after_insertion :
        List InputCommitment → NullifierAccount → VerificationAccount P C → VerificationAccount P C
    after_insertion inputs n s =
        let last = leb (sub_u64 (length inputs) 1) s.instruction && is_moved_nullifier_empty n in
        record s {
          instruction =
              if ltb s.instruction (length inputs) then add_u32 s.instruction 1 else s.instruction;
          state = if last then finalized else s.state;
        }

    unfoldable pub finalize_verification_insert_nullifier :
        VerificationAccount P C
        → NullifierAccount
        → Result ProgramError (VerificationAccount P C × NullifierAccount)
    unfolding insert_or_move after_insertion
    finalize_verification_insert_nullifier s n = do
      guard (is_inserting s.state) (from_elusiv invalid_account_state)
      q ← requests_send s.request
      n' ← insert_or_move s.instruction (q.join_split.input_commitments) n
      ok (after_insertion (q.join_split.input_commitments) n' s, n')
