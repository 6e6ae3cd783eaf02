-- ===== src/Proof/Payout.antt =====
-- elusiv/src/processor/proof.rs: the last instruction of a verification pays the recipient, the fee payer and
-- the fee collector out of the pool, closes the accounts and enqueues the commitment. The accounts are their
-- keys; `TransferInstructions` is what the SDKs' constructors of a transfer return.
pub mod Tokens
pub mod Pool
pub mod Solvency
mod Tests
use elusiv.Base.{
  ltb, ◌==◌, if◌then◌else◌, ◌>>=◌, ◌>>◌, guard, ok_or, unwrap, map_err, from_elusiv, from_token,
  invalid_amount, invalid_account, invalid_recipient, invalid_account_state, ProgramError, Result,
  ok, sub_u64, checked_sub, ℕ, Bool, true, false, Option, none, some, List,
}
use elusiv.Token.{Token, lamports_token, new, add, amount, add_lamports}
use elusiv.Transfers.{
  Ledger, Environment, close_account, transfer_lamports_from_pda_checked, transfer_token_from_pda,
  create_associated_token_account, verify_associated_token_account, verify_program_token_account,
  verify_token_account, token_of, spl_token_account_rent,
}
use elusiv.Commitment.Processor.{BatchAccounts, enqueue_commitment}
use elusiv.Proof.{
  JoinSplitPublicInputs, SendPublicInputs, ProofRequest, send, migrate, join_split_inputs,
  VerificationAccount, VerificationAccountData, VerificationState, finalized, closed,
}
use elusiv.Proof.Sysvar.{
  Instruction, InstructionsSysvar, find_instruction_count, enforce_instruction,
}
use elusiv.Proof.Setup.{nullifier_hashes_of}

-- The keys of the accounts of the two instructions; those of tokens are not read for lamports.
pub record PayoutAccounts : Type 0 where
  pub original_fee_payer : ℕ
  pub original_fee_payer_account : ℕ
  pub recipient : ℕ
  pub recipient_wallet : ℕ
  pub pool : ℕ
  pub pool_account : ℕ
  pub fee_collector : ℕ
  pub fee_collector_account : ℕ
  pub optional_fee_collector : ℕ
  pub verification_account : ℕ
  pub nullifier_duplicate_account : ℕ
  pub token_program : ℕ
  pub mint_account : ℕ

-- From the source to the destination; of tokens, by a program and with an authority.
pub record TransferInstructions : Type 0 where
  pub of_lamports : ℕ → ℕ → ℕ → Instruction
  pub of_tokens : ℕ → ℕ → ℕ → ℕ → ℕ → Result ProgramError Instruction

-- The state that the instruction updates.
pub record Payout (T F P C : Type 0) : Type 0 where
  pub ledger : Ledger T
  pub verification : VerificationAccount P C
  pub queues : BatchAccounts F ℕ (List ℕ)

abbrev pub is_finalized : VerificationState → Bool
is_finalized finalized = true
is_finalized _ = false

abbrev pub is_rejected : Option Bool → Bool
is_rejected (some false) = true
is_rejected (some true) = false
is_rejected none = false

module _ {T : Type 0} where
  unfoldable pub close_verification_pdas :
      ℕ → ℕ → ℕ → Bool → Ledger T → Result ProgramError (Ledger T)
  unfolding close_account
  close_verification_pdas beneficiary verification_account nullifier_duplicate_account
        skipped_nullifier_pda l =
      do
        l1 ← close_account beneficiary verification_account l
        (if skipped_nullifier_pda
            then ok l1
            else close_account beneficiary nullifier_duplicate_account l1)

module _ {T : Type 0} (env : Environment T) (sysvar : InstructionsSysvar)
    (duplicate_address : List ℕ → ℕ) (instructions : TransferInstructions)
    (accounts : PayoutAccounts) where
  abbrev pub pay_lamports : ℕ → ℕ → Ledger T → Result ProgramError (Ledger T)
  pay_lamports recipient lamports l =
      transfer_lamports_from_pda_checked env accounts.pool recipient lamports l

  abbrev pub pay_token : ℕ → Token → Ledger T → Result ProgramError (Ledger T)
  pay_token recipient token l =
      transfer_token_from_pda env accounts.pool accounts.pool_account recipient
        accounts.token_program token l

  -- The last instruction of the transaction is the fee payer's transfer.
  unfoldable pub enforce_last_transfer : Instruction → Result ProgramError (Unit {0})
  unfolding find_instruction_count enforce_instruction
  enforce_last_transfer expected = do
    count ← find_instruction_count sysvar
    ix ← enforce_instruction sysvar (sub_u64 count 1) expected false
    ok tt

  -- The amount, of which `left` is without the optional fee.
  unfoldable pub pay_amount : SendPublicInputs → ℕ → Ledger T → Result ProgramError (Ledger T)
  unfolding enforce_last_transfer transfer_lamports_from_pda_checked
  pay_amount q left l =
      if q.solana_pay_transfer
      then (do
        l' ← pay_lamports accounts.original_fee_payer (q.join_split.amount) l
        enforce_last_transfer
            (instructions.of_lamports accounts.original_fee_payer accounts.recipient left)
        ok l')
      else pay_lamports accounts.recipient left l

  unfoldable pub pay_optional_fee : SendPublicInputs → Ledger T → Result ProgramError (Ledger T)
  pay_optional_fee q l =
      let fee = q.join_split.optional_fee in
      if ltb 0 fee.amount
      then (do
        guard (accounts.optional_fee_collector == fee.collector) (from_elusiv invalid_account)
        pay_lamports accounts.optional_fee_collector fee.amount l)
      else ok l

  -- What a send of lamports pays to the recipient and for the optional fee.
  unfoldable pub pay_recipient_lamports :
      VerificationAccountData → SendPublicInputs → Ledger T → Result ProgramError (Ledger T)
  unfolding pay_amount pay_optional_fee
  pay_recipient_lamports d q l = do
    let j = q.join_split
    wallet ← unwrap d.recipient_wallet
    guard (accounts.recipient == wallet) (from_elusiv invalid_recipient)
    left ← ok_or (checked_sub j.amount (j.optional_fee.amount)) (from_elusiv invalid_amount)
    l1 ← pay_amount q left l
    pay_optional_fee q l1

  -- `rent and fees` of a rejected proof, in lamports.
  unfoldable pub collect_lamports :
      VerificationAccountData → Ledger T → Result ProgramError (Ledger T)
  unfolding close_account
  collect_lamports d l = do
    l1 ← close_account accounts.fee_collector accounts.verification_account l
    l2 ←
        if d.skip_nullifier_pda
        then ok l1
        else close_account accounts.fee_collector accounts.nullifier_duplicate_account l1
    l3 ← pay_lamports accounts.fee_collector d.subvention l2
    pay_lamports accounts.fee_collector d.commitment_hash_fee l3

  -- The transfers of a send, none for other requests or for no amount.
  unfoldable pub pay_request_lamports :
      VerificationAccountData → ProofRequest → Ledger T → Result ProgramError (Ledger T)
  unfolding pay_recipient_lamports
  pay_request_lamports d (migrate q) l = ok l
  pay_request_lamports d (send q) l =
      if ltb 0 (q.join_split.amount) then pay_recipient_lamports d q l else ok l

  unfoldable pub pay_lamports_out :
      VerificationAccountData → ProofRequest → Ledger T → Result ProgramError (Ledger T)
  unfolding pay_request_lamports close_verification_pdas
  pay_lamports_out d request l = do
    l1 ← pay_request_lamports d request l
    fees ← map_err from_token (add_lamports d.commitment_hash_fee_token d.proof_verification_fee)
    l2 ← pay_lamports accounts.original_fee_payer fees l1
    l3 ← pay_lamports accounts.fee_collector d.network_fee l2
    close_verification_pdas accounts.original_fee_payer accounts.verification_account
        accounts.nullifier_duplicate_account d.skip_nullifier_pda l3

  module _ {F P C : Type 0} (reduce : ℕ → ℕ) where
    abbrev pub close_state : Ledger T → Payout T F P C → Payout T F P C
    close_state l s = record s {
      ledger = l;
      verification = record (s.verification) { state = closed };
    }

    -- The end of a verified request: its commitment is enqueued.
    unfoldable pub enqueue_output : Ledger T → Payout T F P C → Result ProgramError (Payout T F P C)
    unfolding enqueue_commitment
    enqueue_output l s =
        let j = join_split_inputs s.verification.request in
        let queued =
          enqueue_commitment (reduce j.output_commitment) j.metadata j.fee_version
            (s.verification.other_data.min_batching_rate) s.queues in
        queued.1 >>= λ _. ok (record (close_state l s) { queues = queued.0 })

    unfoldable pub finalize_verification_transfer_lamports :
        Payout T F P C → Result ProgramError (Payout T F P C)
    unfolding collect_lamports pay_lamports_out enqueue_output
    finalize_verification_transfer_lamports s = do
      let d = s.verification.other_data
      let request = s.verification.request
      let j = join_split_inputs request
      guard (j.token_id == 0) (from_elusiv invalid_account_state)
      guard (is_finalized s.verification.state) (from_elusiv invalid_account_state)
      guard (accounts.original_fee_payer == d.fee_payer) (from_elusiv invalid_account)
      guard
          (accounts.nullifier_duplicate_account == duplicate_address (nullifier_hashes_of request))
          (from_elusiv invalid_account)
      (if is_rejected s.verification.is_verified
          then (collect_lamports d s.ledger >>= λ l. ok (close_state l s))
          else (pay_lamports_out d request s.ledger >>= λ l. enqueue_output l s))
