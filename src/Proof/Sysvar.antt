-- ===== src/Proof/Sysvar.antt =====
-- elusiv/src/processor/utils.rs and proof.rs: what the processor demands of the other instructions of its
-- transaction, which the SDK's sysvar reads out.
pub mod Sequence
use elusiv.Base.{
  ◌==◌, if◌then◌else◌, ◌>>=◌, ◌>>◌, guard, unwrap, from_elusiv, invalid_other_instruction,
  ProgramError, incorrect_program_id, Result, ok, err, panic, sub_u64, read, ℕ, zero, suc, ◌+◌, ◌≤◌,
  ◌≡◌, Bool, true, not, ◌||◌, Option, none, some, List, [], ◌∷◌,
}
use elusiv.Bytes.Find.{eq_bytes}

pub record AccountMeta : Type 0 where
  pub pubkey : ℕ
  pub is_signer : Bool
  pub is_writable : Bool

pub record Instruction : Type 0 where
  pub program_id : ℕ
  pub accounts : List AccountMeta
  pub bytes : List ℕ

-- The trait. A transaction has finitely many instructions: from `count` on there is none.
pub record InstructionsSysvar : Type 0 where
  pub current_index : Result ProgramError ℕ
  pub instruction_at_index : ℕ → Result ProgramError Instruction
  pub count : ℕ
  pub past_end : (i : ℕ) → count ≤ i → (e : ProgramError) × (instruction_at_index i ≡ err e)

-- The positions of the variants of `ElusivInstruction`.
abbrev pub finalize_verification_send_index : ℕ
finalize_verification_send_index = 11

abbrev pub finalize_verification_insert_nullifier_index : ℕ
finalize_verification_insert_nullifier_index = 12

abbrev pub finalize_verification_transfer_lamports_index : ℕ
finalize_verification_transfer_lamports_index = 13

abbrev pub finalize_verification_transfer_token_index : ℕ
finalize_verification_transfer_token_index = 14

module _ (sysvar : InstructionsSysvar) where
  -- The loop from the index on, `none` when the fuel runs out.
  unfoldable pub count_from : ℕ → ℕ → Option (Result ProgramError ℕ)
  count_from zero index = none
  count_from (suc fuel) index = elim (sysvar.instruction_at_index index) [
    | ok ix ↦ count_from fuel (index + 1)
    | err e ↦ some (ok index)
    | panic ↦ some panic
  ]

  unfoldable pub find_instruction_count : Result ProgramError ℕ
  unfolding count_from
  find_instruction_count = do
    index ← sysvar.current_index
    found ← unwrap (count_from (sysvar.count + 1) index)
    found

  unfoldable pub verify_finalize_send_instruction : ℕ → ℕ → ℕ → ℕ → Result ProgramError (Unit {0})
  verify_finalize_send_instruction program_id ix_index variant verification_account_index = do
    ix ← sysvar.instruction_at_index ix_index
    guard (ix.program_id == program_id) incorrect_program_id
    first ← read ix.bytes 0
    guard (first == variant) (from_elusiv invalid_other_instruction)
    second ← read ix.bytes 1
    guard (second == verification_account_index) (from_elusiv invalid_other_instruction)

  -- The loop over the insertions, `count` of which have been seen.
  unfoldable pub count_insertions : ℕ → ℕ → ℕ → ℕ → ℕ → Option (Result ProgramError ℕ)
  unfolding verify_finalize_send_instruction
  count_insertions zero program_id current account_index count = none
  count_insertions (suc fuel) program_id current account_index count =
      elim (verify_finalize_send_instruction program_id (current + count + 1)
        finalize_verification_insert_nullifier_index account_index) [
          | ok u ↦ count_insertions fuel program_id current account_index (suc count)
          | err e ↦ some (ok count)
          | panic ↦ some panic
        ]

  -- Behind the current instruction. The fuel is the number of the transaction's instructions, and one more.
  unfoldable pub enforce_from : ℕ → Bool → ℕ → ℕ → Option (Result ProgramError (Unit {0}))
  unfolding count_insertions
  enforce_from program_id uses_lamports account_index current =
      elim (verify_finalize_send_instruction program_id current finalize_verification_send_index
        account_index) [
          | err e ↦ some (err e)
          | panic ↦ some panic
          | ok u ↦ elim (count_insertions (sysvar.count + 1) program_id current account_index 0) [
            | none ↦ none
            | some (err e) ↦ some (err e)
            | some panic ↦ some panic
            | some (ok count) ↦ some (
                verify_finalize_send_instruction program_id (current + count + 1)
                  (if uses_lamports
                    then finalize_verification_transfer_lamports_index
                    else finalize_verification_transfer_token_index)
                  account_index)
          ]
        ]

  unfoldable pub enforce_finalize_send_instructions :
      ℕ → Bool → ℕ → Option (Result ProgramError (Unit {0}))
  unfolding enforce_from
  enforce_finalize_send_instructions program_id uses_lamports account_index =
      elim sysvar.current_index [
        | err e ↦ some (err e)
        | panic ↦ some panic
        | ok current ↦ enforce_from program_id uses_lamports account_index current
      ]

  -- The loop over the expected accounts, from the account `i` on.
  unfoldable pub enforce_accounts :
      Instruction → List AccountMeta → ℕ → Result ProgramError (Unit {0})
  enforce_accounts ix [] i = ok tt
  enforce_accounts ix (a ∷ expected) i = do
    account ← read ix.accounts i
    guard (account.pubkey == a.pubkey) (from_elusiv invalid_other_instruction)
    guard (not a.is_signer || account.is_signer) (from_elusiv invalid_other_instruction)
    guard (not a.is_writable || account.is_writable) (from_elusiv invalid_other_instruction)
    enforce_accounts ix expected (suc i)

  unfoldable pub enforce_instruction : ℕ → Instruction → Bool → Result ProgramError Instruction
  unfolding enforce_accounts
  enforce_instruction index expected ignore_data = do
    ix ← sysvar.instruction_at_index index
    guard (ix.program_id == expected.program_id) incorrect_program_id
    guard (ignore_data || eq_bytes ix.bytes expected.bytes) (from_elusiv invalid_other_instruction)
    enforce_accounts ix expected.accounts 0
    ok ix

  -- `memo_instruction` at no bytes.
  abbrev pub memo_instruction : ℕ → Instruction
  memo_instruction spl_memo_program_id = record {
    program_id = spl_memo_program_id;
    accounts = [];
    bytes = [];
  }

  unfoldable pub get_memo_from_instructions : ℕ → Bool → Result ProgramError (List ℕ)
  unfolding find_instruction_count enforce_instruction
  get_memo_from_instructions spl_memo_program_id solana_pay_transfer = do
    instruction_count ← find_instruction_count
    let memo_index =
        if solana_pay_transfer then sub_u64 instruction_count 2 else sub_u64 instruction_count 1
    ix ← enforce_instruction memo_index (memo_instruction spl_memo_program_id) true
    ok ix.bytes
