-- ===== src/Proof/Payout/Tokens.antt =====
-- finalize_verification_transfer_token of elusiv/src/processor/proof.rs.
use elusiv.Base.{
  ltb, ◌==◌, if◌then◌else◌, ◌>>=◌, ◌>>◌, guard, ok_or, unwrap, map_err, from_elusiv, from_token,
  invalid_amount, invalid_account, invalid_recipient, invalid_account_state, ProgramError, Result,
  ok, err, panic, checked_sub, ℕ, not, Option, none, some, List,
}
use elusiv.Token.{Token, new, add, amount, add_lamports}
use elusiv.Transfers.{
  Ledger, Environment, transfer_token_from_pda, create_associated_token_account,
  verify_associated_token_account, verify_program_token_account, verify_token_account, token_of,
  spl_token_account_rent,
}
use elusiv.Proof.{
  SendPublicInputs, ProofRequest, send, migrate, join_split_inputs, VerificationAccountData,
}
use elusiv.Proof.Sysvar.{InstructionsSysvar}
use elusiv.Proof.Setup.{nullifier_hashes_of}
use elusiv.Proof.Payout.{
  PayoutAccounts, TransferInstructions, Payout, is_finalized, is_rejected, close_verification_pdas,
  pay_lamports, pay_token, enforce_last_transfer, close_state, enqueue_output,
}

module _ {T : Type 0} (env : Environment T) (sysvar : InstructionsSysvar)
    (duplicate_address : List ℕ → ℕ) (instructions : TransferInstructions)
    (accounts : PayoutAccounts) where
  abbrev pay_tokens : ℕ → Token → Ledger T → Result ProgramError (Ledger T)
  pay_tokens = pay_token env sysvar duplicate_address instructions accounts

  abbrev pay_pool_lamports : ℕ → ℕ → Ledger T → Result ProgramError (Ledger T)
  pay_pool_lamports = pay_lamports env sysvar duplicate_address instructions accounts

  -- `Token::new`, which panics where it cannot be.
  abbrev token : ℕ → ℕ → Result ProgramError Token
  token id value = map_err from_token (new id value)

  -- The recipient of a send, with the rent to be taken from the amount. `some 0` is an associated account
  -- that exists, `none` an account of any other kind.
  unfoldable pub actual_recipient :
      ℕ
      → VerificationAccountData
      → SendPublicInputs
      → Ledger T
      → Result ProgramError (Ledger T × ℕ × Option ℕ)
  unfolding verify_token_account verify_associated_token_account token_of
      create_associated_token_account
  actual_recipient recipient_address d q l =
      let token_id = q.join_split.token_id in
      if not q.recipient_is_associated_token_account
      then (do
        guard (accounts.recipient == recipient_address) (from_elusiv invalid_recipient)
        elim (verify_token_account env l accounts.recipient token_id) [
          | ok b ↦ ok (l, (if b then accounts.recipient else accounts.fee_collector_account), none)
          | err e ↦ ok (l, accounts.fee_collector_account, none)
          | panic ↦ panic
        ])
      else (do
        guard (accounts.recipient_wallet == recipient_address) (from_elusiv invalid_recipient)
        valid ←
            verify_associated_token_account env accounts.recipient_wallet accounts.recipient
              token_id
        guard valid (from_elusiv invalid_recipient)
        (if l.lamports accounts.recipient == 0
            then (do
              t ← token_of env token_id
              guard (accounts.mint_account == t.mint) (from_elusiv invalid_account)
              l' ←
                  create_associated_token_account env accounts.original_fee_payer
                    accounts.recipient_wallet accounts.recipient token_id l
              ok (l', accounts.recipient, some d.associated_token_account_rent))
            else ok (l, accounts.recipient, some 0)))

  -- The transfers of a send; the second result is the rent taken from the amount.
  unfoldable pub pay_recipient_tokens :
      ℕ
      → VerificationAccountData
      → SendPublicInputs
      → Ledger T
      → Result ProgramError (Ledger T × Option ℕ)
  unfolding actual_recipient pay_token enforce_last_transfer transfer_token_from_pda amount new
  pay_recipient_tokens recipient_address d q l = do
    let j = q.join_split
    (l1, recipient, rent) ← actual_recipient recipient_address d q l
    let rent_taken = elim rent as (λ _. ℕ) [ none ↦ 0 | some r ↦ r ]
    optional_fee ← token j.token_id (j.optional_fee.amount)
    without_rent ← ok_or (checked_sub j.amount rent_taken) (from_elusiv invalid_amount)
    left ← ok_or (checked_sub without_rent (j.optional_fee.amount)) (from_elusiv invalid_amount)
    paid ← token j.token_id left
    l2 ←
        if q.solana_pay_transfer
        then (do
          l' ← pay_tokens accounts.original_fee_payer_account paid l1
          expected ←
              instructions.of_tokens accounts.token_program accounts.original_fee_payer_account
                recipient accounts.original_fee_payer (amount paid)
          enforce_last_transfer env sysvar duplicate_address instructions accounts expected
          ok l')
        else pay_tokens recipient paid l1
    l3 ←
        if ltb 0 (amount optional_fee)
        then (do
          guard (accounts.optional_fee_collector == j.optional_fee.collector)
              (from_elusiv invalid_account)
          pay_tokens accounts.optional_fee_collector optional_fee l2)
        else ok l2
    ok (l3, rent)

  -- A rejected proof: all flows to the fee collector.
  unfoldable pub collect_tokens :
      ℕ → VerificationAccountData → Ledger T → Result ProgramError (Ledger T)
  unfolding close_verification_pdas pay_token pay_lamports
  collect_tokens token_id d l = do
    l1 ←
        close_verification_pdas accounts.fee_collector accounts.verification_account
          accounts.nullifier_duplicate_account d.skip_nullifier_pda l
    subvention ← token token_id d.subvention
    l2 ← pay_tokens accounts.fee_collector_account subvention l1
    rent ← spl_token_account_rent env
    total ← map_err from_token (add_lamports d.commitment_hash_fee rent)
    pay_pool_lamports accounts.fee_collector total l2

  unfoldable pub pay_request_tokens :
      ℕ
      → VerificationAccountData
      → ProofRequest
      → Ledger T
      → Result ProgramError (Ledger T × Option ℕ)
  unfolding pay_recipient_tokens
  pay_request_tokens recipient_address d (migrate q) l = ok (l, none)
  pay_request_tokens recipient_address d (send q) l =
      if ltb 0 (q.join_split.amount)
      then pay_recipient_tokens recipient_address d q l
      else ok (l, none)

  unfoldable pub pay_tokens_out :
      ℕ → ℕ → VerificationAccountData → ProofRequest → Ledger T → Result ProgramError (Ledger T)
  unfolding pay_request_tokens pay_token pay_lamports close_verification_pdas new add
  pay_tokens_out token_id recipient_address d request l = do
    (l1, rent) ← pay_request_tokens recipient_address d request l
    let rent_taken = elim rent as (λ _. ℕ) [ none ↦ 0 | some r ↦ r ]
    hash_fee ← token token_id d.commitment_hash_fee_token
    verification_fee ← token token_id d.proof_verification_fee
    fees ← map_err from_token (add hash_fee verification_fee)
    rent_token ← token token_id rent_taken
    total ← map_err from_token (add fees rent_token)
    l2 ← pay_tokens accounts.original_fee_payer_account total l1
    network_fee ← token token_id d.network_fee
    l3 ← pay_tokens accounts.fee_collector_account network_fee l2
    l4 ←
        close_verification_pdas accounts.original_fee_payer accounts.verification_account
          accounts.nullifier_duplicate_account d.skip_nullifier_pda l3
    elim rent [
      | none ↦ ok l4
      | some r ↦ do
        lamports ← spl_token_account_rent env
        pay_pool_lamports accounts.original_fee_payer lamports l4
    ]

  module _ {F P C : Type 0} (reduce : ℕ → ℕ) where
    unfoldable pub finalize_verification_transfer_token :
        Payout T F P C → Result ProgramError (Payout T F P C)
    unfolding verify_program_token_account collect_tokens pay_tokens_out enqueue_output
    finalize_verification_transfer_token s = do
      let d = s.verification.other_data
      let request = s.verification.request
      let token_id = (join_split_inputs request).token_id
      recipient_address ← unwrap d.recipient_wallet
      guard (ltb 0 token_id) (from_elusiv invalid_account_state)
      guard (is_finalized s.verification.state) (from_elusiv invalid_account_state)
      guard (accounts.original_fee_payer == d.fee_payer) (from_elusiv invalid_account)
      guard (accounts.original_fee_payer_account == d.fee_payer_account)
          (from_elusiv invalid_account)
      guard
          (accounts.nullifier_duplicate_account == duplicate_address (nullifier_hashes_of request))
          (from_elusiv invalid_account)
      verify_program_token_account env accounts.pool accounts.pool_account token_id
      verify_program_token_account env accounts.fee_collector accounts.fee_collector_account
          token_id
      (if is_rejected s.verification.is_verified
          then (collect_tokens token_id d s.ledger >>= λ l.
              ok (close_state env sysvar duplicate_address instructions accounts reduce l s))
          else (pay_tokens_out token_id recipient_address d request s.ledger >>= λ l.
              enqueue_output env sysvar duplicate_address instructions accounts reduce l s))
