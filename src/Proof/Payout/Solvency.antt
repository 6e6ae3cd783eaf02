-- ===== src/Proof/Payout/Solvency.antt =====
-- The pool and the last instruction of a verification of lamports.
use elusiv.Base.{
  ◌==◌, if◌then◌else◌, Bool-cases, ◌>>=◌, guard, from_elusiv, >>=-eq-ok, guard-eq-ok, ok_injective,
  invalid_account, invalid_account_state, ProgramError, Result, ok, ℕ, ◌+◌, ◌≡◌, refl, subst, inl,
  inr, true, List,
}
use elusiv.Transfers.{Ledger, Environment}
use elusiv.Transfers.Drawn.{IsDrawn}
use elusiv.Proof.{
  join_split_inputs, VerificationAccount, VerificationState, initialized, fee_transferred,
  proof_setup, insert_nullifiers, finalized, closed,
}
use elusiv.Commitment.Processor.{enqueue_commitment}
use elusiv.Proof.Sysvar.{InstructionsSysvar}
use elusiv.Proof.Setup.{nullifier_hashes_of}
use elusiv.Proof.Payout.{
  PayoutAccounts, TransferInstructions, Payout, is_finalized, is_rejected, collect_lamports,
  pay_lamports_out, close_state, enqueue_output, finalize_verification_transfer_lamports,
}
use elusiv.Proof.Payout.Pool.{
  IsApart, sent, fees_of, pay_lamports_out-IsDrawn, collect_lamports-IsDrawn,
}

finalized_of : (v : VerificationState) → is_finalized v ≡ true → v ≡ finalized
finalized_of finalized h = refl
finalized_of initialized h = cc
finalized_of fee_transferred h = cc
finalized_of proof_setup h = cc
finalized_of insert_nullifiers h = cc
finalized_of closed h = cc

-- What the instruction draws.
abbrev pub due : {P C : Type 0} → VerificationAccount P C → ℕ
due v =
    let d = v.other_data in
    if is_rejected v.is_verified
    then d.subvention + d.commitment_hash_fee
    else sent v.request + fees_of d

module _ {T F P C : Type 0} (env : Environment T) (sysvar : InstructionsSysvar)
    (duplicate_address : List ℕ → ℕ) (instructions : TransferInstructions)
    (accounts : PayoutAccounts) (reduce : ℕ → ℕ) where
  abbrev finalize : Payout T F P C → Result ProgramError (Payout T F P C)
  finalize =
      finalize_verification_transfer_lamports env sysvar duplicate_address instructions accounts
        reduce

  -- The handler has passed its guards; what is left is the branch of the proof.
  pub branch_passed :
      (s s' : Payout T F P C)
      → finalize s ≡ ok s'
      → (s.verification.state ≡ finalized)
        × ((if is_rejected s.verification.is_verified
              then (collect_lamports env sysvar duplicate_address instructions accounts
                    (s.verification.other_data)
                    s.ledger
                  >>= λ l.
                      ok
                        (close_state env sysvar duplicate_address instructions accounts reduce l s))
              else (pay_lamports_out env sysvar duplicate_address instructions accounts
                    (s.verification.other_data)
                    (s.verification.request)
                    s.ledger
                  >>= λ l.
                      enqueue_output env sysvar duplicate_address instructions accounts reduce l s))
            ≡ ok s')
  unfolding finalize_verification_transfer_lamports
  branch_passed s s' h =
      let d = s.verification.other_data in
      let request = s.verification.request in
      let (u, _, h) =
        >>=-eq-ok
          (guard ((join_split_inputs request).token_id == 0) (from_elusiv invalid_account_state)) _
          h in
      let (u, p, h) =
        >>=-eq-ok (guard (is_finalized s.verification.state) (from_elusiv invalid_account_state)) _
          h in
      let (u, _, h) =
        >>=-eq-ok (guard (accounts.original_fee_payer == d.fee_payer) (from_elusiv invalid_account))
          _ h in
      let (u, _, h) =
        >>=-eq-ok
          (guard
            (accounts.nullifier_duplicate_account
              == duplicate_address (nullifier_hashes_of request))
            (from_elusiv invalid_account))
          _ h in
      (
        finalized_of (s.verification.state)
            (guard-eq-ok (is_finalized s.verification.state) (from_elusiv invalid_account_state) p),
        h,
      )

  enqueue_ledger :
      (l : Ledger T) (s s' : Payout T F P C)
      → enqueue_output env sysvar duplicate_address instructions accounts reduce l s ≡ ok s'
      → (s'.ledger ≡ l) × (s'.verification.state ≡ closed)
  unfolding enqueue_output
  enqueue_ledger l s s' h =
      let j = join_split_inputs s.verification.request in
      let (u, _, h) =
        >>=-eq-ok
          (enqueue_commitment (reduce j.output_commitment) j.metadata j.fee_version
            (s.verification.other_data.min_batching_rate) s.queues).1
          _ h in
      subst (λ x. (x.ledger ≡ l) × (x.verification.state ≡ closed)) (ok_injective h) (refl, refl)

  -- Of the finalization of a verification of lamports that returns, with a pool that is none of the other accounts:
  -- the pool has paid, for a rejected proof, the subvention and the hashing fee; for any other proof, the
  -- amount sent, the hashing fee, the verification fee and the network fee. With `solana_pay_transfer` the
  -- amount sent is the amount and the optional fee, else it is the amount.
  pub finalize_verification_transfer_lamports-IsDrawn :
      (s s' : Payout T F P C)
      → IsApart accounts
      → finalize_verification_transfer_lamports env sysvar duplicate_address instructions accounts
          reduce s
        ≡ ok s'
      → IsDrawn (accounts.pool) s.ledger s'.ledger (due s.verification)
  unfolding collect_lamports
  finalize_verification_transfer_lamports-IsDrawn s s' apart h =
      let (_, h) = branch_passed s s' h in
      let d = s.verification.other_data in
      elim (Bool-cases (is_rejected s.verification.is_verified)) [
        | inl p ↦
            let (l, e, h) =
              >>=-eq-ok
                (collect_lamports env sysvar duplicate_address instructions accounts d s.ledger) _
                (rw p at h) in
            let drawn =
              collect_lamports-IsDrawn env sysvar duplicate_address instructions accounts apart d
                s.ledger l e in
            rw p (
              subst
                (λ x.
                  IsDrawn (accounts.pool) s.ledger x.ledger (d.subvention + d.commitment_hash_fee))
                (ok_injective h) drawn)
        | inr p ↦
            let (l, e, h) =
              >>=-eq-ok
                (pay_lamports_out env sysvar duplicate_address instructions accounts d
                  (s.verification.request) s.ledger)
                _ (rw p at h) in
            let drawn =
              pay_lamports_out-IsDrawn env sysvar duplicate_address instructions accounts apart d
                (s.verification.request) s.ledger l e in
            let (same, _) = enqueue_ledger l s s' h in rw (p, same) drawn
      ]
