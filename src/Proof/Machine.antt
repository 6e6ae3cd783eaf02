-- ===== src/Proof/Machine.antt =====
-- The handlers of elusiv/src/processor/proof.rs as the steps of one verification, up to its payment.
pub mod Judged
use elusiv.Base.{ProgramError, Result, ok, ℕ, ◌≡◌, ◌≢◌, true, none, some, List}
use elusiv.Buffer.{RingBuffer}
use elusiv.Storage.{StorageAccount}
use elusiv.Nullifier.{NullifierAccount}
use elusiv.Fee.{GovernorAccount}
use elusiv.Transfers.{Ledger, Environment}
use elusiv.Proof.{
  ProofRequest, send, migrate, SendPublicInputs, VerificationAccount, VerificationState,
  initialized, fee_transferred, proof_setup, insert_nullifiers, finalized, closed,
}
use elusiv.Proof.Preparation.{Curve, InputsKey}
use elusiv.Proof.Verifier.{Verification, Pairing, GrothProof, is_proof_setup}
use elusiv.Proof.Verifier.Steps.{verify_partial}
use elusiv.Proof.Verifier.State.{verify_partial_state}
use elusiv.Proof.Sysvar.{InstructionsSysvar}
use elusiv.Proof.Setup.{init_verification_proof}
use elusiv.Proof.Fees.{FeeAccounts, init_verification_transfer_fee}
use elusiv.Proof.Fees.Covered.{charged}
use elusiv.Proof.Finalize.{
  FinalizeSend, conclude, can_compute, compute_verification, requests_send,
  finalize_verification_send, is_inserting, after_insertion, insert_or_move,
  finalize_verification_insert_nullifier,
}
use elusiv.Proof.Finalize.Send.{IsRejected, IsAccepted, finalize_verification_send_lem}

module _ {L F A B R T W : Type 0} (env : Environment L) (c : Curve F A) (p : Pairing F A B R T W)
    (reduce : ℕ → ℕ) (hash : List ℕ → List ℕ) where
  -- The instructions may come in any order, and each with its own arguments.
  pub data Step : Verification F A B R T W → Verification F A B R T W → Type 0 where
    charge :
        (s s' : Verification F A B R T W) (a : FeeAccounts) (governor : GovernorAccount)
        (l l' : Ledger L)
        → init_verification_transfer_fee env a governor s l ≡ ok (s', l')
        → Step s s'
    prove :
        (s s' : Verification F A B R T W) (fee_payer : ℕ) (proof : GrothProof A B)
        → init_verification_proof fee_payer proof s ≡ ok s'
        → Step s s'
    compute :
        (s s' : Verification F A B R T W) (vkey_version : ℕ)
        (vkey : Result ProgramError (InputsKey F A)) (current : Result ProgramError ℕ) (vkey_id : ℕ)
        → compute_verification c p vkey_version vkey current vkey_id s ≡ ok s'
        → Step s s'
    finalize :
        (s s' : Verification F A B R T W) (sysvar : InstructionsSysvar) (a : FinalizeSend)
        (storage : StorageAccount ℕ) (buffer buffer' : RingBuffer)
        → finalize_verification_send reduce hash sysvar a storage buffer s ≡ ok (buffer', s')
        → Step s s'
    insert :
        (s s' : Verification F A B R T W) (n n' : NullifierAccount)
        → finalize_verification_insert_nullifier reduce s n ≡ ok (s', n')
        → Step s s'

  pub data Reachable : Verification F A B R T W → Verification F A B R T W → Type 0 where
    no_step : (s : Verification F A B R T W) → Reachable s s
    next_step : (s m s' : Verification F A B R T W) → Reachable s m → Step m s' → Reachable s s'

  -- Nullifiers are inserted for an accepted proof, and nothing is finalized without a verdict.
  pub record IsJudged (s : Verification F A B R T W) : Type 0 where
    pub inserts : s.state ≡ insert_nullifiers → s.is_verified ≡ some true
    pub ends : s.state ≡ finalized → s.is_verified ≢ none
