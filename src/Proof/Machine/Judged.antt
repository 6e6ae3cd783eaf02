-- ===== src/Proof/Machine/Judged.antt =====
-- Every order of the handlers keeps the verdict of a verification.
use elusiv.Base.{
  ◌==◌, Bool-cases, guard, from_elusiv, >>=-eq-ok, guard-eq-ok, ok_injective, ElusivError,
  invalid_account, invalid_account_state, computation_is_already_finished, ProgramError, Result, ok,
  err, panic, ℕ, ◌≡◌, refl, sym, ◌∙◌, subst, ◌≢◌, inl, inr, Bool, true, false, not, Option, none,
  some, List,
}
use elusiv.Buffer.{RingBuffer}
use elusiv.Storage.{StorageAccount}
use elusiv.Nullifier.{NullifierAccount}
use elusiv.Transfers.{Environment}
use elusiv.Proof.{
  ProofRequest, send, migrate, SendPublicInputs, VerificationAccount, VerificationState,
  fee_transferred, proof_setup, insert_nullifiers, finalized,
}
use elusiv.Proof.Preparation.{Curve, InputsKey}
use elusiv.Proof.Verifier.{Verification, Pairing, is_proof_setup}
use elusiv.Proof.Verifier.Steps.{verify_partial}
use elusiv.Proof.Verifier.State.{verify_partial_state}
use elusiv.Proof.Sysvar.{InstructionsSysvar}
use elusiv.Proof.Setup.{init_verification_proof}
use elusiv.Proof.Fees.Covered.{charged}
use elusiv.Proof.Finalize.{
  FinalizeSend, is_invalid_account_state, conclude, can_compute, compute_verification,
  requests_send, finalize_verification_send, is_inserting, after_insertion, insert_or_move,
  finalize_verification_insert_nullifier,
}
use elusiv.Proof.Finalize.Inserted.{inserting_of}
use elusiv.Proof.Finalize.Send.{finalize_verification_send_lem}
use elusiv.Proof.Machine.{
  Step, charge, prove, compute, finalize, insert, Reachable, no_step, next_step, IsJudged,
}

request_of : (r : ProofRequest) (q : SendPublicInputs) → requests_send r ≡ ok q → r ≡ send q
request_of (send p) q h = cc
request_of (migrate p) q h = cc

computing_inserts : (v : VerificationState) → can_compute v ≡ true → v ≢ insert_nullifiers
computing_inserts v h e = let f : can_compute v ≡ false = rw e refl in cc

computing_ends : (v : VerificationState) → can_compute v ≡ true → v ≢ finalized
computing_ends v h e = let f : can_compute v ≡ false = rw e refl in cc

module _ {F A B R T W : Type 0} (c : Curve F A) (p : Pairing F A B R T W) where
  conclude_state :
      (out : Verification F A B R T W × Result ElusivError (Option Bool))
      (s' : Verification F A B R T W)
      → conclude c p out ≡ ok s'
      → s'.state ≡ out.0.state
  unfolding conclude
  conclude_state (s, ok none) s' h = subst (λ x. x.state ≡ s.state) (ok_injective h) refl
  conclude_state (s, ok (some v)) s' h = subst (λ x. x.state ≡ s.state) (ok_injective h) refl
  conclude_state (s, panic) s' h = absurd (cc)
  conclude_state (s, err e) s' h = elim (Bool-cases (is_invalid_account_state e)) [
    | inl x ↦ absurd (let h = rw x at h in cc)
    | inr x ↦ subst (λ y. y.state ≡ s.state) (ok_injective (rw x at h)) refl
  ]

  compute_state :
      (vkey_version : ℕ) (vkey : Result ProgramError (InputsKey F A))
      (current : Result ProgramError ℕ) (vkey_id : ℕ) (s s' : Verification F A B R T W)
      → compute_verification c p vkey_version vkey current vkey_id s ≡ ok s'
      → (can_compute s.state ≡ true) × (s'.state ≡ s.state)
  unfolding compute_verification
  compute_state vkey_version vkey current vkey_id s s' h =
      let invalid = from_elusiv invalid_account in
      let (u, _, h) = >>=-eq-ok (guard (not (vkey_version == 0)) invalid) _ h in
      let (u, _, h) = >>=-eq-ok (guard (s.vkey_id == vkey_id) invalid) _ h in
      let (u, _, h) =
        >>=-eq-ok
          (guard (elim s.is_verified [ none ↦ true | some v ↦ false ])
            (from_elusiv computation_is_already_finished))
          _ h in
      let (u, g, h) =
        >>=-eq-ok (guard (can_compute s.state) (from_elusiv invalid_account_state)) _ h in
      let (index, _, h) = >>=-eq-ok current _ h in
      let (key, _, h) = >>=-eq-ok vkey _ h in
      (
        guard-eq-ok (can_compute s.state) (from_elusiv invalid_account_state) g,
        conclude_state (verify_partial c key p index s) s' h ∙ verify_partial_state c key p index s,
      )

module _ {P C : Type 0} where
  proved_state :
      (fee_payer : ℕ) (proof : P) (s s' : VerificationAccount P C)
      → init_verification_proof fee_payer proof s ≡ ok s'
      → s'.state ≡ proof_setup
  unfolding init_verification_proof
  proved_state fee_payer proof s s' h =
      let (u, _, h) =
        >>=-eq-ok
          (guard (elim s.state [ fee_transferred ↦ true | _ ↦ false ])
            (from_elusiv invalid_account_state))
          _ h in
      let (u, _, h) =
        >>=-eq-ok
          (guard (elim s.is_verified [ none ↦ true | some v ↦ false ])
            (from_elusiv computation_is_already_finished))
          _ h in
      let (u, _, h) =
        >>=-eq-ok (guard (s.other_data.fee_payer == fee_payer) (from_elusiv invalid_account)) _ h in
      subst (λ x. x.state ≡ proof_setup) (ok_injective h) refl

  inserted_verdict :
      (reduce : ℕ → ℕ) (s s' : VerificationAccount P C) (n n' : NullifierAccount)
      → finalize_verification_insert_nullifier reduce s n ≡ ok (s', n')
      → (is_inserting s.state ≡ true) × (s'.is_verified ≡ s.is_verified)
  unfolding finalize_verification_insert_nullifier after_insertion
  inserted_verdict reduce s s' n n' h =
      let (u, g, h) =
        >>=-eq-ok (guard (is_inserting s.state) (from_elusiv invalid_account_state)) _ h in
      let (q, _, h) = >>=-eq-ok (requests_send s.request) _ h in
      let (m, _, h) =
        >>=-eq-ok (insert_or_move reduce s.instruction (q.join_split.input_commitments) n) _ h in
      (
        guard-eq-ok (is_inserting s.state) (from_elusiv invalid_account_state) g,
        subst (λ x. x.0.is_verified ≡ s.is_verified) (ok_injective h) refl,
      )

  finalized_request :
      (reduce : ℕ → ℕ) (hash : List ℕ → List ℕ) (sysvar : InstructionsSysvar) (a : FinalizeSend)
      (storage : StorageAccount ℕ) (buffer buffer' : RingBuffer) (s s' : VerificationAccount P C)
      → finalize_verification_send reduce hash sysvar a storage buffer s ≡ ok (buffer', s')
      → (q : SendPublicInputs) × (s.request ≡ send q)
  unfolding finalize_verification_send
  finalized_request reduce hash sysvar a storage buffer buffer' s s' h =
      let (u, _, h) =
        >>=-eq-ok (guard (is_proof_setup s.state) (from_elusiv invalid_account_state)) _ h in
      let (q, e, h) = >>=-eq-ok (requests_send s.request) _ h in (q, request_of s.request q e)

module _ {L F A B R T W : Type 0} (env : Environment L) (c : Curve F A) (p : Pairing F A B R T W)
    (reduce : ℕ → ℕ) (hash : List ℕ → List ℕ) where
  started-IsJudged :
      (s : Verification F A B R T W)
      → s.state ≢ insert_nullifiers
      → s.state ≢ finalized
      → IsJudged env c p reduce hash s
  started-IsJudged s i f = record { inserts = λ e. absurd (i e); ends = λ e. absurd (f e) }

  verdict-IsJudged :
      (s : Verification F A B R T W) → s.is_verified ≡ some true → IsJudged env c p reduce hash s
  verdict-IsJudged s v = record { inserts = λ e. v; ends = λ e n. cc }

  step-IsJudged :
      (s s' : Verification F A B R T W)
      → IsJudged env c p reduce hash s
      → Step env c p reduce hash s s'
      → IsJudged env c p reduce hash s'
  step-IsJudged s s' j (charge _ _ a governor l l' h) =
      let e = (charged env a governor s s' l l' h).state in started-IsJudged s' (λ f. cc) (λ f. cc)
  step-IsJudged s s' j (prove _ _ fee_payer proof h) =
      let e = proved_state fee_payer proof s s' h in started-IsJudged s' (λ f. cc) (λ f. cc)
  step-IsJudged s s' j (compute _ _ vkey_version vkey now vkey_id h) =
      let (can, e) = compute_state c p vkey_version vkey now vkey_id s s' h in
      started-IsJudged s' (λ f. computing_inserts (s.state) can (sym e ∙ f))
        (λ f. computing_ends (s.state) can (sym e ∙ f))
  step-IsJudged s s' j (finalize _ _ sysvar a storage buffer buffer' h) =
      let (q, e) = finalized_request reduce hash sysvar a storage buffer buffer' s s' h in
      elim (finalize_verification_send_lem reduce hash sysvar a q storage buffer buffer' s s' e h) [
        | inl r ↦
            let v = r.kept ∙ r.verdict in
            let t = r.state in record { inserts = λ f. cc; ends = λ f n. cc }
        | inr r ↦ verdict-IsJudged s' (r.kept ∙ r.verdict)
      ]
  step-IsJudged s s' j (insert _ _ n n' h) =
      let (i, kept) = inserted_verdict reduce s s' n n' h in
      verdict-IsJudged s' (kept ∙ j.inserts (inserting_of (s.state) i))

  steps-IsJudged :
      (s s' : Verification F A B R T W)
      → IsJudged env c p reduce hash s
      → Reachable env c p reduce hash s s'
      → IsJudged env c p reduce hash s'
  steps-IsJudged s s' j (no_step _) = j
  steps-IsJudged s s' j (next_step _ m _ r t) = step-IsJudged m s' (steps-IsJudged s m j r) t

  -- Of a verification that neither inserts nullifiers nor is finalized, after any of the instructions that
  -- return, in any order and with any arguments: while it inserts nullifiers, its proof was accepted, and once
  -- it is finalized, its proof was accepted or rejected.
  pub Reachable-IsJudged :
      (s s' : Verification F A B R T W)
      → s.state ≢ insert_nullifiers
      → s.state ≢ finalized
      → Reachable env c p reduce hash s s'
      → IsJudged env c p reduce hash s'
  Reachable-IsJudged s s' i f = steps-IsJudged s s' (started-IsJudged s i f)
