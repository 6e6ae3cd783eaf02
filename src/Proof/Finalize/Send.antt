-- ===== src/Proof/Finalize/Send.antt =====
-- The first instruction of the finalization, and what it demands of the transaction.
use elusiv.Base.{
  ◌==◌, guard, unwrap, from_elusiv, >>=-eq-ok, ok_injective, unwrap-eq-ok, invalid_account_state,
  ProgramError, ok, ℕ, ◌≡◌, refl, sym, ap, ◌∙◌, subst, ◌⊎◌, inl, inr, Bool, true, false, Option,
  none, some, List,
}
use elusiv.Buffer.{RingBuffer}
use elusiv.Storage.{StorageAccount}
use elusiv.Proof.{SendPublicInputs, send, VerificationAccount, insert_nullifiers, finalized}
use elusiv.Proof.Verifier.{is_proof_setup}
use elusiv.Proof.Sysvar.{InstructionsSysvar, enforce_finalize_send_instructions}
use elusiv.Proof.Sysvar.Sequence.{IsSequence, enforce_finalize_send_instructions-IsSequence}
use elusiv.Proof.Finalize.{
  FinalizeSend, check_final_data, requests_send, verify_hashed_inputs, remove_commitment,
  enforce_send, finalize_verification_send,
}

some_injective : {A : Type 0} {a b : A} → ◌≡◌ {A = Option A} (some a) (some b) → a ≡ b
some_injective h = cc

verdict_cases : (v : Option Bool) → (v ≡ none) ⊎ ((v ≡ some false) ⊎ (v ≡ some true))
verdict_cases none = inl refl
verdict_cases (some false) = inr (inl refl)
verdict_cases (some true) = inr (inr refl)

module _ (reduce : ℕ → ℕ) (hash : List ℕ → List ℕ) (sysvar : InstructionsSysvar)
    {P C : Type 0} where
  -- A proof that was rejected is finalized; an accepted one inserts its nullifiers next, in a transaction
  -- with the wanted sequence of instructions.
  pub record IsRejected (s s' : VerificationAccount P C) : Type 0 where
    pub verdict : s.is_verified ≡ some false
    pub state : s'.state ≡ finalized
    pub kept : s'.is_verified ≡ s.is_verified

  pub record IsAccepted (a : FinalizeSend) (q : SendPublicInputs) (s s' : VerificationAccount P C)
      : Type 0 where
    pub verdict : s.is_verified ≡ some true
    pub state : s'.state ≡ insert_nullifiers
    pub kept : s'.is_verified ≡ s.is_verified
    pub instruction : s'.instruction ≡ 0
    pub current : ℕ
    pub at_current : sysvar.current_index ≡ ok current
    pub sequence :
        IsSequence sysvar a.program_id a.verification_account_index current
          (q.join_split.token_id == 0)

  accepted :
      (a : FinalizeSend) (q : SendPublicInputs) (storage : StorageAccount ℕ)
      (s s1 s' : VerificationAccount P C)
      → s.is_verified ≡ some true
      → s1.is_verified ≡ s.is_verified
      → enforce_send reduce hash sysvar a q storage s1 ≡ ok s'
      → IsAccepted a q s s'
  unfolding enforce_send
  accepted a q storage s s1 s' v k h =
      let lamports = q.join_split.token_id == 0 in
      let index = a.verification_account_index in
      let (r, ends, sequence) =
        enforce_finalize_send_instructions-IsSequence sysvar a.program_id index lamports in
      let (r', e, h) =
        >>=-eq-ok
          (unwrap {E = ProgramError}
            (enforce_finalize_send_instructions sysvar a.program_id lamports index))
          _ h in
      let (u, f, h) = >>=-eq-ok r' _ h in
      let found =
        unwrap-eq-ok (enforce_finalize_send_instructions sysvar a.program_id lamports index) e in
      let same : r ≡ r' = some_injective (sym ends ∙ found) in
      let (current, at, is_sequence) = sequence (same ∙ f) in
      let (u, _, h) = >>=-eq-ok (check_final_data a q storage) _ h in
      subst (IsAccepted a q s) (ok_injective h) (record {
        verdict = v;
        state = refl;
        kept = k;
        instruction = refl;
        current = current;
        at_current = at;
        sequence = is_sequence;
      })

  -- Of a send whose first instruction of the finalization returns: either the proof was rejected, and the verification is
  -- finalized, or it was accepted, the verification inserts nullifiers from the first one on, and the
  -- transaction has, from its current instruction on, this instruction, insertions and the transfer of
  -- the token's kind, each for the same verification account.
  pub finalize_verification_send_lem :
      (a : FinalizeSend) (q : SendPublicInputs) (storage : StorageAccount ℕ)
      (buffer buffer' : RingBuffer) (s s' : VerificationAccount P C)
      → s.request ≡ send q
      → finalize_verification_send reduce hash sysvar a storage buffer s ≡ ok (buffer', s')
      → IsRejected s s' ⊎ IsAccepted a q s s'
  unfolding finalize_verification_send
  finalize_verification_send_lem a q storage buffer buffer' s s' r h =
      let (u, _, h) =
        >>=-eq-ok (guard (is_proof_setup s.state) (from_elusiv invalid_account_state)) _ h in
      let (q', e, h) = >>=-eq-ok (requests_send s.request) _ h in
      let same : q' ≡ q = ok_injective (sym e ∙ ap requests_send r) in
      let (u, _, h) = >>=-eq-ok (verify_hashed_inputs reduce hash sysvar a q') _ h in
      let addressed = record s {
        other_data = record (s.other_data) { recipient_wallet = some a.recipient };
      } in
      elim (verdict_cases s.is_verified) [
        | inl v ↦ absurd (let h = rw v at h in cc)
        | inr (inl v) ↦
            let (b, _, h) =
              >>=-eq-ok (remove_commitment reduce hash sysvar q' buffer) _ (rw v at h) in
            inl (
              subst (λ x. IsRejected s x) (ap (λ x. x.1) (ok_injective h))
                (record { verdict = v; state = refl; kept = refl }))
        | inr (inr v) ↦
            let (t, f, h) =
              >>=-eq-ok (enforce_send reduce hash sysvar a q' storage addressed) _ (rw v at h) in
            inr (
              subst (λ x. IsAccepted a x s s') same
                (subst (λ x. IsAccepted a q' s x) (ap (λ x. x.1) (ok_injective h))
                  (accepted a q' storage s addressed t v refl f)))
      ]
