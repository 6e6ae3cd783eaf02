-- ===== src/Proof/Verifier/Steps.antt =====
-- elusiv/src/proof/verifier.rs: the two later steps of the verification, and `verify_partial`. An error leaves the
-- account as the code has left it, since compute_verification goes on after most of them; the RAM is written
-- to the account at the end of a step only.
use elusiv.Base.{
  ltb, ◌==◌, if◌then◌else◌, length, guard, ok_or, ElusivError, invalid_account_state,
  could_not_process_proof, computation_is_already_finished, ok, read, ℕ, ◌+◌, ◌-◌, Bool, Option,
  none, some,
}
use elusiv.Base.Action.{Action, ◌>>=◌, ◌>>◌, lift, update, current}
use elusiv.Proof.{
  VerificationStep, public_input_preparation, combined_miller_loop, final_exponentiation,
}
use elusiv.Proof.Preparation.{Curve, InputsKey}
use elusiv.Proof.Verifier.{
  Verification, Pairing, is_proof_setup, compute_verification_ix_count, prepare_public_inputs,
  miller_call, next_miller, u8_safe, exponentiation_rounds, with_rams, next_exponentiation,
}

module _ {F A B R T W : Type 0} (p : Pairing F A B R T W) where
  unfoldable pub run_miller_loop : ℕ → ℕ → Action (Verification F A B R T W) ElusivError (Unit {0})
  unfolding miller_call next_miller
  run_miller_loop instruction round = do
    rounds ← lift (read p.miller_instructions instruction)
    out ← λ s. (s, miller_call p rounds round s)
    coeff_index ← lift (u8_safe out.0.coeff_index)
    update
        (λ s. ok (record s { computation = record (s.computation) { coeff_index = coeff_index } }))
    update (next_miller p instruction round rounds out)

  -- The result, and the account with the RAM, which is written to it in any case.
  unfoldable pub run_final_exponentiation :
      ℕ → ℕ → Action (Verification F A B R T W) ElusivError (Option Bool)
  unfolding exponentiation_rounds next_exponentiation
  run_final_exponentiation instruction round = do
    lift (
        guard (ltb instruction (length p.exponentiation_instructions))
          computation_is_already_finished)
    rounds ← lift (read p.exponentiation_instructions instruction)
    result ← λ s.
        let out =
          exponentiation_rounds p s.computation.f rounds round
            (s.computation.ram_fq, s.computation.rams) none in
        (with_rams p out.0 s, out.1)
    update (next_exponentiation p instruction round rounds)
    (if round + rounds == p.exponentiation_total_rounds
        then (do
          v ← lift (ok_or result could_not_process_proof)
          update (λ s. ok (record s { computation = record (s.computation) { f = v } }))
          lift (ok (some (p.eq_fq12 p.alpha_beta v))))
        else lift (ok none))

module _ {F A B R T W : Type 0} (c : Curve F A) (vkey : InputsKey F A)
    (p : Pairing F A B R T W) where
  -- The step that the account is in.
  unfoldable pub verify_step :
      ℕ → VerificationStep → Action (Verification F A B R T W) ElusivError (Option Bool)
  unfolding prepare_public_inputs run_miller_loop run_final_exponentiation
  verify_step instruction_index public_input_preparation =
      if instruction_index == compute_verification_ix_count - 1
      then (do
        s ← current
        update (prepare_public_inputs c vkey s.instruction s.round)
        lift (ok none))
      else lift (ok none)
  verify_step instruction_index combined_miller_loop = do
    s ← current
    lift (guard (is_proof_setup s.state) invalid_account_state)
    run_miller_loop p s.instruction s.round
    lift (ok none)
  verify_step instruction_index final_exponentiation =
      if instruction_index == compute_verification_ix_count - 1
      then (current >>= λ s. run_final_exponentiation p s.instruction s.round)
      else lift (ok none)

  unfoldable pub verify_partial : ℕ → Action (Verification F A B R T W) ElusivError (Option Bool)
  unfolding verify_step
  verify_partial instruction_index = current >>= λ s. verify_step instruction_index s.step
