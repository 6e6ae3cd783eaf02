-- ===== src/Proof/Verifier/State.antt =====
-- The computation of a verification leaves its state alone.
use elusiv.Base.{
  ltb, ◌==◌, if◌then◌else◌, Bool-cases, length, guard, ok_or, >>=-eq-ok, ok_injective,
  outcome_cases, ElusivError, invalid_account_state, could_not_process_proof,
  computation_is_already_finished, Result, ok, err, panic, read, ℕ, ◌+◌, ◌-◌, ◌≡◌, refl, ◌∙◌, subst,
  inl, inr, Bool, true, false, Option, none, some, map,
}
use elusiv.Base.Action.{Action, ◌>>=◌, lift, update, current, and_then}
use elusiv.Proof.{
  le_bytes, VerificationStep, public_input_preparation, combined_miller_loop, final_exponentiation,
}
use elusiv.Proof.Preparation.{
  Curve, InputsKey, prepare_public_inputs_partial, prepare_public_inputs_rounds,
}
use elusiv.Proof.Verifier.{
  Verification, Pairing, MillerLoop, is_proof_setup, compute_verification_ix_count,
  prepare_public_inputs, miller_call, next_miller, u8_safe, u32_safe, exponentiation_rounds,
  with_rams, next_exponentiation,
}
use elusiv.Proof.Verifier.Steps.{
  run_miller_loop, run_final_exponentiation, verify_step, verify_partial,
}

module _ {F A B R T W : Type 0} where
  record IsKept {X : Type 0} (m : Action (Verification F A B R T W) ElusivError X) : Type 0 where
    kept : (s : Verification F A B R T W) → (m s).0.state ≡ s.state

  and_then-IsKept :
      {X Y : Type 0} (p : Verification F A B R T W × Result ElusivError X)
      (f : X → Action (Verification F A B R T W) ElusivError Y)
      → ((x : X) → IsKept (f x))
      → (and_then p f).0.state ≡ p.0.state
  and_then-IsKept (s, ok x) f k = (k x).kept s
  and_then-IsKept (s, err e) f k = refl
  and_then-IsKept (s, panic) f k = refl

  bind-IsKept :
      {X Y : Type 0} {m : Action (Verification F A B R T W) ElusivError X}
      {f : X → Action (Verification F A B R T W) ElusivError Y}
      → IsKept m
      → ((x : X) → IsKept (f x))
      → IsKept (m >>= f)
  bind-IsKept {m = m} {f = f} k l = record { kept = λ s. and_then-IsKept (m s) f l ∙ k.kept s }

  lift-IsKept : {X : Type 0} (r : Result ElusivError X) → IsKept (lift r)
  lift-IsKept r = record { kept = λ s. refl }

  update-IsKept :
      (f : Verification F A B R T W → Result ElusivError (Verification F A B R T W))
      → ((s s' : Verification F A B R T W) → f s ≡ ok s' → s'.state ≡ s.state)
      → IsKept (update f)
  update-IsKept f k = record {
    kept = λ s. elim (outcome_cases (f s)) [
      | inl (s', e) ↦ rw (e, update) (k s s' e)
      | inr (inl (x, e)) ↦ rw (e, update) refl
      | inr (inr e) ↦ rw (e, update) refl
    ];
  }

  if-IsKept :
      {X : Type 0} {m n : Action (Verification F A B R T W) ElusivError X} (b : Bool)
      → IsKept m
      → IsKept n
      → IsKept (if b then m else n)
  if-IsKept true k l = k
  if-IsKept false k l = l

  module _ (p : Pairing F A B R T W) where
    next_miller_state :
        (instruction round rounds : ℕ) (out : MillerLoop F B R W × Option T)
        (s s' : Verification F A B R T W)
        → next_miller p instruction round rounds out s ≡ ok s'
        → s'.state ≡ s.state
    unfolding next_miller
    next_miller_state instruction round rounds (m, result) s s' h =
        elim (Bool-cases (round + rounds == p.miller_total_rounds)) [
          | inl e ↦
              let (f, _, h) = >>=-eq-ok (ok_or result could_not_process_proof) _ (rw e at h) in
              subst (λ x. x.state ≡ s.state) (ok_injective h) refl
          | inr e ↦
              let (r, _, h) = >>=-eq-ok (u32_safe (round + rounds)) _ (rw e at h) in
              subst (λ x. x.state ≡ s.state) (ok_injective h) refl
        ]

    run_miller_loop-IsKept : (instruction round : ℕ) → IsKept (run_miller_loop p instruction round)
    unfolding run_miller_loop
    run_miller_loop-IsKept instruction round =
        bind-IsKept (lift-IsKept (read p.miller_instructions instruction)) (λ rounds.
          bind-IsKept {m = λ s. (s, miller_call p rounds round s)} (record { kept = λ s. refl })
            (λ out. bind-IsKept (lift-IsKept (u8_safe out.0.coeff_index)) (λ coeff_index.
              bind-IsKept
                (update-IsKept
                  (λ s. ok (record s {
                    computation = record (s.computation) { coeff_index = coeff_index };
                  }))
                  (λ s s' h. subst (λ x. x.state ≡ s.state) (ok_injective h) refl))
                (λ u.
                  update-IsKept (next_miller p instruction round rounds out)
                    (next_miller_state instruction round rounds out)))))

    run_final_exponentiation-IsKept :
        (instruction round : ℕ) → IsKept (run_final_exponentiation p instruction round)
    unfolding run_final_exponentiation next_exponentiation
    run_final_exponentiation-IsKept instruction round =
        bind-IsKept
          (lift-IsKept (
            guard (ltb instruction (length p.exponentiation_instructions))
              computation_is_already_finished))
          (λ u.
            bind-IsKept (lift-IsKept (read p.exponentiation_instructions instruction)) (λ rounds.
              bind-IsKept
                {m = λ s.
                  let out =
                    exponentiation_rounds p s.computation.f rounds round
                      (s.computation.ram_fq, s.computation.rams) none in
                  (with_rams p out.0 s, out.1)}
                (record { kept = λ s. refl })
                (λ result.
                  bind-IsKept
                    (update-IsKept (next_exponentiation p instruction round rounds) (λ s s' h.
                      let (r, _, h) = >>=-eq-ok (u32_safe (round + rounds)) _ h in
                      subst (λ x. x.state ≡ s.state) (ok_injective h) refl))
                    (λ u.
                      if-IsKept (round + rounds == p.exponentiation_total_rounds)
                        (bind-IsKept (lift-IsKept (ok_or result could_not_process_proof)) (λ v.
                          bind-IsKept
                            (update-IsKept
                              (λ s.
                                ok (record s { computation = record (s.computation) { f = v } }))
                              (λ s s' h. subst (λ x. x.state ≡ s.state) (ok_injective h) refl))
                            (λ u. lift-IsKept (ok (some (p.eq_fq12 p.alpha_beta v))))))
                        (lift-IsKept (ok none))))))

  module _ (c : Curve F A) (vkey : InputsKey F A) (p : Pairing F A B R T W) where
    prepare_public_inputs_state :
        (instruction round : ℕ) (s s' : Verification F A B R T W)
        → prepare_public_inputs c vkey instruction round s ≡ ok s'
        → s'.state ≡ s.state
    unfolding prepare_public_inputs
    prepare_public_inputs_state instruction round s s' h =
        let (rounds, _, h) =
          >>=-eq-ok (read {E = ElusivError} s.prepare_inputs_instructions instruction) _ h in
        let (out, _, h) =
          >>=-eq-ok
            (prepare_public_inputs_partial c vkey (map (le_bytes 32) s.public_input) round rounds
              s.computation.ram_fq)
            _ h in
        elim (Bool-cases
          (round + rounds == prepare_public_inputs_rounds vkey.public_inputs_count)) [
            | inl e ↦
                let (f, _, h) = >>=-eq-ok (ok_or out.1 could_not_process_proof) _ (rw e at h) in
                subst (λ x. x.state ≡ s.state) (ok_injective h) refl
            | inr e ↦ subst (λ x. x.state ≡ s.state) (ok_injective (rw e at h)) refl
          ]

    verify_step-IsKept :
        (index : ℕ) (step : VerificationStep) → IsKept (verify_step c vkey p index step)
    unfolding verify_step
    verify_step-IsKept index public_input_preparation =
        if-IsKept (index == compute_verification_ix_count - 1)
          (bind-IsKept {m = current} (record { kept = λ s. refl })
            (λ s.
              bind-IsKept
                (update-IsKept (prepare_public_inputs c vkey s.instruction s.round)
                  (prepare_public_inputs_state s.instruction s.round))
                (λ u. lift-IsKept (ok none))))
          (lift-IsKept (ok none))
    verify_step-IsKept index combined_miller_loop =
        bind-IsKept {m = current} (record { kept = λ s. refl })
          (λ s.
            bind-IsKept (lift-IsKept (guard (is_proof_setup s.state) invalid_account_state)) (λ u.
              bind-IsKept (run_miller_loop-IsKept p s.instruction s.round)
                (λ v. lift-IsKept (ok none))))
    verify_step-IsKept index final_exponentiation =
        if-IsKept (index == compute_verification_ix_count - 1)
          (bind-IsKept {m = current} (record { kept = λ s. refl })
            (λ s. run_final_exponentiation-IsKept p s.instruction s.round))
          (lift-IsKept (ok none))

    pub verify_partial_state :
        (index : ℕ) (s : Verification F A B R T W)
        → (verify_partial c vkey p index s).0.state ≡ s.state
    unfolding verify_partial
    verify_partial_state index s = (verify_step-IsKept index s.step).kept s
