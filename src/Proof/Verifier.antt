-- ===== src/Proof/Verifier.antt =====
-- elusiv/src/proof/verifier.rs: the verification of a proof in calls. `F`, `A`, `B`, `R` and `T` are the types
-- of Fq, G1A, G2A, G2HomProjective and Fq12, and `W` that of the other RAMs. The rounds of the two later
-- steps are generated from the program of `elusiv_computations!`, and are parameters.
pub mod Steps
pub mod Calls
pub mod State
mod Tests
use elusiv.Base.{
  ltb, ◌==◌, if◌then◌else◌, ◌>>=◌, ◌>>◌, ok_or, ElusivError, could_not_process_proof, Result, ok,
  err, panic, u8_mod, u32_mod, add_u32, read, ℕ, zero, suc, ◌+◌, Bool, true, false, Option, none,
  List, map,
}
use elusiv.Proof.{
  VerificationAccount, VerificationState, initialized, fee_transferred, proof_setup,
  insert_nullifiers, finalized, closed, VerificationStep, public_input_preparation,
  combined_miller_loop, final_exponentiation, le_bytes,
}
use elusiv.Proof.Preparation.{
  Curve, InputsKey, prepare_public_inputs_partial, prepare_public_inputs_rounds,
}

pub record GrothProof (A B : Type 0) : Type 0 where
  pub a : A
  pub b : B
  pub c : A

pub record Computation (F A B R T W : Type 0) : Type 0 where
  pub ram_fq : List F
  pub rams : W
  pub prepared_inputs : A
  pub r : R
  pub f : T
  pub alt_b : B
  pub coeff_index : ℕ

-- What the rounds of the Miller loop change.
pub record MillerLoop (F B R W : Type 0) : Type 0 where
  pub ram_fq : List F
  pub rams : W
  pub r : R
  pub coeff_index : ℕ
  pub alt_b : B

-- The generated computations at a verifying key, with their tables of instructions.
pub record Pairing (F A B R T W : Type 0) : Type 0 where
  pub miller_instructions : List ℕ
  pub miller_total_rounds : ℕ
  pub miller_round :
      GrothProof A B
      → A
      → ℕ
      → MillerLoop F B R W
      → Result ElusivError (MillerLoop F B R W × Option T)
  pub exponentiation_instructions : List ℕ
  pub exponentiation_total_rounds : ℕ
  pub exponentiation_round : T → ℕ → List F × W → (List F × W) × Result ElusivError (Option T)
  pub alpha_beta : T
  pub eq_fq12 : T → T → Bool

abbrev pub compute_verification_ix_count : ℕ
compute_verification_ix_count = 7

abbrev pub is_proof_setup : VerificationState → Bool
is_proof_setup proof_setup = true
is_proof_setup initialized = false
is_proof_setup fee_transferred = false
is_proof_setup insert_nullifiers = false
is_proof_setup finalized = false
is_proof_setup closed = false

abbrev pub u32_safe : ℕ → Result ElusivError ℕ
u32_safe n = if ltb n u32_mod then ok n else panic

abbrev pub u8_safe : ℕ → Result ElusivError ℕ
u8_safe n = if ltb n u8_mod then ok n else panic

abbrev pub Verification : (F A B R T W : Type 0) → Type 0
Verification F A B R T W = VerificationAccount (GrothProof A B) (Computation F A B R T W)

module _ {F A B R T W : Type 0} (c : Curve F A) (vkey : InputsKey F A) where
  unfoldable pub prepare_public_inputs :
      ℕ → ℕ → Verification F A B R T W → Result ElusivError (Verification F A B R T W)
  unfolding prepare_public_inputs_partial le_bytes
  prepare_public_inputs instruction round s = do
    rounds ← read s.prepare_inputs_instructions instruction
    (ram, result) ←
        prepare_public_inputs_partial c vkey (map (le_bytes 32) s.public_input) round rounds
          s.computation.ram_fq
    (if round + rounds == prepare_public_inputs_rounds vkey.public_inputs_count
        then (ok_or result could_not_process_proof >>= λ prepared_inputs. ok (record s {
          computation = record (s.computation) { ram_fq = ram; prepared_inputs = prepared_inputs };
          step = combined_miller_loop;
          round = 0;
          instruction = 0;
        }))
        else ok (record s {
          computation = record (s.computation) { ram_fq = ram };
          round = add_u32 round rounds;
          instruction = add_u32 instruction 1;
        }))

module _ {F A B R T W : Type 0} (p : Pairing F A B R T W) where
  -- The loops over the rounds of a call, `count` of them, with the result of the round before.
  unfoldable pub miller_rounds :
      GrothProof A B
      → A
      → ℕ
      → ℕ
      → MillerLoop F B R W
      → Option T
      → Result ElusivError (MillerLoop F B R W × Option T)
  miller_rounds proof inputs zero round m result = ok (m, result)
  miller_rounds proof inputs (suc count) round m result =
      p.miller_round proof inputs round m >>= λ q.
      miller_rounds proof inputs count (suc round) q.0 q.1

  -- What the Miller loop reads of the account, from the round `round` on.
  unfoldable pub miller_call :
      ℕ → ℕ → Verification F A B R T W → Result ElusivError (MillerLoop F B R W × Option T)
  unfolding miller_rounds
  miller_call rounds round s =
      miller_rounds s.proof s.computation.prepared_inputs rounds round
        (record {
          ram_fq = s.computation.ram_fq;
          rams = s.computation.rams;
          r = s.computation.r;
          coeff_index = s.computation.coeff_index;
          alt_b = s.computation.alt_b;
        })
        none

  -- The writes that follow, with the RAM, which is written at the end.
  unfoldable pub next_miller :
      ℕ
      → ℕ
      → ℕ
      → MillerLoop F B R W × Option T
      → Verification F A B R T W
      → Result ElusivError (Verification F A B R T W)
  next_miller instruction round rounds (m, result) s =
      let computed = record (s.computation) { ram_fq = m.ram_fq; rams = m.rams } in
      if round + rounds == p.miller_total_rounds
      then (ok_or result could_not_process_proof >>= λ f. ok (record s {
        computation = record computed { f = f };
        step = final_exponentiation;
        round = 0;
        instruction = 0;
      }))
      else (u32_safe (round + rounds) >>= λ round'. ok (record s {
        computation = record computed { r = m.r; alt_b = m.alt_b };
        round = round';
        instruction = add_u32 instruction 1;
      }))

  unfoldable pub exponentiation_rounds :
      T → ℕ → ℕ → List F × W → Option T → (List F × W) × Result ElusivError (Option T)
  exponentiation_rounds f zero round rams result = (rams, ok result)
  exponentiation_rounds f (suc count) round rams result =
      let (rams', outcome) = p.exponentiation_round f round rams in
      elim outcome [
        | ok result' ↦ exponentiation_rounds f count (suc round) rams' result'
        | err e ↦ (rams', err e)
        | panic ↦ (rams', panic)
      ]

  abbrev pub with_rams : List F × W → Verification F A B R T W → Verification F A B R T W
  with_rams rams s = record s {
    computation = record (s.computation) { ram_fq = rams.0; rams = rams.1 };
  }

  -- The writes after the rounds of the exponentiation.
  unfoldable pub next_exponentiation :
      ℕ → ℕ → ℕ → Verification F A B R T W → Result ElusivError (Verification F A B R T W)
  next_exponentiation instruction round rounds s = u32_safe (round + rounds) >>= λ round'.
      ok (record s { round = round'; instruction = add_u32 instruction 1 })
