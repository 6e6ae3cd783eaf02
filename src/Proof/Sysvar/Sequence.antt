-- ===== src/Proof/Sysvar/Sequence.antt =====
-- The instructions that a transaction must have behind finalize_verification_send.
use elusiv.Base.{
  ◌==◌, if◌then◌else◌, ==_iff, get_elem?, guard, from_elusiv, >>=-eq-ok, guard-eq-ok, outcome_cases,
  unwrap-eq-ok, invalid_other_instruction, ProgramError, incorrect_program_id, Result, ok, err,
  panic, read, ℕ, zero, suc, ◌+◌, ◌≤◌, ◌<◌, ◌≡◌, refl, sym, ap, ◌∙◌, subst, inl, inr, Bool, some,
  arith, dec_le, ℕ_discrete,
}
use elusiv.Proof.Sysvar.{
  Instruction, InstructionsSysvar, finalize_verification_send_index,
  finalize_verification_insert_nullifier_index, finalize_verification_transfer_lamports_index,
  finalize_verification_transfer_token_index, verify_finalize_send_instruction, count_insertions,
  enforce_from, enforce_finalize_send_instructions,
}

abbrev transfer_index : Bool → ℕ
transfer_index uses_lamports =
    if uses_lamports
    then finalize_verification_transfer_lamports_index
    else finalize_verification_transfer_token_index

module _ (sysvar : InstructionsSysvar) (program_id account_index : ℕ) where
  -- The instruction at an index is the variant of the program, for the verification account.
  pub record IsInstruction (index variant : ℕ) : Type 0 where
    pub instruction : Instruction
    pub at_index : sysvar.instruction_at_index index ≡ ok instruction
    pub program : instruction.program_id ≡ program_id
    pub tag : get_elem? instruction.bytes 0 ≡ some variant
    pub account : get_elem? instruction.bytes 1 ≡ some account_index

  pub record IsSequence (current : ℕ) (uses_lamports : Bool) : Type 0 where
    pub insertions : ℕ
    pub leading : IsInstruction current finalize_verification_send_index
    pub insertion :
        (k : ℕ)
        → k < insertions
        → IsInstruction (current + k + 1) finalize_verification_insert_nullifier_index
    pub transfer : IsInstruction (current + insertions + 1) (
        if uses_lamports
        then finalize_verification_transfer_lamports_index
        else finalize_verification_transfer_token_index)

  abbrev verify : ℕ → ℕ → Result ProgramError (Unit {0})
  verify index variant =
      verify_finalize_send_instruction sysvar program_id index variant account_index

  verify-IsInstruction : (i variant : ℕ) → verify i variant ≡ ok tt → IsInstruction i variant
  unfolding verify_finalize_send_instruction
  verify-IsInstruction i variant h =
      let (ix, e, h) = >>=-eq-ok (sysvar.instruction_at_index i) _ h in
      let (u, g, h) = >>=-eq-ok (guard (ix.program_id == program_id) incorrect_program_id) _ h in
      let (first, r1, h) = >>=-eq-ok (read ix.bytes 0) _ h in
      let (u, g1, h) =
        >>=-eq-ok (guard (first == variant) (from_elusiv invalid_other_instruction)) _ h in
      let (second, r2, h) = >>=-eq-ok (read ix.bytes 1) _ h in
      let same1 : first ≡ variant = (==_iff _ _).0 (guard-eq-ok (first == variant) _ g1) in
      let same2 : second ≡ account_index =
        (==_iff _ _).0 (guard-eq-ok (second == account_index) _ h) in
      record {
        instruction = ix;
        at_index = e;
        program = (==_iff _ _).0 (guard-eq-ok (ix.program_id == program_id) _ g);
        tag = unwrap-eq-ok _ r1 ∙ ap some same1;
        account = unwrap-eq-ok _ r2 ∙ ap some same2;
      }

  past_end : (i variant : ℕ) → sysvar.count ≤ i → (e : ProgramError) × (verify i variant ≡ err e)
  unfolding verify_finalize_send_instruction
  past_end i variant h = let (e, q) = sysvar.past_end i h in (e, rw q refl)

  -- The loop ends, and what it has counted are insertions.
  pub record IsCounted (current count : ℕ) (r : Result ProgramError ℕ) : Type 0 where
    pub counted :
        (n : ℕ)
        → r ≡ ok n
        → (k : ℕ) → count ≤ k
        → k < n
        → IsInstruction (current + k + 1) finalize_verification_insert_nullifier_index

  counts :
      (fuel current count : ℕ)
      → sysvar.count < fuel + count
      → count ≤ sysvar.count
      → (r : Result ProgramError ℕ) × (count_insertions sysvar fuel program_id current account_index
            count
          ≡ some r)
        × IsCounted current count r
  unfolding count_insertions
  counts zero current count few bound = absurd (omega arith)
  counts (suc fuel) current count few bound =
      let insert = finalize_verification_insert_nullifier_index in
      elim (outcome_cases (verify (current + count + 1) insert)) [
        | inl (u, e) ↦
            let within : suc count ≤ sysvar.count = elim (dec_le (suc count) sysvar.count) [
              | yes l ↦ l
              | no ge ↦
                  let (x, q) = past_end (current + count + 1) insert (omega arith) in absurd (cc)
            ] in
            let (r, eq, c) = counts fuel current (suc count) (omega arith) within in
            (
              r,
              rw (e, count_insertions) eq,
              record {
                counted = λ n h k l g. elim (ℕ_discrete count k) [
                  | yes same ↦
                      subst (λ j. IsInstruction (current + j + 1) insert) same
                        (verify-IsInstruction _ insert e)
                  | no ne ↦ c.counted n h k (omega arith) g
                ];
              },
            )
        | inr (inl (x, e)) ↦ (
          ok count,
          rw (e, count_insertions) refl,
          record { counted = λ n h k l g. let same : count ≡ n = cc in absurd (omega arith) },
        )
        | inr (inr e) ↦
            (panic, rw (e, count_insertions) refl, record { counted = λ n h k l g. absurd (cc) })
      ]

  enforced_from :
      (uses_lamports : Bool) (current : ℕ)
      → (r : Result ProgramError (Unit {0})) × (enforce_from sysvar program_id uses_lamports
            account_index current
          ≡ some r)
        × (r ≡ ok tt → IsSequence current uses_lamports)
  unfolding enforce_from
  enforced_from uses_lamports current =
      let lead = finalize_verification_send_index in
      let (counted, eq, c) = counts (sysvar.count + 1) current 0 (omega arith) (omega arith) in
      elim (outcome_cases (verify current lead)) [
        | inr (inl (x, f)) ↦ (err x, rw (f, enforce_from) refl, λ h. absurd (cc))
        | inr (inr f) ↦ (panic, rw (f, enforce_from) refl, λ h. absurd (cc))
        | inl (u, f) ↦ elim (outcome_cases counted) [
          | inr (inl (x, g)) ↦
              (err x, (let q = eq ∙ ap some g in rw (f, q, enforce_from) refl), λ h. absurd (cc))
          | inr (inr g) ↦
              (panic, (let q = eq ∙ ap some g in rw (f, q, enforce_from) refl), λ h. absurd (cc))
          | inl (n, g) ↦ (
            verify (current + n + 1) (transfer_index uses_lamports),
            (let q = eq ∙ ap some g in rw (f, q, enforce_from) refl),
            λ h. record {
              insertions = n;
              leading = verify-IsInstruction current lead f;
              insertion = λ k l. c.counted n g k (omega arith) l;
              transfer = verify-IsInstruction _ (transfer_index uses_lamports) h;
            },
          )
        ]
      ]

  -- The check always ends within its fuel. When it accepts, the current instruction is the program's
  -- finalize_verification_send for the verification account, some insertions of nullifiers for that account
  -- follow it directly, and behind them stands the transfer of the wanted kind.
  pub enforce_finalize_send_instructions-IsSequence :
      (uses_lamports : Bool)
      → (r : Result ProgramError (Unit {0})) × (enforce_finalize_send_instructions sysvar program_id
            uses_lamports account_index
          ≡ some r)
        × (r ≡ ok tt
            → (current : ℕ) × (sysvar.current_index ≡ ok current)
              × IsSequence current uses_lamports)
  unfolding enforce_finalize_send_instructions
  enforce_finalize_send_instructions-IsSequence uses_lamports =
      elim (outcome_cases sysvar.current_index) [
        | inr (inl (x, e)) ↦
            (err x, rw (e, enforce_finalize_send_instructions) refl, λ h. absurd (cc))
        | inr (inr e) ↦ (panic, rw (e, enforce_finalize_send_instructions) refl, λ h. absurd (cc))
        | inl (current, e) ↦
            let (r, eq, sequence) = enforced_from uses_lamports current in
            (
              r,
              subst
                  (λ x.
                    (elim x [
                      | err y ↦ some (err y)
                      | panic ↦ some panic
                      | ok i ↦ enforce_from sysvar program_id uses_lamports account_index i
                    ])
                    ≡ some r)
                  (sym e) eq,
              λ h. (current, e, sequence h),
            )
      ]
