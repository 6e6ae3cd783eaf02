-- ===== src/Fee/Cover.antt =====
-- The fees cover what the program pays out.
use elusiv.Base.{
  lt→ltb, leb→le, Bool-cases, length, >>=-eq-ok, ok_injective, >>=-ok, ProgramError, ok, u64_mod,
  add_u64, mul_u64, ℕ, zero, suc, ◌+◌, ◌*◌, ◌^◌, ◌≤◌, ◌<◌, ◌≡◌, refl, sym, ap, ◌∙◌, inl, inr, Bool,
  true, false, ◌&&◌, List, arith, ℕ_discrete,
}
use elusiv.Bytes.{div_ceiling}
use elusiv.Bytes.Division.{div_ceiling_lem}
use elusiv.Commitment.{commitments_per_batch, commitment_hash_computation_instructions}
use elusiv.Fee.{
  ProgramFee, hash_tx_compensation, commitment_hash_computation_fee, is_valid_at, is_valid_from,
  is_valid,
}
use native.Mathlib.Nat.{one-le-pow, mod-eq_of_lt}

-- For a batching rate up to 4 whose products are in range, the fees of a full batch reach the
-- compensation for all calls of the computation, and with one lamport less per commitment they do not.
pub commitment_hash_computation_fee_covers :
    (f : ProgramFee) (r : ℕ) (instructions : List ℕ)
    → r ≤ 4
    → commitment_hash_computation_instructions r ≡ ok instructions
    → length instructions * hash_tx_compensation f + 2 ^ r < u64_mod
    → (fee : ℕ) × (commitment_hash_computation_fee f r ≡ ok fee)
      × (length instructions * hash_tx_compensation f ≤ fee * 2 ^ r)
      × (fee * 2 ^ r < length instructions * hash_tx_compensation f + 2 ^ r)
unfolding commitment_hash_computation_fee
commitment_hash_computation_fee_covers f r instructions small table fits =
    let cost = length instructions * hash_tx_compensation f in
    let exact : mul_u64 (length instructions) (hash_tx_compensation f) ≡ cost =
      mod-eq_of_lt (omega (arith, fits)) in
    let (fee, e, enough, least) =
      div_ceiling_lem u64_mod cost (2 ^ r) (one-le-pow r 2 (omega arith)) fits in
    let width : commitments_per_batch {E = ProgramError} r ≡ ok (2 ^ r) =
      rw (lt→ltb r 64 (omega arith)) refl in
    (
      fee,
      >>=-ok _ table (>>=-ok _ width (ap (λ k. div_ceiling u64_mod k (2 ^ r)) exact ∙ e)),
      enough,
      least,
    )

module _ (proof_tx_count : ℕ) where
  valid_round :
      (rounds : ℕ) (f : ProgramFee) (rate r : ℕ)
      → is_valid_from proof_tx_count rounds f rate ≡ ok true
      → rate ≤ r
      → r < rate + rounds
      → is_valid_at proof_tx_count f r ≡ ok true
  unfolding is_valid_from
  valid_round zero f rate r h low high = absurd (omega arith)
  valid_round (suc rounds) f rate r h low high =
      let (valid, e, h) = >>=-eq-ok (is_valid_at proof_tx_count f rate) _ h in
      elim (Bool-cases valid) [
        | inr b ↦ let q = rw b at h in cc
        | inl b ↦
            let q = rw b at h in
            elim (ℕ_discrete rate r) [
              | yes same ↦ ap (is_valid_at proof_tx_count f) (sym same) ∙ e ∙ ap ok b
              | no other ↦ valid_round rounds f (suc rate) r q (omega arith) (omega arith)
            ]
      ]

  and_parts : (a b c : Bool) → (a && b && c) ≡ true → (a ≡ true) × (b ≡ true) × (c ≡ true)
  and_parts true true true h = (refl, refl, refl)
  and_parts true true false h = cc
  and_parts true false c h = cc
  and_parts false b c h = cc

  -- Fees that is_valid accepts have no subvention above the commitment fee, at every rate below the
  -- maximum of 4, and none above the cheapest proof's fee.
  pub is_valid-subvention :
      (f : ProgramFee) (r : ℕ)
      → is_valid proof_tx_count f ≡ ok true
      → r < 4
      → (fee : ℕ) × (commitment_hash_computation_fee f r ≡ ok fee)
        × (f.base_commitment_subvention ≤ fee)
        × (f.proof_subvention ≤ add_u64 (mul_u64 f.proof_base_tx_count f.lamports_per_tx) fee)
  unfolding is_valid is_valid_at
  is_valid-subvention f r h below =
      let here = valid_round 4 f 0 r h (omega arith) (omega arith) in
      let (fee, e, q) = >>=-eq-ok (commitment_hash_computation_fee f r) _ here in
      let (a, b, c) = and_parts _ _ _ (ok_injective q) in (fee, e, leb→le _ _ a, leb→le _ _ b)
