-- ===== src/Commitment/BaseHashing/Calls.antt =====
-- The calls that compute the hash of a base commitment: two, of 52 and 13 rounds.
use elusiv.Base.{
  ltb, lt→ltb, get_elem?, from_elusiv, ok_injective, >>=-ok, guard-ok, unwrap-ok,
  computation_is_already_finished, ProgramError, Result, ok, err, add_u32, add_u64, ℕ, zero, suc,
  ◌+◌, ◌-◌, ◌*◌, ◌^◌, ◌≤◌, ◌<◌, ◌≡◌, refl, sym, ap, ◌∙◌, true, false, Option, some, List, [], ◌∷◌,
  arith,
}
use elusiv.Computation.{
  hash_compute_units, hash_round_costs, compute_unit_optimization, optimize, optimize_round, finish,
}
use elusiv.Poseidon.{HashingState, Hasher, new_state, result, hash_rounds, full_poseidon2_hash}
use elusiv.Commitment.{base_commitment_hash_computation}
use elusiv.Commitment.BaseHashing.{
  BaseCommitmentHashRequest, BaseCommitmentHashingAccount, setup_base, base_rounds,
  compute_base_commitment_hash_partial, compute_base_commitment_hash,
}

base_table :
    base_commitment_hash_computation
    ≡ ok
        (record { instructions = 52 ∷ 13 ∷ []; total_rounds = 65; total_compute_units = 1_611_788 })
unfolding base_commitment_hash_computation hash_compute_units hash_round_costs
    compute_unit_optimization optimize optimize_round finish
base_table = refl

module _ {ℓ κ} {F : Type ℓ} {U : Type κ} (h : Hasher F U) where
  hash_rounds-after :
      (m n round : ℕ) (s : HashingState F)
      → hash_rounds h n (round + m) (hash_rounds h m round s) ≡ hash_rounds h (m + n) round s
  unfolding hash_rounds
  hash_rounds-after zero n round s =
      let e : round + 0 ≡ round = omega arith in let f : 0 + n ≡ n = omega arith in rw (e, f) refl
  hash_rounds-after (suc m) n round s =
      let e : round + suc m ≡ suc round + m = omega arith in
      let f : suc m + n ≡ suc (m + n) = omega arith in
      rw (e, f) (hash_rounds-after m n (suc round) (h.hash_round round s))

  base_rounds_lem :
      (total count round : ℕ) (s : HashingState F)
      → round + count ≤ total
      → base_rounds h total count round s ≡ ok (hash_rounds h count round s)
  unfolding base_rounds hash_rounds
  base_rounds_lem total zero round s fits = refl
  base_rounds_lem total (suc count) round s fits =
      let inside : ltb round total ≡ true = lt→ltb round total (omega arith) in
      rw inside (base_rounds_lem total count (suc round) (h.hash_round round s) (omega arith))

module _ {ℓ κ μ} {F : Type ℓ} {U : Type κ} {M : Type μ} (h : Hasher F U) where
  call_after :
      (a : BaseCommitmentHashingAccount F U M) (i n k : ℕ)
      → a.instruction ≡ i
      → a.round ≡ k
      → a.is_active ≡ true
      → i < 2
      → get_elem? (52 ∷ 13 ∷ []) i ≡ some n
      → k + n ≤ 65
      → compute_base_commitment_hash h a
        ≡ ok (record a { state = hash_rounds h n k a.state; instruction = suc i; round = k + n })
  unfolding compute_base_commitment_hash compute_base_commitment_hash_partial
  call_after a i n k at_i at_k active inside found fits =
      let short : ltb a.instruction 2 ≡ true = rw at_i (lt→ltb i 2 inside) in
      let counted : add_u32 a.instruction 1 ≡ suc i = ground arith in
      let moved : add_u32 a.round n ≡ k + n = ground arith in
      let count : add_u32 a.round n - a.round ≡ n = omega (arith, moved, at_k) in
      let rounds : base_rounds h 65 (add_u32 a.round n - a.round) a.round a.state
          ≡ ok (hash_rounds h n k a.state) =
        rw (count, at_k) (base_rounds_lem h 65 n k a.state fits) in
      let after : Result ProgramError (BaseCommitmentHashingAccount F U M) =
        ok (record a { state = hash_rounds h n k a.state; instruction = suc i; round = k + n }) in
      let stored : Path (Result ProgramError (BaseCommitmentHashingAccount F U M))
          (ok (record a {
            state = hash_rounds h n k a.state;
            instruction = add_u32 a.instruction 1;
            round = add_u32 a.round n;
          }))
          after =
        rw (counted, moved) refl in
      let partial : compute_base_commitment_hash_partial h a ≡ after = >>=-ok _ (guard-ok _ short) (
        >>=-ok _ (unwrap-ok (ap (get_elem? (52 ∷ 13 ∷ [])) at_i ∙ found))
          (>>=-ok _ rounds stored)) in
      >>=-ok (λ _. compute_base_commitment_hash_partial h a) (guard-ok _ active) partial

  -- The account after the two calls.
  pub record IsHashed (request : BaseCommitmentHashRequest U) (base value : F)
      (a : BaseCommitmentHashingAccount F U M) : Type ℓ where
    pub finished : a.instruction ≡ 2
    pub hash : result h a.state ≡ full_poseidon2_hash h base value
    pub version : a.fee_version ≡ request.fee_version
    pub rate : a.min_batching_rate ≡ request.min_batching_rate
    pub active : a.is_active ≡ true

  -- After the setup with a request whose amount, token and index make an element of the field, two calls
  -- of compute_base_commitment_hash return; then the state holds the full hash of the base commitment
  -- and that element, the account is still active, and a third call is refused.
  pub compute_base_commitment_hash_lem :
      (reduce : U → U) (from_repr : List ℕ → Option F) (a a0 : BaseCommitmentHashingAccount F U M)
      (request : BaseCommitmentHashRequest U) (metadata : M) (fee_payer : U) (value : F)
      → from_repr (
          request.amount
          ∷ add_u64 request.token_id (request.recent_commitment_index * 2 ^ 16)
          ∷ 0
          ∷ 0
          ∷ [])
        ≡ some value
      → setup_base h reduce from_repr a request metadata fee_payer ≡ ok a0
      → (a1 a2 : BaseCommitmentHashingAccount F U M) × (compute_base_commitment_hash h a0 ≡ ok a1)
        × (compute_base_commitment_hash h a1 ≡ ok a2)
        × IsHashed request (h.to_fr (reduce request.base_commitment)) value a2
        × (compute_base_commitment_hash h a2 ≡ err (from_elusiv computation_is_already_finished))
  unfolding setup_base full_poseidon2_hash compute_base_commitment_hash
      compute_base_commitment_hash_partial
  compute_base_commitment_hash_lem reduce from_repr a a0 request metadata fee_payer value repr
        set_up =
      let begun = sym (>>=-ok _ (unwrap-ok repr) refl) ∙ set_up in
      let e = ok_injective begun in
      let none : a0.instruction ≡ 0 = ap (λ k. k.instruction) (sym e) in
      let start : a0.round ≡ 0 = ap (λ k. k.round) (sym e) in
      let active : a0.is_active ≡ true = ap (λ k. k.is_active) (sym e) in
      let inputs : a0.state ≡ new_state h (h.to_fr (reduce request.base_commitment)) value false =
        ap (λ k. k.state) (sym e) in
      let s1 = hash_rounds h 52 0 a0.state in
      let a1 : BaseCommitmentHashingAccount F U M = record a0 {
        state = s1;
        instruction = 1;
        round = 52;
      } in
      let s2 = hash_rounds h 13 52 s1 in
      let a2 : BaseCommitmentHashingAccount F U M = record a1 {
        state = s2;
        instruction = 2;
        round = 65;
      } in
      (
        a1,
        a2,
        call_after a0 0 52 0 none start active (omega arith) refl (omega arith),
        call_after a1 1 13 52 refl refl active (omega arith) refl (omega arith),
        record {
          finished = refl;
          hash =
              ap (result h) (hash_rounds-after h 52 13 0 a0.state ∙ ap (hash_rounds h 65 0) inputs);
          version = ap (λ k. k.fee_version) (sym e);
          rate = ap (λ k. k.min_batching_rate) (sym e);
          active = active;
        },
        >>=-ok (λ _. compute_base_commitment_hash_partial h a2) (guard-ok _ active) refl,
      )
