-- ===== src/Computation/Agreement.antt =====
-- The two functions that put the rounds of a computation into instructions, beside each other.
use elusiv.Base.{
  ltb, lt→ltb, Bool-cases, length, length-append, ok, u16_mod, u32_mod, add_u32, sub_u32, ℕ, ◌+◌,
  ◌%◌, ◌≤◌, ◌<◌, ◌≡◌, refl, ap, ◌∙◌, inl, inr, true, List, [], ◌∷◌, arith,
}
use elusiv.Computation.{
  PartialComputationResult, Optimization, optimize_round, optimize, finish, no_optimization,
  compute_unit_optimization, Batching, batch_round, batch_rounds, compute_unit_instructions,
  compute_unit_padding, no_batching,
}

forget : Optimization → Batching
forget o = record {
  instructions = o.instructions;
  rounds = o.rounds;
  compute_units = o.compute_units;
}

forget-optimize :
    (limit : ℕ) (o : Optimization) (costs : List ℕ)
    → forget (optimize limit o costs) ≡ batch_rounds limit (forget o) costs
unfolding optimize optimize_round batch_rounds batch_round forget
forget-optimize limit o [] = refl
forget-optimize limit o (r ∷ rs) =
    let step : forget (optimize_round limit o r) ≡ batch_round limit (forget o) r =
      elim (Bool-cases (ltb limit (add_u32 o.compute_units r))) [
        | inl over ↦ rw over refl
        | inr under ↦ rw under refl
      ] in
    forget-optimize limit (optimize_round limit o r) rs ∙ ap (λ b. batch_rounds limit b rs) step

-- The rounds that the loop has gone through, as a `u32`.
optimize_count :
    (limit : ℕ) (o : Optimization) (costs : List ℕ)
    → (let o' = optimize limit o costs in add_u32 o'.start_round o'.rounds)
      ≡ (o.start_round + o.rounds + length costs) % u32_mod
unfolding optimize optimize_round
optimize_count limit o [] = omega arith
optimize_count limit o (r ∷ rs) =
    let step : add_u32 (optimize_round limit o r).start_round (optimize_round limit o r).rounds
        ≡ (o.start_round + o.rounds + 1) % u32_mod =
      elim (Bool-cases (ltb limit (add_u32 o.compute_units r))) [
        | inl over ↦ rw over (omega arith)
        | inr under ↦ rw under (omega arith)
      ] in
    optimize_count limit (optimize_round limit o r) rs ∙ omega (arith, step)

-- For fewer than 2^16 rounds, compute_unit_optimization returns: the instructions are those of
-- compute_unit_instructions, and the total is the number of rounds.
pub compute_unit_optimization_returns :
    (costs : List ℕ) (max_cus : ℕ)
    → length costs < u16_mod
    → (result : PartialComputationResult) × (compute_unit_optimization costs max_cus ≡ ok result)
      × (result.instructions ≡ compute_unit_instructions costs max_cus)
      × (result.total_rounds ≡ length costs)
unfolding compute_unit_optimization compute_unit_instructions forget
compute_unit_optimization_returns costs max_cus few =
    let limit = sub_u32 max_cus compute_unit_padding in
    let o = optimize limit no_optimization costs in
    let count : add_u32 o.start_round o.rounds ≡ length costs =
      optimize_count limit no_optimization costs ∙ omega arith in
    let fits : ltb (add_u32 o.start_round o.rounds) u16_mod ≡ true =
      lt→ltb _ _ (omega (arith, count)) in
    rw fits (
      _,
      refl,
      ap (λ b. finish b.instructions b.rounds) (forget-optimize limit no_optimization costs),
      count,
    )

length-batch_rounds :
    (limit : ℕ) (b : Batching) (costs : List ℕ)
    → length (batch_rounds limit b costs).instructions ≤ length b.instructions + length costs
unfolding batch_rounds batch_round
length-batch_rounds limit b [] = omega arith
length-batch_rounds limit b (r ∷ rs) =
    let step : length (batch_round limit b r).instructions ≤ length b.instructions + 1 =
      elim (Bool-cases (ltb limit (add_u32 b.compute_units r))) [
        | inl over ↦ rw over (omega (arith, length-append b.instructions (b.rounds ∷ [])))
        | inr under ↦ rw under (omega arith)
      ] in
    omega (arith, length-batch_rounds limit (batch_round limit b r) rs)

-- There is at most one instruction more than rounds.
pub length-compute_unit_instructions :
    (costs : List ℕ) (max_cus : ℕ)
    → length (compute_unit_instructions costs max_cus) ≤ length costs + 1
unfolding compute_unit_instructions finish
length-compute_unit_instructions costs max_cus =
    let b = batch_rounds (sub_u32 max_cus compute_unit_padding) no_batching costs in
    let bound = length-batch_rounds (sub_u32 max_cus compute_unit_padding) no_batching costs in
    elim (Bool-cases (ltb 0 b.rounds)) [
      | inl more ↦ rw more (omega (arith, length-append b.instructions (b.rounds ∷ [])))
      | inr none_left ↦ rw none_left (omega arith)
    ]
