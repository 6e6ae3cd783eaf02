-- ===== src/Computation/Hashes.antt =====
-- The instructions of a number of hashes.
use elusiv.Base.{
  ltb, leb, ◌==◌, ==_iff, Bool-cases, length, get_elem?, drop, take, length-drop, >>=-ok, ok, ℕ,
  zero, suc, ◌+◌, ◌*◌, ◌%◌, ◌≤◌, ◌≡◌, refl, sym, ap, ◌∙◌, inl, inr, true, ◌&&◌, some, List, [], ◌∷◌,
  arith,
}
use elusiv.Computation.{
  PartialComputationResult, round_cost, hash_round_costs, hash_compute_units,
  compute_unit_instructions,
}
use elusiv.Computation.Budget.{IsSplit, IsBounded, total, compute_unit_instructions-IsSplit}
use elusiv.Computation.Agreement.{
  compute_unit_optimization_returns, length-compute_unit_instructions,
}

-- The instructions of a split take all rounds.
pub IsSplit-total :
    (limit : ℕ) (costs ns : List ℕ) → IsSplit limit costs ns → total ns ≡ length costs
unfolding IsSplit total
IsSplit-total limit costs [] s = sym s
IsSplit-total limit costs (n ∷ ns) (le, cheap, s) =
    omega (arith, IsSplit-total limit (drop n costs) ns s, length-drop n costs)

pub total_take :
    (ns : List ℕ) (i n : ℕ)
    → get_elem? ns i ≡ some n
    → total (take (suc i) ns) ≡ total (take i ns) + n
unfolding total
total_take [] i n e = cc
total_take (x ∷ xs) zero n e = let same : x ≡ n = cc in omega (arith, same)
total_take (x ∷ xs) (suc i) n e = omega (arith, total_take xs i n e)

pub total_take_le : (ns : List ℕ) (i : ℕ) → total (take i ns) ≤ total ns
unfolding total
total_take_le ns zero = omega arith
total_take_le [] (suc i) = omega arith
total_take_le (x ∷ xs) (suc i) = omega (arith, total_take_le xs i)

length-hash_round_costs : (round count : ℕ) → length (hash_round_costs round count) ≡ count
unfolding hash_round_costs
length-hash_round_costs round zero = refl
length-hash_round_costs round (suc count) = ap suc (length-hash_round_costs (suc round) count)

round_cost_bound : (round : ℕ) → round_cost round ≤ 1_370_000
round_cost_bound round = elim (Bool-cases (leb 4 round && ltb round 61)) [
  | inl b ↦ rw b (omega arith)
  | inr b ↦ rw b (omega arith)
]

hash_round_costs-IsBounded : (round count : ℕ) → IsBounded 1_370_000 (hash_round_costs round count)
unfolding hash_round_costs IsBounded
hash_round_costs-IsBounded round zero = tt
hash_round_costs-IsBounded round (suc count) =
    (round_cost_bound (round % 65), hash_round_costs-IsBounded (suc round) count)

-- For up to 1000 hashes the instructions exist, and perform 65 rounds for each hash.
pub hash_compute_units_returns :
    (hashes : ℕ)
    → hashes ≤ 1000
    → (result : PartialComputationResult) × (hash_compute_units hashes 0 ≡ ok result)
      × (total result.instructions ≡ 65 * hashes)
      × (result.total_rounds ≡ 65 * hashes)
      × (length result.instructions ≤ 65 * hashes + 1)
unfolding hash_compute_units
hash_compute_units_returns hashes few =
    let costs = hash_round_costs 0 (65 * hashes) in
    let count : length costs ≡ 65 * hashes = length-hash_round_costs 0 (65 * hashes) in
    let (result, e, same, rounds) =
      compute_unit_optimization_returns costs 1_380_000 (omega (arith, count)) in
    let split =
      compute_unit_instructions-IsSplit costs 1_370_000 (hash_round_costs-IsBounded 0 (65 * hashes))
        (omega arith) (omega (arith, count)) in
    let all : total (compute_unit_instructions costs 1_380_000) ≡ length costs =
      IsSplit-total 1_370_000 costs (compute_unit_instructions costs 1_380_000) split in
    let agree : (result.total_rounds == 65 * hashes) ≡ true = (==_iff _ _).1 (rounds ∙ count) in
    (
      result,
      >>=-ok _ e (rw agree refl),
      ap total same ∙ all ∙ count,
      rounds ∙ count,
      omega (arith, ap length same, count, length-compute_unit_instructions costs 1_380_000),
    )
