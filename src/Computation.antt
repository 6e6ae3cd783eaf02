-- ===== src/Computation.antt =====
-- shared/elusiv-computation/src/lib.rs: how the rounds of a computation are put into instructions; and
-- shared/elusiv-proc-macros/src/elusiv_hash_compute_units.rs: the instructions of a number of hashes.
pub mod Budget
pub mod Agreement
pub mod Hashes
mod Tests
use elusiv.Base.{
  ltb, leb, ◌==◌, if◌then◌else◌, ◌>>=◌, ProgramError, Result, ok, panic, u16_mod, add_u32, sub_u32,
  ℕ, zero, suc, ◌+◌, ◌-◌, ◌*◌, ◌%◌, ◌&&◌, List, [], ◌∷◌, ◌++◌,
}

abbrev pub max_compute_unit_limit : ℕ
max_compute_unit_limit = 1_400_000

-- `COMPUTE_UNIT_PADDING` of the library.
abbrev pub compute_unit_padding : ℕ
compute_unit_padding = 10_000

pub record PartialComputationResult : Type 0 where
  pub instructions : List ℕ
  pub total_rounds : ℕ
  pub total_compute_units : ℕ

-- The variables of the loop of `compute_unit_optimization`.
pub record Optimization : Type 0 where
  pub instructions : List ℕ
  pub rounds : ℕ
  pub start_round : ℕ
  pub compute_units : ℕ
  pub total_compute_units : ℕ

unfoldable pub optimize_round : ℕ → Optimization → ℕ → Optimization
optimize_round max_cus o r =
    let total = add_u32 o.total_compute_units r in
    if ltb max_cus (add_u32 o.compute_units r)
    then record {
      instructions = o.instructions ++ o.rounds ∷ [];
      rounds = 1;
      start_round = add_u32 o.start_round o.rounds;
      compute_units = r;
      total_compute_units = total;
    }
    else record o {
      rounds = add_u32 o.rounds 1;
      compute_units = add_u32 o.compute_units r;
      total_compute_units = total;
    }

unfoldable pub optimize : ℕ → Optimization → List ℕ → Optimization
unfolding optimize_round
optimize max_cus o [] = o
optimize max_cus o (r ∷ rs) = optimize max_cus (optimize_round max_cus o r) rs

-- The rounds that are left make the last instruction.
unfoldable pub finish : List ℕ → ℕ → List ℕ
finish instructions rounds = if ltb 0 rounds then instructions ++ rounds ∷ [] else instructions

abbrev pub no_optimization : Optimization
no_optimization = record {
  instructions = [];
  rounds = 0;
  start_round = 0;
  compute_units = 0;
  total_compute_units = 0;
}

unfoldable pub compute_unit_optimization : List ℕ → ℕ → Result ProgramError PartialComputationResult
unfolding optimize finish
compute_unit_optimization round_costs max_cus =
    let o = optimize (sub_u32 max_cus compute_unit_padding) no_optimization round_costs in
    let total_rounds = add_u32 o.start_round o.rounds in
    if ltb total_rounds u16_mod
    then ok (record {
      instructions = finish o.instructions o.rounds;
      total_rounds = total_rounds;
      total_compute_units = o.total_compute_units;
    })
    else panic

-- The variables of the loop of `compute_unit_instructions`.
pub record Batching : Type 0 where
  pub instructions : List ℕ
  pub rounds : ℕ
  pub compute_units : ℕ

unfoldable pub batch_round : ℕ → Batching → ℕ → Batching
batch_round max_cus b r =
    if ltb max_cus (add_u32 b.compute_units r)
    then record { instructions = b.instructions ++ b.rounds ∷ []; rounds = 1; compute_units = r }
    else record b { rounds = add_u32 b.rounds 1; compute_units = add_u32 b.compute_units r }

unfoldable pub batch_rounds : ℕ → Batching → List ℕ → Batching
unfolding batch_round
batch_rounds max_cus b [] = b
batch_rounds max_cus b (r ∷ rs) = batch_rounds max_cus (batch_round max_cus b r) rs

abbrev pub no_batching : Batching
no_batching = record { instructions = []; rounds = 0; compute_units = 0 }

unfoldable pub compute_unit_instructions : List ℕ → ℕ → List ℕ
unfolding batch_rounds finish
compute_unit_instructions round_costs max_cus =
    let b =
      batch_rounds (sub_u32 max_cus compute_unit_padding)
        (record { instructions = []; rounds = 0; compute_units = 0 }) round_costs in
    finish b.instructions b.rounds

-- `COMPUTE_UNIT_PADDING` of the macro.
abbrev pub hash_compute_unit_padding : ℕ
hash_compute_unit_padding = 20_000

abbrev pub full_rounds_cus : ℕ
full_rounds_cus = 15_411 + 17_740 + 600

abbrev pub partial_rounds_cus : ℕ
partial_rounds_cus = 5_200 + 17_740 + 600

abbrev pub round_cost : ℕ → ℕ
round_cost round = if leb 4 round && ltb round 61 then partial_rounds_cus else full_rounds_cus

-- The costs of the rounds from `round` on, `count` of them.
unfoldable pub hash_round_costs : ℕ → ℕ → List ℕ
hash_round_costs round zero = []
hash_round_costs round (suc count) = round_cost (round % 65) ∷ hash_round_costs (suc round) count

-- `elusiv_hash_compute_units!` at a number of hashes and a reduction of the compute units.
unfoldable pub hash_compute_units : ℕ → ℕ → Result ProgramError PartialComputationResult
unfolding compute_unit_optimization hash_round_costs
hash_compute_units hashes reduction =
    let max_compute_budget = max_compute_unit_limit - hash_compute_unit_padding - reduction in
    compute_unit_optimization (hash_round_costs 0 (65 * hashes)) max_compute_budget >>= λ result.
    if result.total_rounds == 65 * hashes then ok result else panic
