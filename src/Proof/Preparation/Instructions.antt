-- ===== src/Proof/Preparation/Instructions.antt =====
-- The instructions of a preparation take all its rounds.
use elusiv.Base.{
  ◌==◌, ==_iff, Bool-cases, length, ok_injective, ok, u32_mod, ℕ, ◌+◌, ◌*◌, ◌<◌, ◌≡◌, sym, ap, ◌∙◌,
  inl, inr, List, [], ◌∷◌, ◌++◌, arith,
}
use elusiv.Computation.{compute_unit_instructions, compute_unit_padding}
use elusiv.Computation.Budget.{total, IsBounded, compute_unit_instructions-IsSplit}
use elusiv.Computation.Hashes.{IsSplit-total}
use elusiv.Computation.Agreement.{length-compute_unit_instructions}
use elusiv.Proof.Preparation.{
  window_costs, input_costs, prepare_public_inputs_instructions, max_preparation_cus,
}

IsBounded-append :
    (limit : ℕ) (xs ys : List ℕ)
    → IsBounded limit xs
    → IsBounded limit ys
    → IsBounded limit (xs ++ ys)
unfolding IsBounded
IsBounded-append limit [] ys h k = k
IsBounded-append limit (x ∷ xs) ys h k = (h.0, IsBounded-append limit xs ys h.1 k)

window_costs-IsBounded : (input : List ℕ) → IsBounded max_preparation_cus (window_costs input)
unfolding IsBounded window_costs
window_costs-IsBounded [] = tt
window_costs-IsBounded (w ∷ ws) = (ground arith, window_costs-IsBounded ws)

input_costs-IsBounded :
    (inputs : List (List ℕ)) → IsBounded max_preparation_cus (input_costs inputs)
unfolding IsBounded input_costs
input_costs-IsBounded [] = tt
input_costs-IsBounded (x ∷ xs) =
    IsBounded-append max_preparation_cus (window_costs x) _ (window_costs-IsBounded x)
      (ground arith, input_costs-IsBounded xs)

-- The table exists and takes all rounds, where the inputs are few.
pub prepare_public_inputs_instructions_lem :
    (inputs : List (List ℕ)) (count : ℕ) (ns : List ℕ)
    → prepare_public_inputs_instructions inputs count ≡ ok ns
    → 33 * count + 1 < u32_mod
    → (total ns ≡ 33 * count) × (length ns < u32_mod)
unfolding prepare_public_inputs_instructions compute_unit_instructions
prepare_public_inputs_instructions_lem inputs count ns h few =
    let costs = input_costs inputs in
    let max_cus = max_preparation_cus + compute_unit_padding in
    elim (Bool-cases (length inputs == count)) [
      | inr wrong ↦ cc (rw wrong at h)
      | inl same ↦
          let h1 = rw same at h in
          elim (Bool-cases (length costs == 33 * count)) [
            | inr wrong ↦ cc (rw wrong at h1)
            | inl full ↦
                let all : length costs ≡ 33 * count = (==_iff _ _).0 full in
                let table : compute_unit_instructions costs max_cus ≡ ns =
                  ok_injective (rw full at h1) in
                let split =
                  compute_unit_instructions-IsSplit costs max_preparation_cus
                    (input_costs-IsBounded inputs) (omega arith) (omega arith) in
                let sum = IsSplit-total max_preparation_cus costs _ split in
                (
                  ap total (sym table) ∙ sum ∙ all,
                  omega
                      (arith, ap length table, all, length-compute_unit_instructions costs max_cus),
                )
          ]
    ]
