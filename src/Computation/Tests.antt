-- ===== src/Computation/Tests.antt =====
-- Three rounds under a limit of 30 units, and the instructions of the hashes.
use elusiv.Base.{ℕ, ◌≡◌, refl, List, [], ◌∷◌, arith}
use elusiv.Computation.{finish, compute_unit_instructions, batch_rounds, batch_round}
use elusiv.Computation.Budget.{IsSplit, IsBounded, compute_unit_instructions-IsSplit}

abbrev costs : List ℕ
costs = 10 ∷ 20 ∷ 15 ∷ []

costs-IsBounded : IsBounded 30 costs
unfolding IsBounded
costs-IsBounded = (omega arith, (omega arith, (omega arith, tt)))

costs_test : compute_unit_instructions costs 10_030 ≡ 2 ∷ 1 ∷ []
unfolding compute_unit_instructions batch_rounds batch_round finish
costs_test = refl

compute_unit_instructions-IsSplit_example :
    IsSplit 30 costs (compute_unit_instructions costs 10_030)
compute_unit_instructions-IsSplit_example =
    compute_unit_instructions-IsSplit costs 30 costs-IsBounded (omega arith) (omega arith)
