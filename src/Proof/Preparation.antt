-- ===== src/Proof/Preparation.antt =====
-- elusiv/src/proof/verifier.rs: the preparation of the public inputs, in calls of several rounds. `F` is the
-- base field, `A` the type of affine points; the operations on points are those of the curve's library.
-- The RAM is the list of its values. A public input is its 32 bytes.
pub mod Sums
pub mod Rounds
pub mod Calls
pub mod Instructions
use elusiv.Base.{
  ltb, ◌==◌, if◌then◌else◌, length, replicate, ◌>>=◌, ◌>>◌, ElusivError, ProgramError, Result, ok,
  panic, sub_u64, read, write, ℕ, zero, suc, ◌+◌, ◌*◌, ◌/◌, ◌%◌, Option, none, some, List, [], ◌∷◌,
  ◌++◌,
}
use elusiv.Bytes.Find.{eq_bytes}
use elusiv.Computation.{Batching, batch_rounds, no_batching, finish}

pub record G1Projective (F : Type 0) : Type 0 where
  pub x : F
  pub y : F
  pub z : F

pub record Curve (F A : Type 0) : Type 0 where
  pub zero_point : G1Projective F
  pub add_mixed : G1Projective F → A → G1Projective F
  pub add_points : G1Projective F → G1Projective F → G1Projective F
  pub into_affine : G1Projective F → A

-- What the preparation reads of a verifying key.
pub record InputsKey (F A : Type 0) : Type 0 where
  pub public_inputs_count : ℕ
  pub gamma_abc_base : G1Projective F
  pub gamma_abc : ℕ → ℕ → ℕ → A

abbrev pub prepare_public_inputs_rounds : ℕ → ℕ
prepare_public_inputs_rounds public_inputs_count = 33 * public_inputs_count

abbrev pub zero_input : List ℕ
zero_input = replicate 32 0

module _ {F : Type 0} where
  -- `read_g1_p!`.
  unfoldable pub read_g1_projective : List F → ℕ → Result ElusivError (G1Projective F)
  read_g1_projective ram offset = do
    x ← read ram offset
    y ← read ram (offset + 1)
    z ← read ram (offset + 2)
    ok (record { x = x; y = y; z = z })

  unfoldable pub write_g1_projective : List F → G1Projective F → ℕ → Result ElusivError (List F)
  write_g1_projective ram p offset = do
    ram1 ← write ram offset p.x
    ram2 ← write ram1 (offset + 1) p.y
    write ram2 (offset + 2) p.z

-- The variables of the loop, and the RAM. `returned` is the point with which it returns early.
pub record Preparing (F A : Type 0) : Type 0 where
  pub ram : List F
  pub acc : G1Projective F
  pub input_index : ℕ
  pub public_input : List ℕ
  pub returned : Option A

module _ {F A : Type 0} where
  -- The end of a call, which a return skips.
  unfoldable pub keep_acc :
      Option A → List F → G1Projective F → Result ElusivError (List F × Option A)
  unfolding write_g1_projective
  keep_acc (some p) ram acc = ok (ram, some p)
  keep_acc none ram acc = write_g1_projective ram acc 3 >>= λ ram'. ok (ram', none)

module _ {F A : Type 0} (c : Curve F A) (vkey : InputsKey F A) (inputs : List (List ℕ)) where
  -- The addition of an input's points, and the step to the next input.
  unfoldable pub add_input : Preparing F A → Result ElusivError (Preparing F A)
  unfolding read_g1_projective write_g1_projective
  add_input s = do
    before ← (if s.input_index == 0 then ok vkey.gamma_abc_base else read_g1_projective s.ram 0)
    let g_ic = if eq_bytes s.public_input zero_input then before else c.add_points before s.acc
    (if ltb s.input_index (sub_u64 vkey.public_inputs_count 1)
        then (do
          ram' ← write_g1_projective s.ram g_ic 0
          next ← read inputs (s.input_index + 1)
          ok (record s { ram = ram'; input_index = s.input_index + 1; public_input = next }))
        else ok (record s { returned = some (c.into_affine g_ic) }))

  unfoldable pub preparation_round : ℕ → Preparing F A → Result ElusivError (Preparing F A)
  unfolding add_input
  preparation_round round s =
      let r = round % 33 in
      let acc = if r == 0 then c.zero_point else s.acc in
      if ltb r 32
      then (read s.public_input r >>= λ window.
          ok (record s { acc = c.add_mixed acc (vkey.gamma_abc s.input_index r window) }))
      else add_input (record s { acc = acc })

  -- The loop from the round `round` on, `count` rounds, which a return ends.
  unfoldable pub preparation_rounds : ℕ → ℕ → Preparing F A → Result ElusivError (Preparing F A)
  unfolding preparation_round
  preparation_rounds zero round s = ok s
  preparation_rounds (suc count) round s = preparation_round round s >>= λ s'. elim s'.returned [
    | some p ↦ ok s'
    | none ↦ preparation_rounds count (suc round) s'
  ]

  -- The RAM after the call, and its result.
  unfoldable pub prepare_public_inputs_partial :
      ℕ → ℕ → List F → Result ElusivError (List F × Option A)
  unfolding read_g1_projective preparation_rounds keep_acc
  prepare_public_inputs_partial round rounds ram = do
    acc ← read_g1_projective ram 3
    public_input ← read inputs (round / 33)
    s ← preparation_rounds rounds round (record {
      ram = ram;
      acc = acc;
      input_index = round / 33;
      public_input = public_input;
      returned = none;
    })
    keep_acc s.returned s.ram s.acc

module _ {F A : Type 0} (c : Curve F A) (vkey : InputsKey F A) where
  -- The points of the windows of the input `i`, from the window `j` on.
  unfoldable pub add_windows : ℕ → ℕ → List ℕ → G1Projective F → G1Projective F
  add_windows i j [] acc = acc
  add_windows i j (window ∷ windows) acc =
      add_windows i (suc j) windows (c.add_mixed acc (vkey.gamma_abc i j window))

  unfoldable pub add_inputs : ℕ → List (List ℕ) → G1Projective F → G1Projective F
  unfolding add_windows
  add_inputs i [] g_ic = g_ic
  add_inputs i (input ∷ inputs) g_ic = add_inputs (suc i) inputs (
      if eq_bytes input zero_input
      then g_ic
      else c.add_points g_ic (add_windows i 0 input c.zero_point))

  unfoldable pub precomputed_input_preparation : List (List ℕ) → Option A
  unfolding add_inputs
  precomputed_input_preparation inputs =
      if length inputs == vkey.public_inputs_count
      then some (c.into_affine (add_inputs 0 inputs vkey.gamma_abc_base))
      else none

abbrev pub add_mixed_cost : ℕ
add_mixed_cost = 22

abbrev pub add_cost : ℕ
add_cost = 30

abbrev pub max_preparation_cus : ℕ
max_preparation_cus = 1330

-- The costs of the rounds of an input.
unfoldable pub window_costs : List ℕ → List ℕ
window_costs [] = []
window_costs (window ∷ windows) = (if window == 0 then 0 else add_mixed_cost) ∷ window_costs windows

unfoldable pub input_costs : List (List ℕ) → List ℕ
unfolding window_costs
input_costs [] = []
input_costs (input ∷ inputs) =
    window_costs input ++ ((if eq_bytes input zero_input then 0 else add_cost) ∷ input_costs inputs)

-- The loop and its end are those of `compute_unit_instructions`, at the cost of each round.
unfoldable pub prepare_public_inputs_instructions : List (List ℕ) → ℕ → Result ProgramError (List ℕ)
unfolding input_costs batch_rounds finish
prepare_public_inputs_instructions inputs public_inputs_count =
    let costs = input_costs inputs in
    let b = batch_rounds max_preparation_cus no_batching costs in
    if length inputs == public_inputs_count
    then (if length costs == prepare_public_inputs_rounds public_inputs_count
        then ok (finish b.instructions b.rounds)
        else panic)
    else panic
