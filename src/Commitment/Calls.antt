-- ===== src/Commitment/Calls.antt =====
-- The calls that compute the hashes of a batch, from the first instruction of the table to the last.
use elusiv.Base.{
  lt→ltb, le→leb, length, take, take_all, get_elem?_in_range, ◌>>=◌, >>=-ok, guard-ok, unwrap-ok,
  ProgramError, Result, ok, add_u32, ℕ, zero, suc, ◌+◌, ◌-◌, ◌*◌, ◌^◌, ◌≤◌, ◌<◌, ◌≡◌, refl, sym, ap,
  ◌∙◌, subst, List, arith,
}
use elusiv.Computation.Budget.{total}
use elusiv.Computation.Hashes.{total_take, total_take_le}
use elusiv.Poseidon.{Hasher, HashingState}
use elusiv.Commitment.{commitment_hash_computation_instructions, commitment_hash_computation_rounds}
use elusiv.Commitment.Account.{
  CommitmentHashingAccount, compute_rounds, compute_commitment_hash_partial,
}
use elusiv.Commitment.Inputs.{hash_inputs}
use elusiv.Commitment.Hashes.{node}
use elusiv.Commitment.Progress.{hash_count, IsFinished, IsComputing}
use elusiv.Commitment.Rounds.{compute_rounds-IsComputing}
use elusiv.Commitment.Schedule.{IsSchedule, hash_count_small}

module _ {ℓ κ} {F : Type ℓ} {U : Type κ} (h : Hasher F U) where
  -- Between two calls: the instructions before have been performed.
  pub record IsBetween (r : ℕ) (instructions : List ℕ) (a : CommitmentHashingAccount F U)
      : Type (ℓ ⊔ κ) where
    pub computing : IsComputing h r a a.state a.round
    pub performed : a.round ≡ total (take a.instruction instructions)
    pub within : a.instruction ≤ length instructions

  stored-IsComputing :
      (r : ℕ) (a : CommitmentHashingAccount F U) (s : HashingState F) (round i : ℕ)
      → IsComputing h r a s round
      → IsComputing h r (record a { state = s; instruction = i; round = round }) s round
  unfolding hash_inputs node
  stored-IsComputing r a s round i c = record {
    sized = record {
      rate = c.sized.rate;
      small = c.sized.small;
      tree_size = c.sized.tree_size;
      above_size = c.sized.above_size;
      siblings_size = c.sized.siblings_size;
    };
    finished = λ j hj.
        let f = c.finished j hj in
        record { inputs = f.inputs; from_tree = f.from_tree; hashed = f.hashed };
    current = λ l.
        let n = c.current l in
        record { inputs = n.inputs; from_tree = n.from_tree; hashing = n.hashing };
  }

  -- A call performs the next instruction of the table and returns, while there is one.
  pub compute_commitment_hash_partial_returns :
      (r : ℕ) (instructions : List ℕ) (a : CommitmentHashingAccount F U)
      → IsSchedule r instructions
      → IsBetween r instructions a
      → a.instruction < length instructions
      → (a' : CommitmentHashingAccount F U) × (compute_commitment_hash_partial h a ≡ ok a')
        × IsBetween r instructions a'
        × (a'.instruction ≡ suc a.instruction)
  unfolding compute_commitment_hash_partial
  compute_commitment_hash_partial_returns r instructions a s b more =
      let rate = b.computing.sized.rate in
      let (n, e) = get_elem?_in_range instructions a.instruction more in
      let sum = total_take instructions a.instruction n e in
      let bound = total_take_le instructions (suc a.instruction) in
      let few = hash_count_small r b.computing.sized.small in
      let inside : a.round + n ≤ 65 * hash_count r = omega (arith, s.all, b.performed) in
      let end : add_u32 a.round n ≡ a.round + n = omega arith in
      let (p, f, c) = compute_rounds-IsComputing h n r a a.state a.round b.computing inside in
      let count : add_u32 a.round n - a.round ≡ n = omega arith in
      let step : add_u32 a.instruction 1 ≡ suc a.instruction = omega (arith, s.short) in
      let performed : add_u32 a.round n ≡ total (take (add_u32 a.instruction 1) instructions) =
        end ∙ omega (arith, sum, b.performed) ∙ ap (λ k. total (take k instructions)) (sym step) in
      (
        record p.0 {
          state = p.1;
          instruction = add_u32 a.instruction 1;
          round = add_u32 a.round n;
        },
        >>=-ok _ (ap commitment_hash_computation_instructions rate ∙ s.table) (
            >>=-ok _ (guard-ok _ (lt→ltb _ _ more)) (
              >>=-ok _ (unwrap-ok e) (
                >>=-ok _ (ap commitment_hash_computation_rounds rate ∙ s.rounds) (
                  >>=-ok _
                    (guard-ok _
                      (le→leb (add_u32 a.round n) (65 * hash_count r) (omega (arith, end))))
                    (>>=-ok _ (ap (λ k. compute_rounds h k a a.state a.round) count ∙ f) refl))))),
        record {
          computing =
              subst
                (λ k.
                  IsComputing h r
                    (record p.0 { state = p.1; instruction = add_u32 a.instruction 1; round = k })
                    p.1 k)
                (sym end) (stored-IsComputing r p.0 p.1 (a.round + n) (add_u32 a.instruction 1) c);
          performed = performed;
          within = omega (arith, step);
        },
        step,
      )

  -- That many calls, one after the other.
  unfoldable pub compute_calls :
      ℕ → CommitmentHashingAccount F U → Result ProgramError (CommitmentHashingAccount F U)
  unfolding compute_commitment_hash_partial
  compute_calls zero a = ok a
  compute_calls (suc n) a = compute_commitment_hash_partial h a >>= λ a'. compute_calls n a'

  pub compute_calls_return :
      (n r : ℕ) (instructions : List ℕ) (a : CommitmentHashingAccount F U)
      → IsSchedule r instructions
      → IsBetween r instructions a
      → a.instruction + n ≡ length instructions
      → (a' : CommitmentHashingAccount F U) × (compute_calls n a ≡ ok a')
        × IsBetween r instructions a'
        × (a'.instruction ≡ length instructions)
  unfolding compute_calls
  compute_calls_return zero r instructions a s b e = (a, refl, b, omega arith)
  compute_calls_return (suc n) r instructions a s b e =
      let (a', f, b', next) =
        compute_commitment_hash_partial_returns r instructions a s b (omega arith) in
      let (c, g, d, end) = compute_calls_return n r instructions a' s b' (omega (arith, next)) in
      (c, >>=-ok _ f g, d, end)

  -- Once the last instruction of the table is performed, every hash of the batch is finished.
  pub performed-IsFinished :
      (r : ℕ) (instructions : List ℕ) (a : CommitmentHashingAccount F U) (i : ℕ)
      → IsSchedule r instructions
      → IsBetween r instructions a
      → a.instruction ≡ length instructions
      → i < hash_count r
      → IsFinished h a (2 ^ r) i
  performed-IsFinished r instructions a i s b end inside =
      let everything : total (take a.instruction instructions) ≡ total instructions =
        ap total (ap (λ k. take k instructions) end ∙ take_all instructions) in
      b.computing.finished i (omega (arith, b.performed, everything, s.all))
