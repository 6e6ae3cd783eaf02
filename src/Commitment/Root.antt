-- ===== src/Commitment/Root.antt =====
-- The hashes of a batch, from the reset of the account to the last call.
use elusiv.Base.{
  leb, Bool-cases, length, get_elem?, take, guard, >>=-eq-ok, ok_injective, ProgramError, ok,
  write_all, length-write_all, write_all-value, ℕ, ◌+◌, ◌^◌, ◌≤◌, ◌<◌, ◌≡◌, refl, sym, ap, ◌∙◌,
  subst, inl, inr, true, not, List, arith,
}
use elusiv.Computation.Budget.{total}
use elusiv.Poseidon.{Hasher, hash_rounds}
use elusiv.Commitment.{max_ht_size, mt_height, commitment_hash_computation_instructions}
use elusiv.Commitment.Account.{CommitmentHashingAccount, reset, next_hashing_state}
use elusiv.Commitment.Inputs.{hash_inputs, next_hashing_state_lem}
use elusiv.Commitment.Progress.{hash_count, IsFinished, IsComputing}
use elusiv.Commitment.Schedule.{IsSchedule-exists}
use elusiv.Commitment.Calls.{IsBetween, compute_calls, compute_calls_return, performed-IsFinished}
use elusiv.Commitment.Frame.{calls-IsFrame}

module _ {ℓ κ} {F : Type ℓ} {U : Type κ} (h : Hasher F U) where
  -- An account that has been set up: its arrays have their sizes, and nothing is computed yet.
  pub record IsFresh (a : CommitmentHashingAccount F U) : Type 0 where
    pub tree_size : length a.hash_tree ≡ max_ht_size
    pub above_size : length a.above_hashes ≡ mt_height
    pub siblings_size : length a.siblings ≡ mt_height
    pub no_instruction : a.instruction ≡ 0
    pub no_round : a.round ≡ 0

  -- What a reset that returns has written.
  record IsReset (a a0 : CommitmentHashingAccount F U) (r : ℕ) (commitments : List U)
      : Type (ℓ ⊔ κ) where
    rate : a0.batching_rate ≡ r
    instruction : a0.instruction ≡ a.instruction
    round : a0.round ≡ a.round
    tree_size : length a0.hash_tree ≡ length a.hash_tree
    above : a0.above_hashes ≡ a.above_hashes
    siblings : a0.siblings ≡ a.siblings
    leaves : (i : ℕ) → i < length commitments → get_elem? a0.hash_tree i ≡ get_elem? commitments i
    start : next_hashing_state h a0 0 ≡ ok a0.state

  reset_parts :
      (a a0 : CommitmentHashingAccount F U) (r version : ℕ) (commitments : List U)
      → reset h a r version commitments ≡ ok a0
      → IsReset a a0 r commitments
  unfolding reset next_hashing_state
  reset_parts a a0 r version commitments e =
      let (u, x, e) = >>=-eq-ok (guard (not a.is_active) _) _ e in
      let (u, x, e) = >>=-eq-ok (guard a.is_setup _) _ e in
      elim (Bool-cases (leb (length commitments) max_ht_size)) [
        | inr b ↦ let q = rw b at e in cc
        | inl b ↦
            let q = rw b at e in
            let (tree, g, q) = >>=-eq-ok (write_all a.hash_tree 0 commitments) _ q in
            let a' : CommitmentHashingAccount F U = record a {
              is_active = true;
              fee_version = version;
              batching_rate = r;
              hash_tree = tree;
            } in
            let (s, f, q) = >>=-eq-ok (next_hashing_state h a' 0) _ q in
            subst (λ k. IsReset a k r commitments) (ok_injective q)
              (record {
                rate = refl;
                instruction = refl;
                round = refl;
                tree_size = length-write_all {E = ProgramError} a.hash_tree 0 commitments g;
                above = refl;
                siblings = refl;
                leaves = λ i l.
                    let here : i ≡ 0 + i = omega arith in
                    ap (get_elem? tree) here
                    ∙ write_all-value {E = ProgramError} a.hash_tree 0 commitments i g l;
                start = f;
              })
      ]

  reset-IsBetween :
      (a a0 : CommitmentHashingAccount F U) (r version : ℕ) (commitments : List U)
      (instructions : List ℕ)
      → IsFresh a
      → r ≤ 4
      → reset h a r version commitments ≡ ok a0
      → IsBetween h r instructions a0
  unfolding total hash_rounds
  reset-IsBetween a a0 r version commitments instructions fresh small e =
      let p = reset_parts a a0 r version commitments e in
      let zero_round : a0.round ≡ 0 = p.round ∙ fresh.no_round in
      let zero_instruction : a0.instruction ≡ 0 = p.instruction ∙ fresh.no_instruction in
      let inputs : hash_inputs h a0 (2 ^ r) 0 ≡ ok a0.state =
        ap (λ k. hash_inputs h a0 (2 ^ k) 0) (sym p.rate)
        ∙ sym (next_hashing_state_lem h a0 0 (omega (arith, p.rate)))
        ∙ p.start in
      let begun : IsComputing h r a0 a0.state 0 = record {
        sized = record {
          rate = p.rate;
          small = small;
          tree_size = p.tree_size ∙ fresh.tree_size;
          above_size = ap length p.above ∙ fresh.above_size;
          siblings_size = ap length p.siblings ∙ fresh.siblings_size;
        };
        finished = λ i l. absurd (omega arith);
        current = λ l. record { inputs = a0.state; from_tree = inputs; hashing = refl };
      } in
      record {
        computing = subst (IsComputing h r a0 a0.state) (sym zero_round) begun;
        performed = zero_round ∙ ap (λ k. total (take k instructions)) (sym zero_instruction);
        within = omega arith;
      }

  -- After a reset of a fresh account with a batch of a rate up to 4, as many calls as the table has
  -- instructions all return. Then the leaves of the hash tree are the commitments, each node of the tree
  -- above them is the full hash of its two children, and each hash above the tree is the full hash of
  -- the one below and a sibling.
  pub compute_calls-IsFinished :
      (a a0 : CommitmentHashingAccount F U) (r version : ℕ) (commitments : List U)
      → IsFresh a
      → r ≤ 4
      → 2 ^ r ≤ length commitments
      → reset h a r version commitments ≡ ok a0
      → (instructions : List ℕ) × (a1 : CommitmentHashingAccount F U)
        × (commitment_hash_computation_instructions r ≡ ok instructions)
        × (compute_calls h (length instructions) a0 ≡ ok a1)
        × ((i : ℕ) → i < hash_count r → IsFinished h a1 (2 ^ r) i)
        × ((i : ℕ) → i < 2 ^ r → get_elem? a1.hash_tree i ≡ get_elem? commitments i)
  compute_calls-IsFinished a a0 r version commitments fresh small enough e =
      let p = reset_parts a a0 r version commitments e in
      let (instructions, s) = IsSchedule-exists r small in
      let b = reset-IsBetween a a0 r version commitments instructions fresh small e in
      let (a1, f, b1, end) =
        compute_calls_return h (length instructions) r instructions a0 s b
          (omega (arith, p.instruction, fresh.no_instruction)) in
      let frame = calls-IsFrame h (length instructions) a0 a1 f in
      (
        instructions,
        a1,
        s.table,
        f,
        λ i inside. performed-IsFinished h r instructions a1 i s b1 end inside,
        λ i leaf.
            frame.leaves i (subst (λ k. i < 2 ^ k) (sym p.rate) leaf) ∙ p.leaves i (omega arith),
      )
