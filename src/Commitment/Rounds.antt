-- ===== src/Commitment/Rounds.antt =====
-- The rounds of a batch: each call of the loop's body keeps the account in step with the hashes.
use elusiv.Base.{
  ◌==◌, lt→ltb, ge→ltb, >>=-ok, ProgramError, ok, two_pow, ℕ, zero, suc, ◌+◌, ◌-◌, ◌*◌, ◌/◌, ◌%◌,
  ◌^◌, ◌≤◌, ◌<◌, ◌≡◌, refl, ap, ◌∙◌, subst, ◌≢◌, false, arith, dec_lt, ℕ_discrete,
}
use elusiv.Poseidon.{HashingState, Hasher, result, hash_rounds}
use elusiv.Commitment.{mt_height, hash_count_per_batch}
use elusiv.Commitment.Account.{
  CommitmentHashingAccount, next_hashing_state, save_finished_hash, compute_round, compute_rounds,
}
use elusiv.Commitment.Inputs.{hash_inputs, next_hashing_state_lem}
use elusiv.Commitment.Hashes.{saved, save_finished_hash_lem}
use elusiv.Commitment.Progress.{
  hash_count, IsFinished, IsSized, IsComputing, hash_rounds_snoc, sized-IsRoomy, inputs_exist,
  saved-IsSized, saved-IsFinished,
}

module _ {ℓ κ} {F : Type ℓ} {U : Type κ} (h : Hasher F U) where
  two_pow_small :
      (a : CommitmentHashingAccount F U) (r : ℕ)
      → IsSized h r a
      → two_pow {E = ProgramError} a.batching_rate ≡ ok (2 ^ r)
  two_pow_small a r z =
      rw (lt→ltb a.batching_rate 64 (omega (arith, z.rate, z.small))) (ap (λ k. ok (2 ^ k)) z.rate)

  hash_count_small :
      (a : CommitmentHashingAccount F U) (r : ℕ)
      → IsSized h r a
      → hash_count_per_batch {E = ProgramError} a.batching_rate ≡ ok (hash_count r)
  hash_count_small a r z =
      >>=-ok _ (two_pow_small a r z) (ap (λ k. ok (2 ^ r - 1 + mt_height - k)) z.rate)

  next_state :
      (r : ℕ) (a : CommitmentHashingAccount F U) (i : ℕ)
      → IsSized h r a
      → i < hash_count r
      → (s : HashingState F) × (next_hashing_state h a i ≡ ok s)
        × (hash_inputs h a (2 ^ r) i ≡ ok s)
  next_state r a i z inside =
      let (s, e) = inputs_exist h r a i z inside in
      (
        s,
        next_hashing_state_lem h a i (omega (arith, z.rate, z.small))
            ∙ ap (λ k. hash_inputs h a (2 ^ k) i) z.rate
            ∙ e,
        e,
      )

  -- A round within a hash.
  round_within :
      (r : ℕ) (a : CommitmentHashingAccount F U) (s : HashingState F) (round : ℕ)
      → IsComputing h r a s round
      → round < 65 * hash_count r
      → round % 65 ≢ 64
      → IsComputing h r a (h.hash_round (round % 65) s) (suc round)
  round_within r a s round c inside ne =
      let same : suc round / 65 ≡ round / 65 = omega arith in
      let next : suc round % 65 ≡ suc (round % 65) = omega arith in
      let now = c.current inside in
      record {
        sized = c.sized;
        finished = λ i hi. c.finished i (omega arith);
        current = λ _. record {
          inputs = now.inputs;
          from_tree = rw same now.from_tree;
          hashing = rw (next, now.hashing) (hash_rounds_snoc h (round % 65) now.inputs);
        };
      }

  hash_rounds_none : (s : HashingState F) → s ≡ hash_rounds h 0 0 s
  unfolding hash_rounds
  hash_rounds_none s = refl

  -- The round that ends the hash `n`.
  round_end :
      (r : ℕ) (a : CommitmentHashingAccount F U) (s : HashingState F) (round : ℕ)
      → IsComputing h r a s round
      → round < 65 * hash_count r
      → round % 65 ≡ 64
      → (p : CommitmentHashingAccount F U × HashingState F) × (compute_round h a s round ≡ ok p)
        × IsComputing h r p.0 p.1 (suc round)
  unfolding compute_round
  round_end r a s round c inside e =
      let n = round / 65 in
      let now = c.current inside in
      let s' = hash_rounds h 65 0 now.inputs in
      let v = h.to_u256 (result h s') in
      let a' = saved a (2 ^ r) n v in
      let place : n < hash_count r = omega arith in
      let z' = saved-IsSized h r a (2 ^ r) n v c.sized in
      let hashed : h.hash_round 64 s ≡ s' =
        ap (h.hash_round 64) (now.hashing ∙ ap (λ k. hash_rounds h k 0 now.inputs) e)
        ∙ hash_rounds_snoc h 64 now.inputs in
      let save : save_finished_hash h a n (h.hash_round 64 s) ≡ ok a' =
        ap (save_finished_hash h a n) hashed
        ∙ save_finished_hash_lem h a (2 ^ r) n s' (two_pow_small a r c.sized)
            (sized-IsRoomy h r a n c.sized place) in
      let done : (i : ℕ) → i < suc round / 65 → IsFinished h a' (2 ^ r) i = λ i hi.
        saved-IsFinished h r a n i now.inputs c.sized place now.from_tree c.finished
          (omega arith) in
      elim (dec_lt n (hash_count r - 1)) [
        | yes more ↦
            let (s'', e1, e2) = next_state r a' (n + 1) z' (omega arith) in
            let next : suc round / 65 ≡ n + 1 = omega arith in
            let start : suc round % 65 ≡ 0 = omega arith in
            rw e (
              (a', s''),
              >>=-ok _ save (
                  >>=-ok _ (hash_count_small a r c.sized)
                    (rw (lt→ltb n (hash_count r - 1) more) (>>=-ok _ e1 refl))),
              record {
                sized = z';
                finished = done;
                current = λ _. record {
                  inputs = s'';
                  from_tree = rw next e2;
                  hashing = rw start (hash_rounds_none s'');
                };
              },
            )
        | no last ↦ rw e (
          (a', h.hash_round 64 s),
          >>=-ok _ save (
              >>=-ok _ (hash_count_small a r c.sized)
                (rw (ge→ltb n (hash_count r - 1) (omega arith)) refl)),
          record { sized = z'; finished = done; current = λ l. absurd (omega arith) },
        )
      ]

  pub compute_round-IsComputing :
      (r : ℕ) (a : CommitmentHashingAccount F U) (s : HashingState F) (round : ℕ)
      → IsComputing h r a s round
      → round < 65 * hash_count r
      → (p : CommitmentHashingAccount F U × HashingState F) × (compute_round h a s round ≡ ok p)
        × IsComputing h r p.0 p.1 (suc round)
  unfolding compute_round
  compute_round-IsComputing r a s round c inside = elim (ℕ_discrete (round % 65) 64) [
    | yes e ↦ round_end r a s round c inside e
    | no ne ↦
        let within : (round % 65 == 64) ≡ false = ground arith in
        rw within ((a, h.hash_round (round % 65) s), refl, round_within r a s round c inside ne)
  ]

  -- The rounds of a call go on from where the call before has stopped.
  pub compute_rounds-IsComputing :
      (count r : ℕ) (a : CommitmentHashingAccount F U) (s : HashingState F) (round : ℕ)
      → IsComputing h r a s round
      → round + count ≤ 65 * hash_count r
      → (p : CommitmentHashingAccount F U × HashingState F) × (compute_rounds h count a s round
          ≡ ok p)
        × IsComputing h r p.0 p.1 (round + count)
  unfolding compute_rounds
  compute_rounds-IsComputing zero r a s round c inside =
      let e : round ≡ round + 0 = omega arith in ((a, s), refl, subst (IsComputing h r a s) e c)
  compute_rounds-IsComputing (suc count) r a s round c inside =
      let (p, e, c') = compute_round-IsComputing r a s round c (omega arith) in
      let (q, f, d) = compute_rounds-IsComputing count r p.0 p.1 (suc round) c' (omega arith) in
      let sum : suc round + count ≡ round + suc count = omega arith in
      (q, >>=-ok _ e f, subst (IsComputing h r q.0 q.1) sum d)
