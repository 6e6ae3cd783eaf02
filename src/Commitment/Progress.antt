-- ===== src/Commitment/Progress.antt =====
-- The computation of the hashes of a batch, round by round.
use elusiv.Base.{
  ltb, ◌==◌, lt→ltb, ge→ltb, ==_iff, Bool-cases, length, length-set, >>=-ok, ProgramError, ok,
  read-ok, ℕ, zero, suc, ◌+◌, ◌-◌, ◌*◌, ◌/◌, ◌%◌, ◌^◌, ◌≤◌, ◌<◌, ◌≡◌, refl, ◌∙◌, inl, inr, true,
  false, arith, dec_lt, ℕ_discrete,
}
use native.Mathlib.Nat.{pow-le-pow_right, one-le-pow}
use elusiv.Poseidon.{HashingState, Hasher, result, hash_rounds}
use elusiv.Commitment.{mt_height, max_ht_size}
use elusiv.Commitment.Account.{CommitmentHashingAccount}
use elusiv.Commitment.Inputs.{hash_inputs}
use elusiv.Commitment.Hashes.{
  node, saved, IsRoomy, node-saved_self, node-saved_before, hash_inputs-saved,
}

-- The number of hashes of a batch.
abbrev pub hash_count : ℕ → ℕ
hash_count r = 2 ^ r - 1 + mt_height - r

module _ {ℓ κ} {F : Type ℓ} {U : Type κ} (h : Hasher F U) where
  -- The full hash of the inputs that stand in the account, for a hash tree with `w` commitments.
  pub record IsFinished (a : CommitmentHashingAccount F U) (w i : ℕ) : Type (ℓ ⊔ κ) where
    pub inputs : HashingState F
    pub from_tree : hash_inputs h a w i ≡ ok inputs
    pub hashed : node a w i ≡ ok (h.to_u256 (result h (hash_rounds h 65 0 inputs)))

  pub record IsSized (r : ℕ) (a : CommitmentHashingAccount F U) : Type 0 where
    pub rate : a.batching_rate ≡ r
    pub small : r ≤ 4
    pub tree_size : length a.hash_tree ≡ max_ht_size
    pub above_size : length a.above_hashes ≡ mt_height
    pub siblings_size : length a.siblings ≡ mt_height

  -- The hash that the round is in has begun from its inputs.
  pub record IsCurrent (a : CommitmentHashingAccount F U) (w : ℕ) (state : HashingState F)
      (round : ℕ) : Type (ℓ ⊔ κ) where
    pub inputs : HashingState F
    pub from_tree : hash_inputs h a w (round / 65) ≡ ok inputs
    pub hashing : state ≡ hash_rounds h (round % 65) 0 inputs

  -- After `round` rounds at the rate `r`, with `state` at hand.
  pub record IsComputing (r : ℕ) (a : CommitmentHashingAccount F U) (state : HashingState F)
      (round : ℕ) : Type (ℓ ⊔ κ) where
    pub sized : IsSized r a
    pub finished : (i : ℕ) → i < round / 65 → IsFinished a (2 ^ r) i
    pub current : round < 65 * hash_count r → IsCurrent a (2 ^ r) state round

  hash_rounds_next :
      (n k : ℕ) (s : HashingState F)
      → h.hash_round (k + n) (hash_rounds h n k s) ≡ hash_rounds h (suc n) k s
  unfolding hash_rounds
  hash_rounds_next zero k s = let e : k + 0 ≡ k = omega arith in rw e refl
  hash_rounds_next (suc n) k s =
      let e : k + suc n ≡ suc k + n = omega arith in
      rw e (hash_rounds_next n (suc k) (h.hash_round k s))

  pub hash_rounds_snoc :
      (n : ℕ) (s : HashingState F)
      → h.hash_round n (hash_rounds h n 0 s) ≡ hash_rounds h (suc n) 0 s
  hash_rounds_snoc n s = let e : 0 + n ≡ n = omega arith in rw e at (hash_rounds_next n 0 s)

  pub rate_bounds : (r : ℕ) → r ≤ 4 → (0 < 2 ^ r) × (2 ^ r ≤ 16)
  rate_bounds r small =
      (one-le-pow r 2 (omega arith), pow-le-pow_right {n = 2} (omega arith) {i = r} {j = 4} small)

  pub sized-IsRoomy :
      (r : ℕ) (a : CommitmentHashingAccount F U) (i : ℕ)
      → IsSized r a
      → i < hash_count r
      → IsRoomy a (2 ^ r) i
  sized-IsRoomy r a i z h =
      let (one, most) = rate_bounds r z.small in
      record {
        tree = λ low. omega (arith, z.tree_size);
        above = omega (arith, z.above_size, z.small);
      }

  -- A hash of a sized account has inputs.
  pub inputs_exist :
      (r : ℕ) (a : CommitmentHashingAccount F U) (i : ℕ)
      → IsSized r a
      → i < hash_count r
      → (s : HashingState F) × (hash_inputs h a (2 ^ r) i ≡ ok s)
  unfolding hash_inputs
  inputs_exist r a i z inside =
      let (one, most) = rate_bounds r z.small in
      let w = 2 ^ r in
      elim (dec_lt i (w - 1)) [
        | yes low ↦
            let (l, e) =
              read-ok {E = ProgramError} a.hash_tree (2 * i) (omega (arith, z.tree_size)) in
            let (x, f) =
              read-ok {E = ProgramError} a.hash_tree (2 * i + 1) (omega (arith, z.tree_size)) in
            rw (lt→ltb i (w - 1) low) (_, >>=-ok _ e (>>=-ok _ f refl))
        | no high ↦
            let (x, g) =
              read-ok {E = ProgramError} a.siblings (a.batching_rate + (i - (w - 1)))
                (omega (arith, z.siblings_size, z.rate, z.small)) in
            elim (ℕ_discrete (i - (w - 1)) 0) [
              | yes root ↦
                  let (l, e) =
                    read-ok {E = ProgramError} a.hash_tree (w + i - 1)
                      (omega (arith, z.tree_size, z.small)) in
                  let first : (i - (w - 1) == 0) ≡ true = (==_iff _ _).1 root in
                  rw (ge→ltb i (w - 1) (omega arith), first) (_, >>=-ok _ e (>>=-ok _ g refl))
              | no up ↦
                  let (l, e) =
                    read-ok {E = ProgramError} a.above_hashes (i - (w - 1) - 1)
                      (omega (arith, z.above_size)) in
                  let later : (i - (w - 1) == 0) ≡ false = ground arith in
                  rw (ge→ltb i (w - 1) (omega arith), later) (_, >>=-ok _ e (>>=-ok _ g refl))
            ]
      ]

  pub saved-IsSized :
      (r : ℕ) (a : CommitmentHashingAccount F U) (w i : ℕ) (v : U)
      → IsSized r a
      → IsSized r (saved a w i v)
  unfolding saved
  saved-IsSized r a w i v z = elim (Bool-cases (ltb i (w - 1))) [
    | inl b ↦ rw b (record {
      rate = z.rate;
      small = z.small;
      tree_size = length-set a.hash_tree (w + i) v ∙ z.tree_size;
      above_size = z.above_size;
      siblings_size = z.siblings_size;
    })
    | inr b ↦ rw b (record {
      rate = z.rate;
      small = z.small;
      tree_size = z.tree_size;
      above_size = length-set a.above_hashes (i - (w - 1)) v ∙ z.above_size;
      siblings_size = z.siblings_size;
    })
  ]

  -- The hashes up to the one that is saved are finished.
  pub saved-IsFinished :
      (r : ℕ) (a : CommitmentHashingAccount F U) (n i : ℕ) (s : HashingState F)
      → IsSized r a
      → n < hash_count r
      → hash_inputs h a (2 ^ r) n ≡ ok s
      → ((j : ℕ) → j < n → IsFinished a (2 ^ r) j)
      → i ≤ n
      → IsFinished (saved a (2 ^ r) n (h.to_u256 (result h (hash_rounds h 65 0 s)))) (2 ^ r) i
  saved-IsFinished r a n i s z inside e before le =
      let w = 2 ^ r in
      let v = h.to_u256 (result h (hash_rounds h 65 0 s)) in
      elim (ℕ_discrete i n) [
        | yes same ↦ rw same (record {
          inputs = s;
          from_tree = hash_inputs-saved h a w n n v (omega arith) ∙ e;
          hashed = node-saved_self a w n v (sized-IsRoomy r a n z inside);
        })
        | no other ↦
            let old = before i (omega arith) in
            record {
              inputs = old.inputs;
              from_tree = hash_inputs-saved h a w n i v le ∙ old.from_tree;
              hashed = node-saved_before a w n i v (omega arith) ∙ old.hashed;
            }
      ]
