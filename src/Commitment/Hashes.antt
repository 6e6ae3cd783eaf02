-- ===== src/Commitment/Hashes.antt =====
-- What the save of a finished hash changes, and what it leaves.
use elusiv.Base.{
  ltb, ◌==◌, if◌then◌else◌, lt→ltb, ge→ltb, length, set, get_elem?-set_self, get_elem?-set_ne,
  unwrap, >>=-ok, unwrap-ok, ProgramError, Result, ok, read, two_pow, write-ok, ℕ, ◌+◌, ◌-◌, ◌*◌,
  ◌≤◌, ◌<◌, ◌≡◌, refl, ap, ◌≢◌, false, List, arith, dec_lt, ℕ_discrete,
}
use elusiv.Poseidon.{HashingState, Hasher, result}
use elusiv.Commitment.Account.{CommitmentHashingAccount, save_finished_hash}
use elusiv.Commitment.Inputs.{hash_inputs}

read_other {κ} :
    {V : Type κ} (xs : List V) (i j : ℕ) (v : V)
    → i ≢ j
    → read {E = ProgramError} (set xs i v) j ≡ read xs j
read_other xs i j v ne = ap unwrap (get_elem?-set_ne xs i j v ne)

module _ {ℓ κ} {F : Type ℓ} {U : Type κ} where
  -- The place of the hash `i`, for a hash tree with `w` commitments.
  unfoldable pub node : CommitmentHashingAccount F U → ℕ → ℕ → Result ProgramError U
  node a w i = if ltb i (w - 1) then read a.hash_tree (w + i) else read a.above_hashes (i - (w - 1))

  unfoldable pub saved : CommitmentHashingAccount F U → ℕ → ℕ → U → CommitmentHashingAccount F U
  saved a w i v =
      if ltb i (w - 1)
      then record a { hash_tree = set a.hash_tree (w + i) v }
      else record a { above_hashes = set a.above_hashes (i - (w - 1)) v }

  -- The arrays have the places of the hash `i`.
  pub record IsRoomy (a : CommitmentHashingAccount F U) (w i : ℕ) : Type 0 where
    pub tree : i < w - 1 → w + i < length a.hash_tree
    pub above : i - (w - 1) < length a.above_hashes

  pub node-saved_self :
      (a : CommitmentHashingAccount F U) (w i : ℕ) (v : U)
      → IsRoomy a w i
      → node (saved a w i v) w i ≡ ok v
  unfolding node saved
  node-saved_self a w i v room = elim (dec_lt i (w - 1)) [
    | yes low ↦
        rw (lt→ltb i (w - 1) low)
          (unwrap-ok (get_elem?-set_self a.hash_tree (w + i) v (room.tree low)))
    | no high ↦
        rw (ge→ltb i (w - 1) (omega arith))
          (unwrap-ok (get_elem?-set_self a.above_hashes (i - (w - 1)) v room.above))
  ]

  pub node-saved_before :
      (a : CommitmentHashingAccount F U) (w i j : ℕ) (v : U)
      → j < i
      → node (saved a w i v) w j ≡ node a w j
  unfolding node saved
  node-saved_before a w i j v h = elim (dec_lt i (w - 1)) [
    | yes low ↦
        rw (lt→ltb i (w - 1) low, lt→ltb j (w - 1) (omega arith))
          (read_other a.hash_tree (w + i) (w + j) v (λ e. omega arith))
    | no high ↦ elim (dec_lt j (w - 1)) [
      | yes low ↦ rw (ge→ltb i (w - 1) (omega arith), lt→ltb j (w - 1) low) refl
      | no over ↦
          rw (ge→ltb i (w - 1) (omega arith), ge→ltb j (w - 1) (omega arith))
            (read_other a.above_hashes (i - (w - 1)) (j - (w - 1)) v (λ e. omega arith))
    ]
  ]

module _ {ℓ κ} {F : Type ℓ} {U : Type κ} (h : Hasher F U) where
  pub save_finished_hash_lem :
      (a : CommitmentHashingAccount F U) (w i : ℕ) (s : HashingState F)
      → two_pow {E = ProgramError} a.batching_rate ≡ ok w
      → IsRoomy a w i
      → save_finished_hash h a i s ≡ ok (saved a w i (h.to_u256 (result h s)))
  unfolding save_finished_hash saved
  save_finished_hash_lem a w i s width room =
      let v = h.to_u256 (result h s) in
      >>=-ok _ width (elim (dec_lt i (w - 1)) [
        | yes low ↦
            rw (lt→ltb i (w - 1) low)
              (>>=-ok _ (write-ok a.hash_tree (w + i) v (room.tree low)) refl)
        | no high ↦
            rw (ge→ltb i (w - 1) (omega arith))
              (>>=-ok _ (write-ok a.above_hashes (i - (w - 1)) v room.above) refl)
      ])

  -- A save of the hash `i` leaves the inputs of that hash, and of those before.
  pub hash_inputs-saved :
      (a : CommitmentHashingAccount F U) (w i j : ℕ) (v : U)
      → j ≤ i
      → hash_inputs h (saved a w i v) w j ≡ hash_inputs h a w j
  unfolding hash_inputs saved
  hash_inputs-saved a w i j v before = elim (dec_lt i (w - 1)) [
    | yes low ↦
        rw
          (
            lt→ltb i (w - 1) low,
            lt→ltb j (w - 1) (omega arith),
            get_elem?-set_ne a.hash_tree (w + i) (2 * j) v (λ e. omega arith),
            get_elem?-set_ne a.hash_tree (w + i) (2 * j + 1) v (λ e. omega arith),
          )
          refl
    | no high ↦ elim (dec_lt j (w - 1)) [
      | yes low ↦ rw (ge→ltb i (w - 1) (omega arith), lt→ltb j (w - 1) low) refl
      | no over ↦ elim (ℕ_discrete (j - (w - 1)) 0) [
        | yes root ↦ rw (ge→ltb i (w - 1) (omega arith), ge→ltb j (w - 1) (omega arith), root) refl
        | no up ↦
            let some_above : (j - (w - 1) == 0) ≡ false = ground arith in
            rw
              (
                ge→ltb i (w - 1) (omega arith),
                ge→ltb j (w - 1) (omega arith),
                some_above,
                get_elem?-set_ne a.above_hashes (i - (w - 1)) (j - (w - 1) - 1) v
                    (λ e. omega arith),
              )
              refl
      ]
    ]
  ]
