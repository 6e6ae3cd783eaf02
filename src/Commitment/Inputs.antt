-- ===== src/Commitment/Inputs.antt =====
-- Where the inputs of a hash stand: the children of the hash `i` of the hash tree are at 2i and 2i + 1.
use elusiv.Base.{
  ltb, ◌==◌, if◌then◌else◌, lt→ltb, ge→ltb, ==_iff, ◌>>=◌, ProgramError, Result, ok, u32_mod,
  sub_u64, read, ℕ, zero, suc, ◌+◌, ◌-◌, ◌*◌, ◌^◌, ◌≤◌, ◌<◌, ◌≡◌, refl, ap, true, false, arith,
  dec_lt, ℕ_discrete,
}
use native.Mathlib.Nat.{two-pow-succ, pow-le-pow_right, one-le-pow}
use native.Mathlib.Nat.{two-pow-succ, pow-le-pow_right, one-le-pow}
use elusiv.Poseidon.{HashingState, Hasher, new_state}
use elusiv.Commitment.Account.{
  CommitmentHashingAccount, index_below_from, next_hashing_state, is_right,
}

module _ {ℓ κ} {F : Type ℓ} {U : Type κ} (h : Hasher F U) where
  -- The state at which the hash `i` begins, for a hash tree with `w` commitments.
  unfoldable pub hash_inputs :
      CommitmentHashingAccount F U → ℕ → ℕ → Result ProgramError (HashingState F)
  hash_inputs a w i =
      let above = i - (w - 1) in
      if ltb i (w - 1)
      then (do
        l ← read a.hash_tree (2 * i)
        r ← read a.hash_tree (2 * i + 1)
        ok (new_state h (h.to_fr l) (h.to_fr r) false))
      else (do
        l ← (if above == 0 then read a.hash_tree (w + i - 1) else read a.above_hashes (above - 1))
        r ← read a.siblings (a.batching_rate + above)
        ok (new_state h (h.to_fr l) (h.to_fr r) (is_right a.ordering (a.batching_rate + above))))

-- From the layer `l` on, with all layers above `l` left behind.
index_below_from_layer :
    (w i l below : ℕ)
    → below + 2 ^ l ≡ w
    → below ≤ i
    → i + 1 < w
    → w < u32_mod
    → index_below_from i w l below ≡ ok (2 * i)
unfolding index_below_from
index_below_from_layer w i zero below e low high small = absurd (omega arith)
index_below_from_layer w i (suc l) below e low high small =
    let next : l + 1 ≡ suc l = omega arith in
    let double : 2 ^ (l + 1) ≡ 2 ^ l + 2 ^ l = rw next (two-pow-succ l) in
    let twice : 2 ^ suc l ≡ 2 ^ l + 2 ^ l = two-pow-succ l in
    elim (dec_lt (i - below) (2 ^ l)) [
      | yes here ↦
          let t : ltb (sub_u64 i below) (2 ^ l) ≡ true = lt→ltb _ _ (omega arith) in
          rw t (ap ok (omega arith))
      | no there ↦
          let t : ltb (sub_u64 i below) (2 ^ l) ≡ false = ge→ltb _ _ (omega arith) in
          rw t (index_below_from_layer w i l (below + 2 ^ l) (omega arith) (omega arith) high small)
    ]

module _ {ℓ κ} {F : Type ℓ} {U : Type κ} (h : Hasher F U) where
  -- For a batching rate up to 4, next_hashing_state takes the hash `i` of the hash tree from the
  -- places 2i and 2i + 1, and a hash above it from the hash before and a sibling.
  pub next_hashing_state_lem :
      (a : CommitmentHashingAccount F U) (i : ℕ)
      → a.batching_rate ≤ 4
      → next_hashing_state h a i ≡ hash_inputs h a (2 ^ a.batching_rate) i
  unfolding next_hashing_state hash_inputs
  next_hashing_state_lem a i small =
      let r = a.batching_rate in
      let bound : 2 ^ r ≤ 2 ^ 4 = pow-le-pow_right {n = 2} (omega arith) small in
      let one : 0 < 2 ^ r = one-le-pow r 2 (omega arith) in
      let fits : ltb r 64 ≡ true = lt→ltb _ _ (omega arith) in
      let off = i - (2 ^ r - 1) in
      elim (dec_lt i (2 ^ r - 1)) [
        | yes tree ↦
            rw
              (
                fits,
                lt→ltb i (2 ^ r - 1) tree,
                index_below_from_layer (2 ^ r) i r 0 (omega arith) (omega arith) (omega arith)
                    (omega arith),
              )
              refl
        | no above ↦ elim (ℕ_discrete i (2 ^ r - 1)) [
          | yes root ↦
              let next : r + 1 ≡ suc r = omega arith in
              let double : 2 ^ (r + 1) ≡ 2 ^ r + 2 ^ r = rw next (two-pow-succ r) in
              let place : 2 ^ (r + 1) - 2 ≡ 2 ^ r + i - 1 = omega arith in
              let none_above : off ≡ 0 = omega arith in
              let same : r + 0 ≡ r = omega arith in
              rw
                (
                  fits,
                  ge→ltb i (2 ^ r - 1) (omega arith),
                  (==_iff i (2 ^ r - 1)).1 root,
                  lt→ltb (r + 1) 64 (omega arith),
                  place,
                  none_above,
                  same,
                )
                refl
          | no up ↦
              let ne : (i == 2 ^ r - 1) ≡ false = ground arith in
              let some_above : (off == 0) ≡ false = ground arith in
              let comm : off + r ≡ r + off = omega arith in
              rw (fits, ge→ltb i (2 ^ r - 1) (omega arith), ne, some_above, comm) refl
        ]
      ]
