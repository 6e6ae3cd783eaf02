-- ===== src/Storage/Index.antt =====
-- The place of a node in the array of the tree.
use elusiv.Base.{
  lt→ltb, ok, ℕ, zero, suc, ◌+◌, ◌-◌, ◌*◌, ◌/◌, ◌%◌, ◌^◌, ◌≤◌, ◌<◌, ◌≡◌, refl, ap, ◌∙◌, arith,
  dec_lt, ℕ_discrete,
}
use elusiv.Storage.{mt_array_index, values_per_storage_sub_account, account_and_local_index}

pow_positive : (n : ℕ) → 0 < 2 ^ n
pow_positive zero = omega arith
pow_positive (suc n) = omega (arith, pow_positive n)

pow_grows : (n d : ℕ) → 2 ^ n ≤ 2 ^ (n + d)
pow_grows n zero = let e : n + 0 ≡ n = omega arith in rw e (omega arith)
pow_grows n (suc d) =
    let e : n + suc d ≡ suc (n + d) = omega arith in rw e (omega (arith, pow_grows n d))

-- A lower level ends before a deeper one starts.
level_ends : (k l : ℕ) → k < l → 2 ^ k + 2 ^ k ≤ 2 ^ l
level_ends k l h =
    let e : l ≡ suc k + (l - suc k) = omega arith in
    rw e (omega (arith, pow_grows (suc k) (l - suc k)))

mt_array_index_in : (i l : ℕ) → i < 2 ^ l → mt_array_index i l ≡ ok (2 ^ l - 1 + i)
unfolding mt_array_index
mt_array_index_in i l h = rw (lt→ltb i (2 ^ l) h) refl

mt_array_index_ok : (i l p : ℕ) → mt_array_index i l ≡ ok p → (i < 2 ^ l) × (p ≡ 2 ^ l - 1 + i)
unfolding mt_array_index
mt_array_index_ok i l p h = ground arith

-- Two nodes at the same place of the array are the same node.
pub mt_array_index_injective :
    (i j k l p : ℕ) → mt_array_index i k ≡ ok p → mt_array_index j l ≡ ok p → (i ≡ j) × (k ≡ l)
mt_array_index_injective i j k l p a b =
    let (hi, ei) = mt_array_index_ok i k p a in
    let (hj, ej) = mt_array_index_ok j l p b in
    elim (ℕ_discrete k l) [
      | yes same ↦ (let hj = rw (← same) at hj in let ej = rw (← same) at ej in omega arith, same)
      | no differ ↦ elim (dec_lt k l) [
        | yes lt ↦ absurd (omega (arith, level_ends k l lt, pow_positive k))
        | no ge ↦ absurd (omega (arith, level_ends l k (omega arith), pow_positive l))
      ]
    ]

-- The children of the node at the place `p` are at `2 p + 1` and `2 p + 2`, as in a heap.
pub mt_array_index_children :
    (i l p : ℕ)
    → mt_array_index i l ≡ ok p
    → (mt_array_index (2 * i) (l + 1) ≡ ok (2 * p + 1))
      × (mt_array_index (2 * i + 1) (l + 1) ≡ ok (2 * p + 2))
mt_array_index_children i l p h =
    let (hi, e) = mt_array_index_ok i l p h in
    let s : l + 1 ≡ suc l = omega arith in
    let pos = pow_positive l in
    rw s (
      mt_array_index_in (2 * i) (suc l) (omega arith) ∙ ap ok (omega arith),
      mt_array_index_in (2 * i + 1) (suc l) (omega arith) ∙ ap ok (omega arith),
    )

-- Places in different child accounts or at different indices are different places.
pub account_and_local_index_injective :
    (p q : ℕ) → account_and_local_index p ≡ account_and_local_index q → p ≡ q
unfolding account_and_local_index
account_and_local_index_injective p q h =
    let a : p / values_per_storage_sub_account ≡ q / values_per_storage_sub_account =
      ap (λ x. x.0) h in
    let b : p % values_per_storage_sub_account ≡ q % values_per_storage_sub_account =
      ap (λ x. x.1) h in
    omega arith
