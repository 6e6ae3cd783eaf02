-- ===== src/Queue/Search.antt =====
-- `contains` of a queue account, and membership in the list that the account holds.
use elusiv.Base.{
  ◌==◌, if◌then◌else◌, ==_refl, length, get_elem?, drop, get_elem?_in_range, drop_at, drop_all, ok,
  add_u32, ℕ, zero, suc, ◌+◌, ◌%◌, ◌≤◌, ◌<◌, ◌≡◌, ◌∙◌, subst, Bool, true, false, some, List, [],
  ◌∷◌, arith, dec_lt,
}
use elusiv.Queue.{RingQueue, contains, contains_from, len, size}
use elusiv.Queue.Invariant.{IsValid, len-le-capacity}
use elusiv.Queue.Slots.{Represents, slot, next-slot, slot-len, len_exact}

-- Some element of the list is equal to the value.
unfoldable pub elem {ℓ} : {N : Type ℓ} → (N → N → Bool) → N → List N → Bool
elem eq v [] = false
elem eq v (x ∷ xs) = if eq x v then true else elem eq v xs

module _ {ℓ} {N : Type ℓ} (capacity : ℕ) (eq : N → N → Bool) where
  slot-suc :
      (q : RingQueue N) (i : ℕ)
      → IsValid capacity q
      → i < len capacity q
      → add_u32 (slot capacity q.head i) 1 % size capacity ≡ slot capacity q.head (suc i)
  slot-suc q i v h =
      let bound = len-le-capacity capacity q v in
      rw (next-slot capacity q (slot capacity q.head i) 1 v (ground arith) v.positive)
        (ground arith)

  slot-ne-end :
      (q : RingQueue N) (i : ℕ)
      → IsValid capacity q
      → i < len capacity q
      → (slot capacity q.head i == q.tail) ≡ false
  slot-ne-end q i v h = ground (arith, len_exact capacity q v)

  contains_from_lem :
      (q : RingQueue N) (v : N) (xs : List N) (fuel i : ℕ)
      → Represents capacity q xs
      → i ≤ length xs
      → length xs < fuel + i
      → contains_from capacity eq q v fuel (slot capacity q.head i)
        ≡ some (ok (elem eq v (drop i xs)))
  unfolding contains_from elem
  contains_from_lem q v xs zero i r h f = absurd (omega arith)
  contains_from_lem q v xs (suc fuel) i r h f = elim (dec_lt i (length xs)) [
    | yes inside ↦
        let (x, cell) = get_elem?_in_range xs i inside in
        let raw : get_elem? q.raw_data (slot capacity q.head i) ≡ some x =
          r.items i inside ∙ cell in
        let below : i < len capacity q = omega (arith, r.count) in
        rw
          (
            slot-ne-end q i r.valid below,
            raw,
            drop_at xs i x cell,
            slot-suc q i r.valid below,
            contains_from_lem q v xs fuel (suc i) r inside (omega arith),
          )
          (ground arith)
    | no end ↦
        let last : i ≡ len capacity q = omega (arith, r.count) in
        let at_tail : slot capacity q.head i ≡ q.tail = rw last (slot-len capacity q r.valid) in
        rw (at_tail, ==_refl q.tail, drop_all xs i (omega arith))
  ]

  contains_from_head :
      (q : RingQueue N) (v : N) (xs : List N) (fuel : ℕ)
      → Represents capacity q xs
      → length xs < fuel
      → contains_from capacity eq q v fuel q.head ≡ some (ok (elem eq v xs))
  contains_from_head q v xs fuel r f =
      let at_head : slot capacity q.head 0 ≡ q.head = ground (arith, r.valid) in
      subst (λ p. contains_from capacity eq q v fuel p ≡ some (ok (elem eq v xs))) at_head
        (contains_from_lem q v xs fuel 0 r (omega arith) (omega arith))

  -- On a valid queue account, `contains` always ends, within `SIZE + 1` tests of its loop, and says whether some element of the
  -- queue is equal to the value.
  pub contains_lem :
      (q : RingQueue N) (v : N) (xs : List N)
      → Represents capacity q xs
      → contains capacity eq q v ≡ some (ok (elem eq v xs))
  unfolding contains
  contains_lem q v xs r =
      let bound = len-le-capacity capacity q r.valid in
      contains_from_head q v xs (suc (size capacity)) r (omega (arith, r.count, r.valid))
