-- ===== src/Queue/Invariant.antt =====
-- The invariant of a queue account: both pointers lie in the storage, whose length is `SIZE`.
use elusiv.Base.{
  length, get_elem?, length-set, get_elem?_in_range, u32_mod, ℕ, ◌+◌, ◌*◌, ◌≤◌, ◌<◌, ◌≡◌, some,
  arith,
}
use elusiv.Queue.{RingQueue, enqueue, dequeue_first, remove, len, empty_slots}

-- There is room for an element, and twice the size is a `u32`.
pub record IsValid {ℓ} {N : Type ℓ} (capacity : ℕ) (q : RingQueue N) : Type 0 where
  pub positive : 0 < capacity
  pub small : 2 * (capacity + 1) < u32_mod
  pub storage : length q.raw_data ≡ capacity + 1
  pub head_in : q.head ≤ capacity
  pub tail_in : q.tail ≤ capacity

module _ {ℓ} {N : Type ℓ} (capacity : ℕ) where
  pub in_range :
      (q : RingQueue N) (i : ℕ)
      → IsValid capacity q
      → i ≤ capacity
      → (x : N) × (get_elem? q.raw_data i ≡ some x)
  in_range q i v h = get_elem?_in_range q.raw_data i (omega arith)

  -- `enqueue` keeps the pointers inside the storage, also when it refuses.
  pub enqueue-IsValid :
      (q : RingQueue N) (x : N) → IsValid capacity q → IsValid capacity (enqueue capacity q x).0
  unfolding enqueue
  enqueue-IsValid q x v = ground (arith, length-set q.raw_data q.tail x)

  pub dequeue_first-IsValid :
      (q : RingQueue N) → IsValid capacity q → IsValid capacity (dequeue_first capacity q).0
  unfolding dequeue_first
  dequeue_first-IsValid q v = ground arith

  pub remove-IsValid :
      (q : RingQueue N) (n : ℕ) → IsValid capacity q → IsValid capacity (remove capacity q n).0
  unfolding remove
  remove-IsValid q n v = ground arith

  pub len-le-capacity : (q : RingQueue N) → IsValid capacity q → len capacity q ≤ capacity
  unfolding len
  len-le-capacity q v = ground arith

  -- In a valid queue account, the empty slots and the elements make up the capacity.
  pub empty_slots-add-len :
      (q : RingQueue N) → IsValid capacity q → empty_slots capacity q + len capacity q ≡ capacity
  unfolding empty_slots
  empty_slots-add-len q v = omega (arith, len-le-capacity q v)
