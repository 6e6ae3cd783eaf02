-- ===== src/Queue.antt =====
-- elusiv/src/state/queue.rs: the trait `RingQueue`, and the accounts that `queue_account!` makes.
-- A method that updates the queue returns the new queue beside its result. `capacity` is the
-- constant `CAPACITY`; the queue of a refused call is the old one.
pub mod Invariant
pub mod Fifo
pub mod Slots
pub mod Refine
pub mod Search
pub mod History
mod Tests
use elusiv.Base.{
  ltb, leb, ◌==◌, if◌then◌else◌, length, get_elem?, set, ◌>>=◌, ◌>>◌, guard, unwrap, from_elusiv,
  queue_is_empty, queue_is_full, invalid_queue_access, ProgramError, Result, ok, err, panic,
  u32_mod, add_u32, sub_u32, add_u64, ℕ, zero, suc, ◌%◌, Bool, true, false, not, Option, none, some,
  List,
}

pub record RingQueue {ℓ} (N : Type ℓ) : Type ℓ where
  pub head : ℕ
  pub tail : ℕ
  pub raw_data : List N

-- `usize_as_u32_safe`.
abbrev pub usize_as_u32_safe : ℕ → Result ProgramError ℕ
usize_as_u32_safe u = if ltb u u32_mod then ok u else panic

-- `SIZE`.
abbrev pub size : ℕ → ℕ
size capacity = add_u32 capacity 1

module _ {ℓ} {N : Type ℓ} (capacity : ℕ) where
  -- A read out of range panics.
  abbrev pub get_data : RingQueue N → ℕ → Result ProgramError N
  get_data q index = unwrap (get_elem? q.raw_data index)

  -- So does a write, which `is_in_range` tells.
  abbrev pub set_data : RingQueue N → ℕ → N → RingQueue N
  set_data q index value = record q { raw_data = set q.raw_data index value }

  abbrev pub is_in_range : RingQueue N → ℕ → Bool
  is_in_range q index = ltb index (length q.raw_data)

  abbrev pub next_tail : RingQueue N → ℕ
  next_tail q = add_u32 q.tail 1 % size capacity

  unfoldable pub enqueue : RingQueue N → N → RingQueue N × Result ProgramError (Unit {0})
  enqueue q value =
      if next_tail q == q.head
      then (q, err (from_elusiv queue_is_full))
      else if is_in_range q q.tail
      then (record (set_data q q.tail value) { tail = next_tail q }, ok tt)
      else (q, panic)

  unfoldable pub len : RingQueue N → ℕ
  len q =
      if leb q.head q.tail
      then sub_u32 q.tail q.head
      else add_u32 (sub_u32 (size capacity) q.head) q.tail

  unfoldable pub view : RingQueue N → ℕ → Result ProgramError N
  unfolding len
  view q offset = do
    guard (not (q.head == q.tail)) (from_elusiv queue_is_empty)
    o ← usize_as_u32_safe offset
    guard (ltb o (len q)) (from_elusiv invalid_queue_access)
    get_data q (add_u64 q.head offset % size capacity)

  pub view_first : RingQueue N → Result ProgramError N
  unfolding view
  view_first q = view q 0

  unfoldable pub dequeue_first : RingQueue N → RingQueue N × Result ProgramError N
  dequeue_first q =
      if q.head == q.tail
      then (q, err (from_elusiv queue_is_empty))
      else elim (get_elem? q.raw_data q.head) [
        | none ↦ (q, panic)
        | some value ↦ (record q { head = add_u32 q.head 1 % size capacity }, ok value)
      ]

  unfoldable pub remove : RingQueue N → ℕ → RingQueue N × Result ProgramError (Unit {0})
  unfolding len
  remove q count =
      if leb count (len q)
      then (record q { head = add_u32 q.head count % size capacity }, ok tt)
      else (q, err (from_elusiv invalid_queue_access))

  -- The `while` loop from `ptr`: `none` when the fuel runs out.
  pub contains_from : (N → N → Bool) → RingQueue N → N → ℕ → ℕ → Option (Result ProgramError Bool)
  contains_from eq q value zero ptr = none
  contains_from eq q value (suc fuel) ptr =
      let rest = contains_from eq q value fuel (add_u32 ptr 1 % size capacity) in
      if ptr == q.tail then some (ok false) else elim (get_elem? q.raw_data ptr) [
        | none ↦ some panic
        | some x ↦ if eq x value then some (ok true) else rest
      ]

  -- The loop makes at most `SIZE` rounds, and one more test.
  pub contains : (N → N → Bool) → RingQueue N → N → Option (Result ProgramError Bool)
  unfolding contains_from
  contains eq q value = contains_from eq q value (suc (size capacity)) q.head

  unfoldable pub is_empty : RingQueue N → Bool
  unfolding len
  is_empty q = len q == 0

  pub empty_slots : RingQueue N → ℕ
  unfolding len
  empty_slots q = sub_u32 capacity (len q)

  -- The two pointers are reset; the storage keeps its elements.
  unfoldable pub clear : RingQueue N → RingQueue N
  clear q = record q { head = 0; tail = 0 }
