-- ===== src/Queue/Fifo.antt =====
-- What a queue promises: a first-in first-out list of at most `capacity` elements, oldest first.
use elusiv.Base.{
  leb, ◌==◌, if◌then◌else◌, length, get_elem?, drop, ok_or, from_elusiv, queue_is_empty,
  queue_is_full, invalid_queue_access, ProgramError, Result, ok, err, ℕ, List, [], ◌∷◌, ◌++◌,
}

module _ {ℓ} {N : Type ℓ} (capacity : ℕ) where
  unfoldable pub enqueue : List N → N → List N × Result ProgramError (Unit {0})
  enqueue xs x =
      if length xs == capacity then (xs, err (from_elusiv queue_is_full)) else (xs ++ x ∷ [], ok tt)

module _ {ℓ} {N : Type ℓ} where
  unfoldable pub dequeue_first : List N → List N × Result ProgramError N
  dequeue_first [] = ([], err (from_elusiv queue_is_empty))
  dequeue_first (x ∷ xs) = (xs, ok x)

  unfoldable pub view : List N → ℕ → Result ProgramError N
  view [] i = err (from_elusiv queue_is_empty)
  view (x ∷ xs) i = ok_or (get_elem? (x ∷ xs) i) (from_elusiv invalid_queue_access)

  unfoldable pub remove : List N → ℕ → List N × Result ProgramError (Unit {0})
  remove xs n =
      if leb n (length xs) then (drop n xs, ok tt) else (xs, err (from_elusiv invalid_queue_access))
