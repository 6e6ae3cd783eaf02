-- ===== src/Queue/History.antt =====
-- Clients of a queue account: histories of calls, and what they are answered.
use elusiv.Base.{ProgramError, Result, ℕ, ◌≡◌, refl, List, [], ◌∷◌}
use elusiv.Queue.{RingQueue, enqueue, dequeue_first, remove}
use elusiv.Queue.Fifo
use elusiv.Queue.Slots.{Represents}
use elusiv.Queue.Refine.{enqueue-Refines, dequeue_first-Refines, remove-Refines}

-- The calls of the trait that change the queue.
pub data Op {ℓ} (N : Type ℓ) : Type ℓ where
  push : N → Op N
  pop : Op N
  discard : ℕ → Op N

pub data Reply {ℓ} (N : Type ℓ) : Type ℓ where
  done : Result ProgramError (Unit {0}) → Reply N
  value : Result ProgramError N → Reply N

module _ {ℓ} {N : Type ℓ} (capacity : ℕ) where
  unfoldable pub run : RingQueue N → List (Op N) → List (Reply N)
  run q [] = []
  run q (push x ∷ ops) = let (q', a) = enqueue capacity q x in done a ∷ run q' ops
  run q (pop ∷ ops) = let (q', a) = dequeue_first capacity q in value a ∷ run q' ops
  run q (discard n ∷ ops) = let (q', a) = remove capacity q n in done a ∷ run q' ops

  unfoldable pub run_list : List N → List (Op N) → List (Reply N)
  run_list xs [] = []
  run_list xs (push x ∷ ops) = let (ys, a) = Fifo.enqueue capacity xs x in done a ∷ run_list ys ops
  run_list xs (pop ∷ ops) = let (ys, a) = Fifo.dequeue_first xs in value a ∷ run_list ys ops
  run_list xs (discard n ∷ ops) = let (ys, a) = Fifo.remove xs n in done a ∷ run_list ys ops

  -- No history of calls tells a valid queue account from the bounded list that it holds: each call
  -- is answered alike, the refusals included.
  pub run_refines :
      (q : RingQueue N) (xs : List N) (ops : List (Op N))
      → Represents capacity q xs
      → run q ops ≡ run_list xs ops
  unfolding run run_list
  run_refines q xs [] r = refl
  run_refines q xs (push x ∷ ops) r =
      let s = enqueue-Refines capacity q x xs r in
      rw (s.reply, run_refines (enqueue capacity q x).0 (Fifo.enqueue capacity xs x).0 ops s.state)
  run_refines q xs (pop ∷ ops) r =
      let s = dequeue_first-Refines capacity q xs r in
      rw (s.reply, run_refines (dequeue_first capacity q).0 (Fifo.dequeue_first xs).0 ops s.state)
  run_refines q xs (discard n ∷ ops) r =
      let s = remove-Refines capacity q n xs r in
      rw (s.reply, run_refines (remove capacity q n).0 (Fifo.remove xs n).0 ops s.state)
