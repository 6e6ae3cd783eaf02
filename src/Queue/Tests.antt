-- ===== src/Queue/Tests.antt =====
-- Runs of a queue of capacity 3 whose elements go round the end of the storage.
use elusiv.Base.{
  ◌==◌, get_elem?, ok, ℕ, zero, suc, ◌+◌, ◌<◌, ◌≡◌, refl, Bool, some, List, [], ◌∷◌, arith,
}
use elusiv.Queue.{RingQueue, len, contains, empty_slots}
use elusiv.Queue.Invariant.{IsValid, empty_slots-add-len}
use elusiv.Queue.Slots.{Represents, slot}
use elusiv.Queue.Search.{elem, contains_lem}
use elusiv.Queue.History.{Op, push, pop, discard, run, run_list, run_refines}

abbrev round_queue : RingQueue ℕ
round_queue = record { head = 2; tail = 0; raw_data = 10 ∷ 20 ∷ 30 ∷ 40 ∷ [] }

abbrev round_list : List ℕ
round_list = 30 ∷ 40 ∷ []

round_queue-IsValid : IsValid 3 round_queue
round_queue-IsValid = record {
  positive = omega arith;
  small = omega arith;
  storage = refl;
  head_in = omega arith;
  tail_in = omega arith;
}

round_items : (i : ℕ) → i < 2 → get_elem? round_queue.raw_data (slot 3 2 i) ≡ get_elem? round_list i
round_items zero h = refl
round_items (suc zero) h = refl
round_items (suc (suc i)) h = absurd (omega arith)

round_queue-Represents : Represents 3 round_queue round_list
unfolding len
round_queue-Represents = record { valid = round_queue-IsValid; count = refl; items = round_items }

abbrev calls : List (Op ℕ)
calls = push 50 ∷ push 60 ∷ pop ∷ discard 1 ∷ pop ∷ pop ∷ []

run_refines_example : run 3 round_queue calls ≡ run_list 3 round_list calls
run_refines_example = run_refines 3 round_queue round_list calls round_queue-Represents

abbrev same_number : ℕ → ℕ → Bool
same_number a b = a == b

contains_example :
    contains 3 same_number round_queue 40 ≡ some (ok (elem same_number 40 round_list))
contains_example = contains_lem 3 same_number round_queue 40 round_list round_queue-Represents

empty_slots_example : empty_slots 3 round_queue + len 3 round_queue ≡ 3
empty_slots_example = empty_slots-add-len 3 round_queue round_queue-IsValid
