-- ===== src/Queue/Refine.antt =====
-- The operations of a queue account, beside those of the bounded list that it holds.
use elusiv.Base.{
  ltb, leb, ◌==◌, lt→ltb, le→leb, ==_iff, length, get_elem?, drop, length-drop, get_elem?_in_range,
  get_elem?_out, get_elem?-drop, ProgramError, Result, u32_mod, add_u32, add_u64, ℕ, ◌+◌, ◌-◌, ◌%◌,
  ◌≤◌, ◌<◌, ◌≡◌, refl, ◌∙◌, ◌↔◌, true, false, some, List, [], ◌∷◌, arith, dec_lt, dec_le,
  ℕ_discrete,
}
use elusiv.Queue.{
  clear, len, view, size, RingQueue, enqueue, dequeue_first, remove, len, view, size,
}
use elusiv.Queue.Fifo
use elusiv.Queue.Invariant.{IsValid, len-le-capacity}
use elusiv.Queue.Slots.{
  Represents, slot, next-slot, len_exact, enqueue_full, enqueue_room, pushed-Represents,
}

-- A call and its specification leave states that correspond, and return the same.
pub record Refines {ℓ κ} {N : Type ℓ} {A : Type κ} (capacity : ℕ)
    (out : RingQueue N × Result ProgramError A) (spec : List N × Result ProgramError A)
    : Type (ℓ ⊔ κ) where
  pub state : Represents capacity out.0 spec.0
  pub reply : out.1 ≡ spec.1

module _ {ℓ} {N : Type ℓ} (capacity : ℕ) where
  -- On a valid queue account, `enqueue` refuses exactly when the list holds `capacity` elements, and else appends.
  pub enqueue-Refines :
      (q : RingQueue N) (x : N) (xs : List N)
      → Represents capacity q xs
      → Refines capacity (enqueue capacity q x) (Fifo.enqueue capacity xs x)
  unfolding Fifo.enqueue
  enqueue-Refines q x xs r = elim (ℕ_discrete (len capacity q) capacity) [
    | yes full ↦
        rw
          (enqueue_full capacity q x r.valid full, (==_iff (length xs) capacity).1 (r.count ∙ full))
          (record { state = r; reply = refl })
    | no room ↦
        let b : (length xs == capacity) ≡ false = ground (arith, r.count) in
        rw (enqueue_room capacity q x r.valid room, b)
          (record { state = pushed-Represents capacity q x xs r room; reply = refl })
  ]

  empty_iff : (q : RingQueue N) → IsValid capacity q → (q.head ≡ q.tail) ↔ (len capacity q ≡ 0)
  empty_iff q v =
      (λ e. ground (arith, len_exact capacity q v), λ e. ground (arith, len_exact capacity q v))

  -- The queue without its first `n` elements.
  abbrev advanced : RingQueue N → ℕ → RingQueue N
  advanced q n = record q { head = slot capacity q.head n }

  advanced-len :
      (q : RingQueue N) (n : ℕ)
      → IsValid capacity q
      → n ≤ len capacity q
      → len capacity (advanced q n) ≡ len capacity q - n
  unfolding len
  advanced-len q n v h = ground (arith, len_exact capacity q v)

  advanced-slot :
      (q : RingQueue N) (n i : ℕ)
      → IsValid capacity q
      → n + i < len capacity q
      → slot capacity (slot capacity q.head n) i ≡ slot capacity q.head (n + i)
  advanced-slot q n i v h = ground (arith, len_exact capacity q v)

  advanced-IsValid :
      (q : RingQueue N) (n : ℕ)
      → IsValid capacity q
      → n ≤ len capacity q
      → IsValid capacity (advanced q n)
  advanced-IsValid q n v h = ground (arith, len_exact capacity q v)

  advanced-Represents :
      (q : RingQueue N) (n : ℕ) (xs : List N)
      → Represents capacity q xs
      → n ≤ len capacity q
      → Represents capacity (advanced q n) (drop n xs)
  advanced-Represents q n xs r h = record {
    valid = advanced-IsValid q n r.valid h;
    count = omega (arith, length-drop n xs, advanced-len q n r.valid h, r.count);
    items = λ i hi.
        let inside : n + i < length xs = omega (arith, length-drop n xs) in
        rw (advanced-slot q n i r.valid (omega (arith, r.count)), get_elem?-drop n xs i)
          (r.items (n + i) inside);
  }

  -- On a valid queue account, `dequeue_first` returns the oldest element and keeps the rest, or refuses on the empty queue.
  pub dequeue_first-Refines :
      (q : RingQueue N) (xs : List N)
      → Represents capacity q xs
      → Refines capacity (dequeue_first capacity q) (Fifo.dequeue_first xs)
  unfolding dequeue_first Fifo.dequeue_first
  dequeue_first-Refines q [] r =
      let e : (q.head == q.tail) ≡ true =
        (==_iff _ _).1 ((empty_iff q r.valid).1 (omega (arith, r.count))) in
      rw e (record { state = r; reply = refl })
  dequeue_first-Refines q (x ∷ xs) r =
      let e : (q.head == q.tail) ≡ false = ground (arith, empty_iff q r.valid, r.count) in
      let first : slot capacity q.head 0 ≡ q.head = ground (arith, r.valid) in
      let cell : get_elem? q.raw_data q.head ≡ some x = rw first at (r.items 0 (omega arith)) in
      rw (e, cell, next-slot capacity q q.head 1 r.valid r.valid.head_in r.valid.positive)
        (record {
          state = advanced-Represents q 1 (x ∷ xs) r (omega (arith, r.count));
          reply = refl;
        })

  -- On a valid queue account, `remove` drops the `n` oldest elements, or refuses when there are fewer.
  pub remove-Refines :
      (q : RingQueue N) (n : ℕ) (xs : List N)
      → Represents capacity q xs
      → Refines capacity (remove capacity q n) (Fifo.remove xs n)
  unfolding remove Fifo.remove
  remove-Refines q n xs r = elim (dec_le n (len capacity q)) [
    | yes h ↦
        let a : leb n (len capacity q) ≡ true = le→leb _ _ h in
        let b : leb n (length xs) ≡ true = le→leb _ _ (omega (arith, r.count)) in
        rw
          (
            a,
            b,
            next-slot capacity q q.head n r.valid r.valid.head_in
                (omega (arith, len-le-capacity capacity q r.valid)),
          )
          (record { state = advanced-Represents q n xs r h; reply = refl })
    | no h ↦
        let a : leb n (len capacity q) ≡ false = ground arith in
        let b : leb n (length xs) ≡ false = ground (arith, r.count) in
        rw (a, b) (record { state = r; reply = refl })
  ]

  view-slot :
      (q : RingQueue N) (i : ℕ)
      → IsValid capacity q
      → i < len capacity q
      → add_u64 q.head i % size capacity ≡ slot capacity q.head i
  view-slot q i v h =
      let bound = len-le-capacity capacity q v in
      let sum : add_u64 q.head i ≡ add_u32 q.head i = omega arith in
      rw sum (next-slot capacity q q.head i v v.head_in (omega arith))

  -- On a valid queue account, for an offset that is a `u32`, `view` reads the element at that offset
  -- behind the oldest; the error tells an empty queue from an
  -- offset behind the last element.
  pub view_refines :
      (q : RingQueue N) (i : ℕ) (xs : List N)
      → Represents capacity q xs
      → i < u32_mod
      → view capacity q i ≡ Fifo.view xs i
  unfolding view Fifo.view
  view_refines q i [] r h =
      let e : (q.head == q.tail) ≡ true =
        (==_iff _ _).1 ((empty_iff q r.valid).1 (omega (arith, r.count))) in
      rw e
  view_refines q i (x ∷ xs) r h = elim (dec_lt i (len capacity q)) [
    | yes inside ↦
        let e : (q.head == q.tail) ≡ false = ground (arith, empty_iff q r.valid, r.count) in
        let fits : ltb i u32_mod ≡ true = lt→ltb _ _ h in
        let here : ltb i (len capacity q) ≡ true = lt→ltb _ _ inside in
        let (y, cell) = get_elem?_in_range (x ∷ xs) i (omega (arith, r.count)) in
        let raw : get_elem? q.raw_data (slot capacity q.head i) ≡ some y =
          r.items i (omega (arith, r.count)) ∙ cell in
        rw (e, fits, here, view-slot q i r.valid inside, raw, cell)
    | no outside ↦
        let e : (q.head == q.tail) ≡ false = ground (arith, empty_iff q r.valid, r.count) in
        let fits : ltb i u32_mod ≡ true = lt→ltb _ _ h in
        let there : ltb i (len capacity q) ≡ false = ground arith in
        rw (e, fits, there, get_elem?_out (x ∷ xs) i (omega (arith, r.count)))
  ]

  -- A cleared queue is valid and holds the empty list.
  pub clear-Represents :
      (q : RingQueue N) → IsValid capacity q → Represents capacity (clear capacity q) []
  unfolding clear len
  clear-Represents q v = record {
    valid = record {
      positive = v.positive;
      small = v.small;
      storage = v.storage;
      head_in = omega arith;
      tail_in = omega arith;
    };
    count = refl;
    items = λ i h. absurd (omega arith);
  }
