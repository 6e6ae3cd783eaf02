-- ===== src/Queue/Slots.antt =====
-- The elements of a valid queue account lie in the slots from `head` up to `tail`, going round.
use elusiv.Base.{
  leb, ◌==◌, if◌then◌else◌, lt→ltb, ==_iff, length, get_elem?, set, length-append, length-set,
  get_elem?-set_self, get_elem?-set_ne, get_elem?-append_left, get_elem?-append_end, from_elusiv,
  queue_is_full, ok, err, add_u32, ℕ, ◌+◌, ◌-◌, ◌%◌, ◌≤◌, ◌<◌, ◌≡◌, sym, ap, ◌∙◌, ◌≢◌, ◌↔◌, true,
  false, List, [], ◌∷◌, ◌++◌, arith, dec_lt,
}
use native.Mathlib.Nat.{mod-eq_of_lt, mod-eq-sub-mod}
use elusiv.Queue.{RingQueue, enqueue, len, size, next_tail, is_in_range}
use elusiv.Queue.Invariant.{IsValid}

-- The index of the element `i` places behind `head`, in a storage of `capacity + 1` elements.
abbrev pub slot : ℕ → ℕ → ℕ → ℕ
slot capacity head i = if leb (head + i) capacity then head + i else head + i - capacity - 1

pub mod-slot :
    (capacity head i : ℕ)
    → head ≤ capacity
    → i ≤ capacity
    → (head + i) % (capacity + 1) ≡ slot capacity head i
mod-slot c h i hh hi = ground (
  arith,
  mod-eq_of_lt {n = h + i} {m = c + 1},
  mod-eq-sub-mod {n = h + i} {m = c + 1},
  mod-eq_of_lt {n = h + i - (c + 1)} {m = c + 1},
)

pub record Represents {ℓ} {N : Type ℓ} (capacity : ℕ) (q : RingQueue N) (xs : List N) : Type ℓ where
  pub valid : IsValid capacity q
  pub count : length xs ≡ len capacity q
  pub items :
      (i : ℕ) → i < length xs → get_elem? q.raw_data (slot capacity q.head i) ≡ get_elem? xs i

module _ {ℓ} {N : Type ℓ} (capacity : ℕ) where
  -- `tail` is the slot behind the last element.
  pub slot-len :
      (q : RingQueue N) → IsValid capacity q → slot capacity q.head (len capacity q) ≡ q.tail
  unfolding len
  slot-len q v = ground arith

  size_exact : (q : RingQueue N) → IsValid capacity q → size capacity ≡ capacity + 1
  size_exact q v = omega arith

  pub next-slot :
      (q : RingQueue N) (a i : ℕ)
      → IsValid capacity q
      → a ≤ capacity
      → i ≤ capacity
      → add_u32 a i % size capacity ≡ slot capacity a i
  next-slot q a i v ha h =
      let sum : add_u32 a i ≡ a + i = omega arith in
      rw (sum, size_exact q v) (mod-slot capacity a i ha h)

  -- The number of elements, with no wrap.
  pub len_exact :
      (q : RingQueue N)
      → IsValid capacity q
      → len capacity q
        ≡ (if leb q.head q.tail then q.tail - q.head else capacity + 1 - q.head + q.tail)
  unfolding len
  len_exact q v = ground arith

  full_iff :
      (q : RingQueue N)
      → IsValid capacity q
      → (next_tail capacity q ≡ q.head) ↔ (len capacity q ≡ capacity)
  full_iff q v = (
    λ e. ground (arith, len_exact q v, next-slot q q.tail 1 v),
    λ e. ground (arith, len_exact q v, next-slot q q.tail 1 v),
  )

  pub enqueue_full :
      (q : RingQueue N) (x : N)
      → IsValid capacity q
      → len capacity q ≡ capacity
      → enqueue capacity q x ≡ (q, err (from_elusiv queue_is_full))
  unfolding enqueue
  enqueue_full q x v e =
      let p : (next_tail capacity q == q.head) ≡ true = (==_iff _ _).1 ((full_iff q v).1 e) in rw p

  abbrev pub pushed : RingQueue N → N → RingQueue N
  pushed q x = record q { raw_data = set q.raw_data q.tail x; tail = slot capacity q.tail 1 }

  pub enqueue_room :
      (q : RingQueue N) (x : N)
      → IsValid capacity q
      → len capacity q ≢ capacity
      → enqueue capacity q x ≡ (pushed q x, ok tt)
  unfolding enqueue
  enqueue_room q x v ne =
      let room : (next_tail capacity q == q.head) ≡ false = ground (arith, full_iff q v) in
      let cell : is_in_range capacity q q.tail ≡ true = lt→ltb _ _ (omega arith) in
      rw (room, cell)
        (ap (λ t. (record q { raw_data = set q.raw_data q.tail x; tail = t }, ok tt))
          (next-slot q q.tail 1 v v.tail_in v.positive))

  pushed-len :
      (q : RingQueue N) (x : N)
      → IsValid capacity q
      → len capacity q ≢ capacity
      → len capacity (pushed q x) ≡ len capacity q + 1
  unfolding len
  pushed-len q x v ne = ground (arith, len_exact q v)

  pushed-IsValid : (q : RingQueue N) (x : N) → IsValid capacity q → IsValid capacity (pushed q x)
  pushed-IsValid q x v = ground (arith, length-set q.raw_data q.tail x)

  -- The slots of the elements that the queue holds differ from `tail`.
  slot-ne-tail :
      (q : RingQueue N) (i : ℕ)
      → IsValid capacity q
      → i < len capacity q
      → q.tail ≢ slot capacity q.head i
  slot-ne-tail q i v h = ground (arith, len_exact q v)

  pushed-items :
      (q : RingQueue N) (x : N) (xs : List N)
      → Represents capacity q xs
      → len capacity q ≢ capacity
      → (i : ℕ) → i < length (xs ++ x ∷ [])
      → get_elem? (pushed q x).raw_data (slot capacity q.head i) ≡ get_elem? (xs ++ x ∷ []) i
  pushed-items q x xs r ne i h = elim (dec_lt i (length xs)) [
    | yes old ↦
        get_elem?-set_ne q.raw_data q.tail (slot capacity q.head i) x
          (slot-ne-tail q i r.valid (omega (arith, r.count)))
        ∙ r.items i old
        ∙ sym (get_elem?-append_left xs (x ∷ []) i old)
    | no end ↦
        let at_end : i ≡ length xs = omega (arith, length-append xs (x ∷ [])) in
        let at_tail : slot capacity q.head i ≡ q.tail = rw (at_end, r.count) (slot-len q r.valid) in
        rw at_tail (
          get_elem?-set_self q.raw_data q.tail x (omega (arith, r.valid.tail_in, r.valid.storage))
          ∙ sym (get_elem?-append_end xs x i at_end))
  ]

  pub pushed-Represents :
      (q : RingQueue N) (x : N) (xs : List N)
      → Represents capacity q xs
      → len capacity q ≢ capacity
      → Represents capacity (pushed q x) (xs ++ x ∷ [])
  pushed-Represents q x xs r ne = record {
    valid = pushed-IsValid q x r.valid;
    count = omega (arith, length-append xs (x ∷ []), pushed-len q x r.valid ne, r.count);
    items = pushed-items q x xs r ne;
  }
