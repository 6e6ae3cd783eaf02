-- ===== src/Buffer/Invariant.antt =====
-- The invariant of a buffer account, and that the calls keep it.
use elusiv.Base.{
  ltb, ◌==◌, if◌then◌else◌, ==_iff, length, set, take, length-set, ProgramError, Result, ok, err,
  panic, u32_mod, ℕ, zero, suc, ◌+◌, ◌%◌, ◌≤◌, ◌<◌, min, ◌≡◌, Bool, true, false, List, [], ◌∷◌,
  arith, ℕ_discrete,
}
use native.Mathlib.Nat.{mod-eq_of_lt, mod_self}
use elusiv.Bytes.Find.{AllSized}
use elusiv.Buffer.{RingBuffer, push, push_unless, try_insert, contains}

-- While the buffer is not full its values stand at its beginning, and `pointer` behind them.
pub record IsValid (value_size capacity : ℕ) (b : RingBuffer) : Type 0 where
  pub positive : 0 < capacity
  pub small : capacity < u32_mod
  pub storage : length b.values ≡ capacity
  pub sized : AllSized value_size b.values
  pub pointer_in : b.pointer < capacity
  pub count_in : b.count ≤ capacity
  pub filling : b.count < capacity → b.pointer ≡ b.count

set-AllSized :
    (size : ℕ) (cs : List (List ℕ)) (i : ℕ) (v : List ℕ)
    → AllSized size cs
    → length v ≡ size
    → AllSized size (set cs i v)
set-AllSized size [] i v s e = tt
set-AllSized size (c ∷ cs) zero v s e = (e, s.1)
set-AllSized size (c ∷ cs) (suc i) v s e = (s.0, set-AllSized size cs i v s.1 e)

pub take-AllSized : (size n : ℕ) (cs : List (List ℕ)) → AllSized size cs → AllSized size (take n cs)
take-AllSized size zero cs s = tt
take-AllSized size (suc n) [] s = tt
take-AllSized size (suc n) (c ∷ cs) s = (s.0, take-AllSized size n cs s.1)

module _ (value_size capacity : ℕ) where
  -- The place behind `pointer`, going round.
  abbrev pub next : ℕ → ℕ
  next p = if p + 1 == capacity then 0 else p + 1

  next_lem : (p : ℕ) → p < capacity → (p + 1) % capacity ≡ next p
  next_lem p h = elim (ℕ_discrete (p + 1) capacity) [
    | yes e ↦
        let wraps : (p + 1) % capacity ≡ 0 = rw e (mod_self capacity) in
        rw ((==_iff (p + 1) capacity).1 e) wraps
    | no ne ↦ ground (arith, mod-eq_of_lt {n = p + 1} {m = capacity})
  ]

  abbrev pub pushed : RingBuffer → List ℕ → RingBuffer
  pushed b v = record b {
    values = set b.values b.pointer v;
    pointer = next b.pointer;
    count = if b.count == capacity then b.count else b.count + 1;
  }

  -- Under the invariant `push` does not panic, and writes the value at `pointer`.
  pub push_lem :
      (b : RingBuffer) (v : List ℕ)
      → IsValid value_size capacity b
      → push value_size capacity b v ≡ (pushed b v, ok tt)
  unfolding push
  push_lem b v i =
      let at : b.pointer % capacity ≡ b.pointer = mod-eq_of_lt i.pointer_in in
      let after : (b.pointer + 1) % capacity ≡ next b.pointer = next_lem b.pointer i.pointer_in in
      let grown : min (b.count + 1) capacity
          ≡ (if b.count == capacity then b.count else b.count + 1) =
        ground arith in
      let fits : ltb (next b.pointer) u32_mod ≡ true = ground arith in
      let inside : ltb b.pointer (length b.values) ≡ true = ground arith in
      let small : ltb (if b.count == capacity then b.count else b.count + 1) u32_mod ≡ true =
        ground arith in
      rw (at, after, grown, fits, inside, small)

  pub pushed-IsValid :
      (b : RingBuffer) (v : List ℕ)
      → length v ≡ value_size
      → IsValid value_size capacity b
      → IsValid value_size capacity (pushed b v)
  pushed-IsValid b v e i = record {
    positive = i.positive;
    small = i.small;
    storage = omega (arith, length-set b.values b.pointer v, i.storage);
    sized = set-AllSized value_size b.values b.pointer v i.sized e;
    pointer_in = ground arith;
    count_in = ground arith;
    filling = λ h. ground (arith, i.filling);
  }

  push_unless-IsValid :
      (r : Result ProgramError Bool) (b : RingBuffer) (v : List ℕ)
      → length v ≡ value_size
      → IsValid value_size capacity b
      → IsValid value_size capacity (push_unless value_size capacity r b v).0
  unfolding push_unless
  push_unless-IsValid (ok true) b v e i = i
  push_unless-IsValid (ok false) b v e i = rw (push_lem b v i) (pushed-IsValid b v e i)
  push_unless-IsValid (err _) b v e i = i
  push_unless-IsValid panic b v e i = i

  -- `try_insert` keeps the invariant, on every branch.
  pub try_insert-IsValid :
      (b : RingBuffer) (v : List ℕ)
      → length v ≡ value_size
      → IsValid value_size capacity b
      → IsValid value_size capacity (try_insert value_size capacity b v).0
  unfolding try_insert
  try_insert-IsValid b v e i = push_unless-IsValid (contains value_size capacity b v) b v e i
