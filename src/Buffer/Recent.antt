-- ===== src/Buffer/Recent.antt =====
-- How long a buffer account refuses a value: for as many further insertions as keep it in the ring.
use elusiv.Base.{
  ltb, ◌==◌, if◌then◌else◌, length, get_elem?, take, get_elem?-set_self, get_elem?-set_ne,
  get_elem?-take, from_elusiv, duplicate_value, ProgramError, Result, ok, err, panic, ℕ, zero, suc,
  ◌+◌, ◌-◌, ◌≤◌, ◌<◌, ◌≡◌, refl, sym, ◌∙◌, subst, ◌⊎◌, inl, inr, Bool, true, false, some, List, [],
  ◌∷◌, arith,
}
use elusiv.Bytes.Find.{AllSized, contains_lem, position_from_found}
use elusiv.Buffer.{push_unless, RingBuffer, try_insert, contains}
use elusiv.Buffer.Invariant.{
  push_lem, try_insert-IsValid, pushed-IsValid, IsValid, pushed, take-AllSized,
}

-- The calls of `try_insert` in order; a refused one leaves the buffer as it is.
unfoldable pub try_insert_all : ℕ → ℕ → RingBuffer → List (List ℕ) → RingBuffer
unfolding try_insert
try_insert_all size capacity b [] = b
try_insert_all size capacity b (v ∷ vs) =
    try_insert_all size capacity (try_insert size capacity b v).0 vs

-- The place that `r` more insertions write last is `place`, and it holds `v`.
record Kept (capacity : ℕ) (b : RingBuffer) (v : List ℕ) (place r : ℕ) : Type 0 where
  inside : place < b.count
  holds : get_elem? b.values place ≡ some v
  due : r < capacity
  ahead : (if ltb (b.pointer + r) capacity then b.pointer + r else b.pointer + r - capacity) ≡ place

module _ (size capacity : ℕ) where
  pushed-Kept_self :
      (b : RingBuffer) (v : List ℕ)
      → IsValid size capacity b
      → Kept capacity (pushed size capacity b v) v b.pointer (capacity - 1)
  pushed-Kept_self b v i = record {
    inside = ground (arith, i.filling);
    holds = get_elem?-set_self b.values b.pointer v (omega (arith, i.storage, i.pointer_in));
    due = omega (arith, i.positive);
    ahead = ground (arith, i.pointer_in);
  }

  pushed-Kept :
      (b : RingBuffer) (v w : List ℕ) (place r : ℕ)
      → IsValid size capacity b
      → Kept capacity b v place (suc r)
      → Kept capacity (pushed size capacity b w) v place r
  pushed-Kept b v w place r i k = record {
    inside = ground (arith, k.inside);
    holds = get_elem?-set_ne b.values b.pointer place w (ground (arith, k.ahead, k.due)) ∙ k.holds;
    due = omega (arith, k.due);
    ahead = ground (arith, k.ahead, k.due, i.pointer_in);
  }

  module _ (large : 2 ≤ size) where
    -- A kept value is found.
    contains-Kept :
        (b : RingBuffer) (v : List ℕ) (place r : ℕ)
        → length v ≡ size
        → IsValid size capacity b
        → Kept capacity b v place r
        → contains size capacity b v ≡ ok true
    unfolding contains
    contains-Kept b v place r e i k =
        let some_value : (b.count == 0) ≡ false = ground (arith, k.inside) in
        let here : get_elem? (take b.count b.values) place ≡ some v =
          get_elem?-take b.count b.values place k.inside ∙ k.holds in
        let (n, found) = position_from_found 0 v (take b.count b.values) place here in
        rw (
          some_value,
          contains_lem size v large e (take b.count b.values)
              (take-AllSized size b.count b.values i.sized),
          found,
        )

  push_unless_state :
      (r : Result ProgramError Bool) (b : RingBuffer) (w : List ℕ)
      → IsValid size capacity b
      → ((push_unless size capacity r b w).0 ≡ b)
        ⊎ ((push_unless size capacity r b w).0 ≡ pushed size capacity b w)
  unfolding push_unless
  push_unless_state (ok true) b w i = inl refl
  push_unless_state (ok false) b w i = rw (push_lem size capacity b w i) (inr refl)
  push_unless_state (err _) b w i = inl refl
  push_unless_state panic b w i = inl refl

  try_insert_state :
      (b : RingBuffer) (w : List ℕ)
      → IsValid size capacity b
      → ((try_insert size capacity b w).0 ≡ b)
        ⊎ ((try_insert size capacity b w).0 ≡ pushed size capacity b w)
  unfolding try_insert
  try_insert_state b w i = push_unless_state (contains size capacity b w) b w i

  Kept-contains :
      (b : RingBuffer) (v : List ℕ) (place r : ℕ) (vs : List (List ℕ))
      → 2 ≤ size
      → length v ≡ size
      → AllSized size vs
      → IsValid size capacity b
      → Kept capacity b v place r
      → length vs ≤ r
      → contains size capacity (try_insert_all size capacity b vs) v ≡ ok true
  unfolding try_insert_all
  Kept-contains b v place r [] large e s i k h = contains-Kept large b v place r e i k
  Kept-contains b v place zero (w ∷ vs) large e s i k h = elim h [ ]
  Kept-contains b v place (suc r) (w ∷ vs) large e s i k h =
      let valid = try_insert-IsValid size capacity b w s.0 i in
      let b' = (try_insert size capacity b w).0 in
      elim (try_insert_state b w i) [
        | inl same ↦
            Kept-contains b' v place (suc r) vs large e s.1 valid
              (subst (λ t. Kept capacity t v place (suc r)) (sym same) k) (omega arith)
        | inr moved ↦
            Kept-contains b' v place r vs large e s.1 valid
              (subst (λ t. Kept capacity t v place r) (sym moved) (pushed-Kept b v w place r i k))
              (omega arith)
      ]

  accepted_state :
      (r : Result ProgramError Bool) (b b' : RingBuffer) (v : List ℕ)
      → IsValid size capacity b
      → push_unless size capacity r b v ≡ (b', ok tt)
      → b' ≡ pushed size capacity b v
  unfolding push_unless
  accepted_state (ok true) b b' v i e = cc
  accepted_state (ok false) b b' v i e = cc (push_lem size capacity b v i)
  accepted_state (err _) b b' v i e = cc
  accepted_state panic b b' v i e = cc

  -- A value that `try_insert` has accepted is refused with `DuplicateValue`, and the buffer left as it
  -- is, for at least as long as fewer than `capacity` further insertions have been tried.
  pub try_insert_duplicate :
      (b b' : RingBuffer) (v : List ℕ) (vs : List (List ℕ))
      → 2 ≤ size
      → length v ≡ size
      → AllSized size vs
      → IsValid size capacity b
      → try_insert size capacity b v ≡ (b', ok tt)
      → length vs < capacity
      → let later = try_insert_all size capacity b' vs in
        try_insert size capacity later v ≡ (later, err (from_elusiv duplicate_value))
  unfolding try_insert push_unless
  try_insert_duplicate b b' v vs large e s i accepted h =
      let inserted : b' ≡ pushed size capacity b v =
        accepted_state (contains size capacity b v) b b' v i accepted in
      let kept : Kept capacity b' v b.pointer (capacity - 1) =
        subst (λ t. Kept capacity t v b.pointer (capacity - 1)) (sym inserted)
          (pushed-Kept_self b v i) in
      let valid : IsValid size capacity b' =
        subst (IsValid size capacity) (sym inserted) (pushed-IsValid size capacity b v e i) in
      rw (Kept-contains b' v b.pointer (capacity - 1) vs large e s valid kept (omega arith))
