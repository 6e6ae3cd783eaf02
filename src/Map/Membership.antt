-- ===== src/Map/Membership.antt =====
-- The loop of `binary_search`, and the keys for which `contains` returns a value.
use elusiv.Base.{
  ltb, if◌then◌else◌, lt→ltb, ge→ltb, get_elem?, ℕ, zero, suc, ◌+◌, ◌-◌, ◌/◌, ◌≤◌, ◌<◌, ◌≡◌, refl,
  sym, ap, ◌∙◌, Bool, true, false, some, arith, dec_lt, ℕ_discrete,
}
use Prim.Native.Nat.{compare, Ordering}
use elusiv.Map.{
  ElusivMap, duplicate, key_too_large, key_not_found, Outcome, done, refused, aborted, ◌>>=◌, key,
  get_next, get_ptr, is_empty,
}
use elusiv.Map.Search.{
  Cursor, is_full, search_round, search_loop, search_inside, search_above_min, binary_search, found,
  contains,
}
use elusiv.Map.Pointers.{NeverRefuses, at-NeverRefuses, get_ptr-NeverRefuses}

module _ {ℓ} {V : Type ℓ} where
  -- If the outcome is a duplicate, the key is in the map.
  abbrev Sound {κ} : {A : Type κ} → ElusivMap V → ℕ → Outcome V A → Type (ℓ ⊔ κ)
  Sound m k o = (v : V) → o ≡ refused (duplicate v) → (ptr : ℕ) × (get_elem? m.keys ptr ≡ some k)

  never-Sound {κ} :
      {A : Type κ} (m : ElusivMap V) (k : ℕ) (o : Outcome V A) → NeverRefuses o → Sound m k o
  never-Sound m k o h v e = absurd (h (duplicate v) e)

  >>=-Sound {κ} :
      {A : Type 0} {B : Type κ} (m : ElusivMap V) (k : ℕ) (o : Outcome V A) (f : A → Outcome V B)
      → Sound m k o
      → ((a : A) → o ≡ done a → Sound m k (f a))
      → Sound m k (o >>= f)
  >>=-Sound m k (done a) f p q = q a refl
  >>=-Sound m k (refused e) f p q = λ v h. p v cc
  >>=-Sound m k aborted f p q = λ v h. cc

  key-eq-done : (m : ElusivMap V) (ptr k : ℕ) → key m ptr ≡ done k → get_elem? m.keys ptr ≡ some k
  key-eq-done m ptr k h = ground arith

  compare-Sound :
      {A : Type 0} (m : ElusivMap V) (k ptr held : ℕ) (a b c : Outcome V A)
      → key m ptr ≡ done held
      → Sound m k a
      → Sound m k c
      → Sound m k (elim (compare k held) [ Ordering.lt ↦ a | Ordering.eq ↦ b | Ordering.gt ↦ c ])
  compare-Sound m k ptr held a b c e p r = elim (ℕ_discrete k held) [
    | yes same ↦ λ v h. (ptr, rw same (key-eq-done m ptr held e))
    | no differ ↦ elim (dec_lt k held) [
      | yes lt ↦ let q : compare k held ≡ Ordering.lt = ground arith in rw q p
      | no ge ↦ let q : compare k held ≡ Ordering.gt = ground arith in rw q r
    ]
  ]

  done-Sound {κ} : {A : Type κ} (m : ElusivMap V) (k : ℕ) (a : A) → Sound m k (done a)
  done-Sound m k a v h = cc

  branch-Sound {κ} :
      {A : Type κ} (m : ElusivMap V) (k : ℕ) (b : Bool) (x y : Outcome V A)
      → Sound m k x
      → Sound m k y
      → Sound m k (elim b [ true ↦ x | false ↦ y ])
  branch-Sound m k true x y p q = p
  branch-Sound m k false x y p q = q

  if-Sound {κ} :
      {A : Type κ} (m : ElusivMap V) (k : ℕ) (b : Bool) (x y : Outcome V A)
      → Sound m k x
      → Sound m k y
      → Sound m k (if b then x else y)
  if-Sound m k true x y p q = p
  if-Sound m k false x y p q = q

  too_large-Sound : (m : ElusivMap V) (k : ℕ) → Sound {A = ℕ} m k (refused key_too_large)
  too_large-Sound m k v h = cc

module _ {ℓ} {V : Type ℓ} (capacity : ℕ) where
  -- A round that does not end the search makes the interval narrower.
  search_round_narrower :
      (m : ElusivMap V) (k : ℕ) (c c' : Cursor)
      → c.low < c.high
      → search_round capacity m k c ≡ done c'
      → c'.high - c'.low < c.high - c.low
  unfolding search_round
  search_round_narrower m k c c' h e = ground arith

  search_round-Sound :
      (m : ElusivMap V) (k : ℕ) (c : Cursor) → Sound m k (search_round capacity m k c)
  unfolding search_round
  search_round-Sound m k c =
      let mid = c.low + (c.high - c.low) / 2 in
      >>=-Sound m k (get_ptr m c.low_ptr c.low (mid - c.low)) _
        (never-Sound m k (get_ptr m c.low_ptr c.low (mid - c.low))
          (get_ptr-NeverRefuses m c.low_ptr c.low (mid - c.low)))
        (λ mid_ptr _.
          >>=-Sound m k (key m mid_ptr) _
            (never-Sound m k (key m mid_ptr) (at-NeverRefuses m.keys mid_ptr))
            (λ mid_key e. compare-Sound m k mid_ptr mid_key _ _ _ e (done-Sound m k _) (
              >>=-Sound m k (get_next m mid_ptr) _
                (never-Sound m k (get_next m mid_ptr) (at-NeverRefuses m.next mid_ptr))
                (λ next_ptr _. done-Sound m k _))))

  search_loop-Sound :
      (m : ElusivMap V) (k fuel : ℕ) (c : Cursor) → Sound m k (search_loop capacity m k fuel c)
  unfolding search_loop
  search_loop-Sound m k zero c = done-Sound m k c
  search_loop-Sound m k (suc fuel) c =
      branch-Sound m k (ltb c.low c.high) _ _
        (>>=-Sound m k (search_round capacity m k c) (search_loop capacity m k fuel)
          (search_round-Sound m k c) (λ c' _. search_loop-Sound m k fuel c'))
        (done-Sound m k c)

  search_above_min-Sound : (m : ElusivMap V) (k : ℕ) → Sound m k (search_above_min capacity m k)
  unfolding search_above_min search_inside
  search_above_min-Sound m k =
      let read = λ (ptr : ℕ). never-Sound m k (key m ptr) (at-NeverRefuses m.keys ptr) in
      >>=-Sound m k (key m m.max_ptr) _ (read m.max_ptr) (λ max e.
        compare-Sound m k m.max_ptr max _ _ _ e
          (>>=-Sound m k (search_loop capacity m k m.len _) _ (search_loop-Sound m k m.len _)
            (λ c _.
              >>=-Sound m k (key m c.mid_ptr) _ (read c.mid_ptr) (λ mid_key _. done-Sound m k _)))
          (if-Sound m k (is_full capacity m) _ _ (too_large-Sound m k) (done-Sound m k m.len)))

  binary_search-Sound : (m : ElusivMap V) (k : ℕ) → Sound m k (binary_search capacity m k)
  unfolding binary_search
  binary_search-Sound m k = if-Sound m k (is_empty m) _ _ (done-Sound m k 0) (
      >>=-Sound m k (key m m.min_ptr) _
        (never-Sound m k (key m m.min_ptr) (at-NeverRefuses m.keys m.min_ptr))
        (λ min e.
          compare-Sound m k m.min_ptr min _ _ _ e (done-Sound m k 0) (search_above_min-Sound m k)))

  found_duplicate :
      (o : Outcome V ℕ) (v : V) → found capacity o ≡ done (some v) → o ≡ refused (duplicate v)
  unfolding found
  found_duplicate (done i) v h = cc
  found_duplicate (refused (duplicate w)) v h = cc
  found_duplicate (refused key_too_large) v h = cc
  found_duplicate (refused key_not_found) v h = cc
  found_duplicate aborted v h = cc

  -- A key for which `contains` returns a value stands in the map's array of keys, whatever the map.
  pub contains-found :
      (m : ElusivMap V) (k : ℕ) (v : V)
      → contains capacity m k ≡ done (some v)
      → (ptr : ℕ) × (get_elem? m.keys ptr ≡ some k)
  unfolding contains
  contains-found m k v h =
      binary_search-Sound m k v (found_duplicate (binary_search capacity m k) v h)

  search_loop_stopped :
      (m : ElusivMap V) (k fuel : ℕ) (c : Cursor)
      → c.high ≤ c.low
      → search_loop capacity m k fuel c ≡ done c
  unfolding search_loop
  search_loop_stopped m k zero c h = refl
  search_loop_stopped m k (suc fuel) c h =
      ap
        (λ b. elim b [
          | true ↦ search_round capacity m k c >>= search_loop capacity m k fuel
          | false ↦ done c
        ])
        (ge→ltb c.low c.high h)

  search_loop_step :
      (m : ElusivMap V) (k fuel : ℕ) (c : Cursor)
      → c.low < c.high
      → search_loop capacity m k (suc fuel) c
        ≡ (search_round capacity m k c >>= search_loop capacity m k fuel)
  unfolding search_loop
  search_loop_step m k fuel c h =
      ap
        (λ b. elim b [
          | true ↦ search_round capacity m k c >>= search_loop capacity m k fuel
          | false ↦ done c
        ])
        (lt→ltb c.low c.high h)

  >>=-cong {κ} :
      {A : Type κ} (o : Outcome V A) (f g : A → Outcome V A)
      → ((a : A) → o ≡ done a → f a ≡ g a)
      → (o >>= f) ≡ (o >>= g)
  >>=-cong (done a) f g h = h a refl
  >>=-cong (refused e) f g h = refl
  >>=-cong aborted f g h = refl

  -- As many rounds as the interval is wide end the loop of the search: more of them change nothing.
  pub search_loop_enough :
      (m : ElusivMap V) (k fuel more : ℕ) (c : Cursor)
      → c.high - c.low ≤ fuel
      → search_loop capacity m k (fuel + more) c ≡ search_loop capacity m k fuel c
  search_loop_enough m k zero more c h =
      search_loop_stopped m k (0 + more) c (omega arith)
      ∙ sym (search_loop_stopped m k 0 c (omega arith))
  search_loop_enough m k (suc fuel) more c h = elim (dec_lt c.low c.high) [
    | yes lt ↦
        let e : suc fuel + more ≡ suc (fuel + more) = omega arith in
        rw (e, search_loop_step m k (fuel + more) c lt, search_loop_step m k fuel c lt)
          (>>=-cong (search_round capacity m k c) (search_loop capacity m k (fuel + more))
            (search_loop capacity m k fuel)
            (λ c' r.
              search_loop_enough m k fuel more c'
                (let n = search_round_narrower m k c c' lt r in omega arith)))
    | no ge ↦
        search_loop_stopped m k (suc fuel + more) c (omega arith)
        ∙ sym (search_loop_stopped m k (suc fuel) c (omega arith))
  ]
