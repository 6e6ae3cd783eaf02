-- ===== src/Map/Full.antt =====
-- The insertion directly below the maximum of a full map (elusiv/src/map.rs, `insert_at`).
use elusiv.Base.{
  leb, ◌==◌, le→leb, ==_refl, Bool-cases, get_elem?, get_elem?-set_ne, ℕ, ◌-◌, ◌≤◌, ◌<◌, min, ◌≡◌,
  refl, ◌≢◌, inl, inr, true, false, Option, none, some, arith,
}
use Prim.Native.Nat.{compare, Ordering}
use elusiv.Map.{ElusivMap, done, ◌>>=◌, at, is_empty}
use elusiv.Map.Search.{is_full, search_above_min, binary_search, found, contains}
use elusiv.Map.Insert.{max_ptr_after, insert_full, insert_at, insert_found, try_insert}
use elusiv.Map.Length.{place_entry_lem, insert_full_parts}

max_ptr_after_lem :
    (len new_ptr before : ℕ) → 1 ≤ len → max_ptr_after (len - 1) len new_ptr before ≡ before
unfolding max_ptr_after
max_ptr_after_lem len new_ptr before h = ground arith

module _ {ℓ} {V : Type ℓ} (capacity : ℕ) where
  -- A key above the maximum of a full map is not found.
  search_above_max :
      (m : ElusivMap V) (k high : ℕ)
      → get_elem? m.keys m.max_ptr ≡ some high
      → high < k
      → found capacity (search_above_min capacity m k) ≡ done none
  unfolding found search_above_min
  search_above_max m k high f h =
      let gt : compare k high ≡ Ordering.gt = ground arith in
      let q : at {V = V} m.keys m.max_ptr ≡ done high = rw (f, at) refl in
      rw (q, ◌>>=◌, gt)
        (elim (Bool-cases (is_full capacity m)) [ inl y ↦ rw y refl | inr n ↦ rw n refl ])

  contains_above_max :
      (m : ElusivMap V) (k low high : ℕ)
      → get_elem? m.keys m.min_ptr ≡ some low
      → get_elem? m.keys m.max_ptr ≡ some high
      → low < k
      → high < k
      → m.len ≢ 0
      → contains capacity m k ≡ done none
  unfolding contains binary_search is_empty
  contains_above_max m k low high e f h₁ h₂ ne =
      let nonempty : (m.len == 0) ≡ false = ground arith in
      let gt : compare k low ≡ Ordering.gt = ground arith in
      let q : at {V = V} m.keys m.min_ptr ≡ done low = rw (e, at) refl in
      rw (nonempty, q, ◌>>=◌, gt) (search_above_max m k high f h₂)

  -- The insertion at the last place of a full map, taken apart.
  insert_last :
      (m m' : ElusivMap V) (k : ℕ) (v : V) (out : Option (ℕ × V))
      → m.len ≡ capacity
      → binary_search capacity m k ≡ done (m.len - 1)
      → try_insert capacity m k v ≡ done (m', out)
      → insert_full capacity m k v (m.len - 1) ≡ done (m', out)
  unfolding try_insert insert_found insert_at is_full
  insert_last m m' k v out full place h =
      let le : leb (m.len - 1) m.len ≡ true = le→leb (m.len - 1) m.len (omega arith) in
      let eq : (m.len == capacity) ≡ true = rw full (==_refl capacity) in rw (place, le, eq) at h

  -- In a full map of at least two entries, let a key belong between the entry before the maximum and the
  -- maximum, by the keys of the two, and let the search find its place, the last one. If the insertion
  -- returns, `contains` does not find the key that has just been inserted.
  pub try_insert-below_max :
      (m m' : ElusivMap V) (k : ℕ) (v : V) (out : Option (ℕ × V)) (low before before_key : ℕ)
      → m.len ≡ capacity
      → 2 ≤ m.len
      → binary_search capacity m k ≡ done (m.len - 1)
      → get_elem? m.prev m.max_ptr ≡ some before
      → get_elem? m.keys m.min_ptr ≡ some low
      → get_elem? m.keys before ≡ some before_key
      → m.max_ptr ≢ before
      → m.max_ptr ≢ m.min_ptr
      → low < k
      → before_key < k
      → try_insert capacity m k v ≡ done (m', out)
      → contains capacity m' k ≡ done none
  try_insert-below_max m m' k v out low before before_key full two place e min_key prev_key
        ne_before ne_min above_low above_before h =
      let (before', m₃, e', placed, result) =
        insert_full_parts capacity m m' k v (m.len - 1) out
          (insert_last m m' k v out full place h) in
      let (keys, len, min) = place_entry_lem capacity m m₃ m.max_ptr k v (m.len - 1) placed in
      let same : before' ≡ before = cc in
      let min_eq : m₃.min_ptr ≡ m.min_ptr = min (omega arith) in
      let last : max_ptr_after (m.len - 1) m.len m.max_ptr before ≡ before =
        max_ptr_after_lem m.len m.max_ptr before (omega arith) in
      let low_kept : get_elem? m₃.keys m₃.min_ptr ≡ some low =
        rw (keys, min_eq, get_elem?-set_ne m.keys m.max_ptr m.min_ptr k ne_min) min_key in
      let high_kept : get_elem? m₃.keys before ≡ some before_key =
        rw (keys, get_elem?-set_ne m.keys m.max_ptr before k ne_before) prev_key in
      rw result (
        contains_above_max
          (record m₃ { max_ptr = max_ptr_after (m.len - 1) m₃.len m.max_ptr before' }) k low
          before_key low_kept (rw (len, same, last) high_kept) above_low above_before
          (rw len (λ z. omega arith)))
