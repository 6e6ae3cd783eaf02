-- ===== src/Map/Search.antt =====
-- `binary_search` of `ElusivMap`, and `contains`.
use elusiv.Base.{
  ltb, ◌==◌, if◌then◌else◌, ℕ, zero, suc, ◌+◌, ◌-◌, ◌/◌, min, max, Bool, true, false, Option, none,
  some,
}
use Prim.Native.Nat.{compare, Ordering}
use elusiv.Map.{
  ElusivMap, duplicate, key_too_large, key_not_found, Outcome, done, refused, aborted, ◌>>=◌, at,
  key, value, get_next, get_ptr, is_empty,
}

-- The variables of the loop.
pub record Cursor : Type 0 where
  pub mid : ℕ
  pub low : ℕ
  pub high : ℕ
  pub low_ptr : ℕ
  pub mid_ptr : ℕ

module _ {ℓ} {V : Type ℓ} (capacity : ℕ) where
  unfoldable pub is_full : ElusivMap V → Bool
  is_full m = m.len == capacity

  -- The body of the loop. The duplicate's value is read at the place `mid`, as the source does.
  unfoldable pub search_round : ElusivMap V → ℕ → Cursor → Outcome V Cursor
  unfolding get_ptr
  search_round m k c =
      let mid = c.low + (c.high - c.low) / 2 in
      do
        mid_ptr ← get_ptr m c.low_ptr c.low (mid - c.low)
        mid_key ← key m mid_ptr
        elim (compare k mid_key) [
          | Ordering.lt ↦ done (record c { mid = mid; high = mid; mid_ptr = mid_ptr })
          | Ordering.gt ↦ do
            next_ptr ← get_next m mid_ptr
            done (record c { mid = mid; low = mid + 1; low_ptr = next_ptr; mid_ptr = mid_ptr })
          | Ordering.eq ↦ do v ← at m.values mid; refused (duplicate v)
        ]

  -- `while low < high`, on fuel; each round shrinks the interval, so its width is enough.
  unfoldable pub search_loop : ElusivMap V → ℕ → ℕ → Cursor → Outcome V Cursor
  unfolding search_round
  search_loop m k zero c = done c
  search_loop m k (suc fuel) c = elim (ltb c.low c.high) [
    | true ↦ search_round m k c >>= search_loop m k fuel
    | false ↦ done c
  ]

  -- The search between the minimum and the maximum.
  unfoldable pub search_inside : ElusivMap V → ℕ → Outcome V ℕ
  unfolding search_loop
  search_inside m k = do
    c ←
        search_loop m k m.len
          (record { mid = 0; low = 0; high = m.len; low_ptr = m.min_ptr; mid_ptr = 0 })
    mid_key ← key m c.mid_ptr
    done (if ltb mid_key k then c.mid + 1 else c.mid)

  unfoldable pub search_above_min : ElusivMap V → ℕ → Outcome V ℕ
  unfolding search_inside is_full
  search_above_min m k = do
    max ← key m m.max_ptr
    elim (compare k max) [
      | Ordering.eq ↦ do v ← value m m.max_ptr; refused (duplicate v)
      | Ordering.gt ↦ if is_full m then refused key_too_large else done m.len
      | Ordering.lt ↦ search_inside m k
    ]

  unfoldable pub binary_search : ElusivMap V → ℕ → Outcome V ℕ
  unfolding search_above_min is_empty
  binary_search m k = if is_empty m then done 0 else do
    min ← key m m.min_ptr
    elim (compare k min) [
      | Ordering.eq ↦ do v ← value m m.min_ptr; refused (duplicate v)
      | Ordering.lt ↦ done 0
      | Ordering.gt ↦ search_above_min m k
    ]

  -- `contains`: the value of a duplicate, and nothing otherwise.
  unfoldable pub found : Outcome V ℕ → Outcome V (Option V)
  found (done i) = done none
  found (refused (duplicate v)) = done (some v)
  found (refused key_too_large) = done none
  found (refused key_not_found) = done none
  found aborted = aborted

  unfoldable pub contains : ElusivMap V → ℕ → Outcome V (Option V)
  unfolding found binary_search
  contains m k = found (binary_search m k)
