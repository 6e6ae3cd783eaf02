-- ===== src/Map/Insert.antt =====
-- `insert_at` and `try_insert` of `ElusivMap`, and `reset`.
use elusiv.Base.{
  ltb, leb, ◌==◌, if◌then◌else◌, u16_mod, add_u32, ℕ, zero, suc, ◌+◌, ◌-◌, ◌||◌, Option, none, some,
  List, [], ◌∷◌,
}
use elusiv.Map.{
  ElusivMap, duplicate, key_too_large, key_not_found, Outcome, done, refused, aborted, ◌>>=◌, at,
  put, key, value, get_prev, get_next, get_ptr, compute_mid, mid_ptr_count,
}
use elusiv.Map.Search.{is_full, binary_search}

-- The `max_ptr` that a full map is left with.
unfoldable pub max_ptr_after : ℕ → ℕ → ℕ → ℕ → ℕ
max_ptr_after index len new_ptr predecessor = if index == len then new_ptr else predecessor

module _ {ℓ} {V : Type ℓ} where
  -- `set`.
  unfoldable pub set_entry : ElusivMap V → ℕ → ℕ → V → Outcome V (ElusivMap V)
  set_entry m ptr k v = do
    keys' ← put m.keys ptr k
    values' ← put m.values ptr v
    done (record m { keys = keys'; values = values' })

  unfoldable pub link_ptrs : ElusivMap V → ℕ → ℕ → Outcome V (ElusivMap V)
  link_ptrs m a b = do
    next' ← put m.next a b
    prev' ← put m.prev b a
    done (record m { next = next'; prev = prev' })

  -- `ElusivMapPtr(n.try_into().unwrap())`.
  unfoldable pub pointer_of : ℕ → Outcome V ℕ
  pointer_of n = if ltb n u16_mod then done n else aborted

  -- The three ways to link the new pointer.
  unfoldable pub link_new : ElusivMap V → ℕ → ℕ → Outcome V (ElusivMap V)
  unfolding link_ptrs get_ptr
  link_new m new_ptr index =
      if index == 0
      then (do m' ← link_ptrs m new_ptr m.min_ptr; done (record m' { min_ptr = new_ptr }))
      else if index == m.len
      then (do m' ← link_ptrs m m.max_ptr new_ptr; done (record m' { max_ptr = new_ptr }))
      else do
        prev ← get_ptr m m.min_ptr 0 (index - 1)
        next ← get_next m prev
        m' ← link_ptrs m prev new_ptr
        link_ptrs m' new_ptr next

module _ {ℓ} {V : Type ℓ} (capacity : ℕ) where
  -- The body of the loop of `update_mid_ptrs` for the mid-pointer `i`.
  unfoldable pub update_mid_ptr : ElusivMap V → ℕ → ℕ → Outcome V (ElusivMap V)
  unfolding compute_mid is_full
  update_mid_ptr m insertion_index i =
      let new_len = if is_full capacity m then m.len else add_u32 m.len 1 in
      let mid = compute_mid i m.len in
      let new_mid = compute_mid i new_len in
      if leb insertion_index mid
      then (if mid == new_mid || is_full capacity m
          then (do
            ptr ← at m.mid_ptr i
            ptr' ← get_prev m ptr
            mid_ptr' ← put m.mid_ptr i ptr'
            done (record m { mid_ptr = mid_ptr' }))
          else done m)
      else (if mid == new_mid then done m else (do
        ptr ← at m.mid_ptr i
        ptr' ← get_next m ptr
        mid_ptr' ← put m.mid_ptr i ptr'
        done (record m { mid_ptr = mid_ptr' })))

  -- The rounds from `i` on, with their number.
  unfoldable pub update_mid_ptrs_from : ℕ → ℕ → ElusivMap V → ℕ → Outcome V (ElusivMap V)
  unfolding update_mid_ptr
  update_mid_ptrs_from zero i m insertion_index = done m
  update_mid_ptrs_from (suc rounds) i m insertion_index =
      update_mid_ptr m insertion_index i >>= λ m'.
      update_mid_ptrs_from rounds (i + 1) m' insertion_index

  unfoldable pub update_mid_ptrs : ElusivMap V → ℕ → Outcome V (ElusivMap V)
  unfolding update_mid_ptrs_from
  update_mid_ptrs m insertion_index = update_mid_ptrs_from mid_ptr_count 0 m insertion_index

  -- The statements that both cases share: the entry is written, linked, and the mid-pointers follow.
  unfoldable pub place_entry : ElusivMap V → ℕ → ℕ → V → ℕ → Outcome V (ElusivMap V)
  unfolding set_entry link_new update_mid_ptrs
  place_entry m new_ptr k v index =
      set_entry m new_ptr k v >>= λ m₁. link_new m₁ new_ptr index >>= λ m₂. update_mid_ptrs m₂ index

  -- The insertion into a map that is not full: the arrays are filled in order.
  unfoldable pub insert_not_full :
      ElusivMap V → ℕ → V → ℕ → Outcome V (ElusivMap V × Option (ℕ × V))
  unfolding place_entry pointer_of
  insert_not_full m k v index = do
    new_ptr ← pointer_of m.len
    m' ← place_entry m new_ptr k v index
    done (record m' { len = add_u32 m'.len 1 }, none)

  -- The insertion into a full map: the new entry takes the place of the maximum, which is returned.
  unfoldable pub insert_full : ElusivMap V → ℕ → V → ℕ → Outcome V (ElusivMap V × Option (ℕ × V))
  unfolding place_entry max_ptr_after
  insert_full m k v index = do
    max_key ← key m m.max_ptr
    max_value ← value m m.max_ptr
    max_ptr_predecessor ← get_prev m m.max_ptr
    m' ← place_entry m m.max_ptr k v index
    done (
      record m' { max_ptr = max_ptr_after index m'.len m.max_ptr max_ptr_predecessor },
      some (max_key, max_value),
    )

  -- `assert!(index <= len)`, and the two cases. The predecessor of the maximum is read in both.
  unfoldable pub insert_at : ElusivMap V → ℕ → V → ℕ → Outcome V (ElusivMap V × Option (ℕ × V))
  unfolding is_full insert_not_full insert_full
  insert_at m k v index =
      if leb index m.len
      then (if is_full capacity m
          then insert_full m k v index
          else (get_prev m m.max_ptr >>= λ _. insert_not_full m k v index))
      else aborted

  -- A key above the maximum of a full map is handed back.
  unfoldable pub insert_found :
      Outcome V ℕ → ElusivMap V → ℕ → V → Outcome V (ElusivMap V × Option (ℕ × V))
  unfolding insert_at
  insert_found (done index) m k v = insert_at m k v index
  insert_found (refused key_too_large) m k v = done (m, some (k, v))
  insert_found (refused (duplicate w)) m k v = refused (duplicate w)
  insert_found (refused key_not_found) m k v = refused key_not_found
  insert_found aborted m k v = aborted

  unfoldable pub try_insert : ElusivMap V → ℕ → V → Outcome V (ElusivMap V × Option (ℕ × V))
  unfolding insert_found binary_search
  try_insert m k v = insert_found (binary_search capacity m k) m k v

module _ {ℓ} {V : Type ℓ} where
  unfoldable pub reset : ElusivMap V → Outcome V (ElusivMap V)
  reset m = do
    next' ← put m.next 0 0
    prev' ← put m.prev 0 0
    done (record m { len = 0; max_ptr = 0; next = next'; prev = prev' })

-- The entries on the chain from the minimum: `sorted_keys` of the source's tests.
unfoldable pub sorted_keys_from {ℓ} : {V : Type ℓ} → ElusivMap V → ℕ → ℕ → Outcome V (List ℕ)
sorted_keys_from m zero ptr = done []
sorted_keys_from m (suc n) ptr = do
  k ← key m ptr
  ptr' ← get_next m ptr
  ks ← sorted_keys_from m n ptr'
  done (k ∷ ks)
