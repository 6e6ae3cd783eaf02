-- ===== src/Map/Tests.antt =====
-- Runs of a map of capacity 3.
use elusiv.Base.{get_elem?, ℕ, ◌≡◌, refl, none, some, [], ◌∷◌, arith}
use elusiv.Map.{ElusivMap, done, get_ptr, get_next_ptr, compute_mid, is_empty}
use elusiv.Map.Search.{
  Cursor, is_full, binary_search, search_above_min, search_inside, search_loop, search_round, found,
  contains,
}
use elusiv.Map.Insert.{
  set_entry, link_ptrs, link_new, update_mid_ptr, update_mid_ptrs_from, update_mid_ptrs,
  max_ptr_after, place_entry, insert_full, insert_at, insert_found, try_insert,
}
use elusiv.Map.Membership.{contains-found}
use elusiv.Map.Full.{try_insert-below_max}

abbrev three_keys : ElusivMap ℕ
three_keys = record {
  len = 3;
  min_ptr = 0;
  max_ptr = 2;
  mid_ptr = 0 ∷ 0 ∷ 0 ∷ 0 ∷ 0 ∷ 1 ∷ 1 ∷ 1 ∷ 1 ∷ 1 ∷ 2 ∷ 2 ∷ 2 ∷ 2 ∷ 2 ∷ [];
  next = 1 ∷ 2 ∷ 0 ∷ [];
  prev = 0 ∷ 0 ∷ 1 ∷ [];
  keys = 1 ∷ 2 ∷ 4 ∷ [];
  values = 101 ∷ 102 ∷ 104 ∷ [];
}

-- `three_keys` after the insertion of the key 3.
abbrev three_keys_after : ElusivMap ℕ
three_keys_after = record {
  len = 3;
  min_ptr = 0;
  max_ptr = 1;
  mid_ptr = 0 ∷ 0 ∷ 0 ∷ 0 ∷ 0 ∷ 1 ∷ 1 ∷ 1 ∷ 1 ∷ 1 ∷ 2 ∷ 2 ∷ 2 ∷ 2 ∷ 2 ∷ [];
  next = 1 ∷ 2 ∷ 2 ∷ [];
  prev = 0 ∷ 0 ∷ 2 ∷ [];
  keys = 1 ∷ 2 ∷ 3 ∷ [];
  values = 101 ∷ 102 ∷ 103 ∷ [];
}

place_test : binary_search 3 three_keys 3 ≡ done 2
unfolding binary_search search_above_min search_inside search_loop search_round get_ptr get_next_ptr
    is_empty
place_test = refl

insert_test : try_insert 3 three_keys 3 103 ≡ done (three_keys_after, some (4, 104))
unfolding try_insert insert_found insert_at insert_full place_entry max_ptr_after set_entry link_new
    link_ptrs update_mid_ptrs update_mid_ptrs_from update_mid_ptr binary_search search_above_min
    search_inside search_loop search_round get_ptr get_next_ptr compute_mid is_empty is_full
insert_test = refl

contains_test : contains 3 three_keys 2 ≡ done (some 102)
unfolding contains found binary_search search_above_min search_inside search_loop search_round
    get_ptr get_next_ptr is_empty
contains_test = refl

try_insert-below_max_example : contains 3 three_keys_after 3 ≡ done none
try_insert-below_max_example =
    try_insert-below_max 3 three_keys three_keys_after 3 103 (some (4, 104)) 1 1 2 refl
      (omega arith) place_test refl refl refl (omega arith) (omega arith) (omega arith)
      (omega arith) insert_test

contains-found_example : (ptr : ℕ) × (get_elem? three_keys.keys ptr ≡ some 2)
contains-found_example = contains-found 3 three_keys 2 102 contains_test

abbrev start_cursor : Cursor
start_cursor = record { mid = 0; low = 0; high = 3; low_ptr = 0; mid_ptr = 0 }
