-- ===== src/Nullifier/Tests.antt =====
-- The first nullifier hash.
use elusiv.Base.{replicate, ok, ◌≡◌, refl, none, some, [], ◌∷◌}
use elusiv.Map.{ElusivMap, get_ptr, compute_mid, is_empty}
use elusiv.Map.Search.{is_full, binary_search}
use elusiv.Map.Insert.{
  set_entry, link_ptrs, link_new, pointer_of, update_mid_ptr, update_mid_ptrs_from, update_mid_ptrs,
  place_entry, insert_not_full, insert_at, insert_found, try_insert,
}
use elusiv.Nullifier.{
  NullifierAccount, child_map, moved_from, get_all_moved_values, find_from,
  find_child_account_index, is_moved, swap_smaller, insert_into, keep_moved,
  try_insert_nullifier_hash,
}
use elusiv.Nullifier.Moved.{IsDescending}
use elusiv.Nullifier.Insert.{IsInserted, try_insert_nullifier_hash-IsInserted}

abbrev no_hashes : ElusivMap (Unit {0})
no_hashes = record {
  len = 0;
  min_ptr = 0;
  max_ptr = 0;
  mid_ptr = replicate 15 0;
  next = 0 ∷ 0 ∷ [];
  prev = 0 ∷ 0 ∷ [];
  keys = 0 ∷ 0 ∷ [];
  values = tt ∷ tt ∷ [];
}

abbrev account : NullifierAccount
account = record {
  children = some no_hashes ∷ [];
  root = 0;
  nullifier_hash_count = 0;
  max_values = none ∷ [];
  moved_values_count = 0;
  moved_values = replicate 4 0;
  moved_values_target = replicate 4 0;
}

abbrev account_after : NullifierAccount
account_after = record account {
  children = some (record no_hashes { len = 1; keys = 5 ∷ 0 ∷ [] }) ∷ [];
  nullifier_hash_count = 1;
  max_values = some 5 ∷ [];
}

insert_test : try_insert_nullifier_hash account 5 ≡ ok account_after
unfolding try_insert_nullifier_hash find_child_account_index find_from get_all_moved_values
    moved_from is_moved swap_smaller child_map insert_into keep_moved try_insert insert_found
    insert_at insert_not_full pointer_of place_entry set_entry link_new link_ptrs update_mid_ptrs
    update_mid_ptrs_from update_mid_ptr binary_search get_ptr compute_mid is_empty is_full
insert_test = refl

none_moved_test : get_all_moved_values account ≡ ok []
unfolding get_all_moved_values moved_from
none_moved_test = refl

sorted_test : IsDescending []
unfolding IsDescending
sorted_test = tt

try_insert_nullifier_hash-IsInserted_example : IsInserted account account_after 5 []
try_insert_nullifier_hash-IsInserted_example =
    try_insert_nullifier_hash-IsInserted account account_after 5 [] none_moved_test sorted_test
      insert_test
