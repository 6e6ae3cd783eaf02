-- ===== src/Storage/Tests.antt =====
-- A tree whose nodes of the first levels are stored.
use elusiv.Base.{replicate, ok, ℕ, ◌≡◌, refl, ap, ◌≢◌, false, none, some, [], ◌∷◌}
use elusiv.Storage.{
  StorageAccount, mt_array_index, use_default_value, account_and_local_index, write_place,
  write_child, set_node, get_node,
}
use elusiv.Storage.Nodes.{get_node-set_node_self, get_node-set_node_other}

abbrev tree : StorageAccount ℕ
tree = record {
  children = some (1 ∷ 2 ∷ 3 ∷ 4 ∷ []) ∷ none ∷ [];
  next_commitment_ptr = 5;
  trees_count = 0;
  archived_count = 0;
  active_mt_root_history = replicate 100 0;
  mt_roots_count = 1;
}

abbrev tree_after : StorageAccount ℕ
tree_after = record tree { children = some (1 ∷ 9 ∷ 3 ∷ 4 ∷ []) ∷ none ∷ [] }

set_node_test : set_node tree 9 0 1 ≡ ok tree_after
unfolding set_node mt_array_index account_and_local_index write_child write_place
set_node_test = refl

filled_test : use_default_value 0 1 5 ≡ false
unfolding use_default_value
filled_test = refl

get_node-set_node_self_example : get_node [] tree_after 0 1 ≡ ok 9
get_node-set_node_self_example =
    get_node-set_node_self [] tree tree_after 9 0 1 set_node_test filled_test

one_ne_zero : ◌≢◌ {A = ℕ} 1 0
one_ne_zero h = cc

first_ne_root : ◌≢◌ {A = ℕ × ℕ} (0, 1) (0, 0)
first_ne_root h = one_ne_zero (ap (λ x. x.1) h)

get_node-set_node_other_example : get_node [] tree_after 0 0 ≡ get_node [] tree 0 0
get_node-set_node_other_example =
    get_node-set_node_other [] tree tree_after 9 0 1 0 0 set_node_test first_ne_root

index_test : mt_array_index 1 2 ≡ ok 4
unfolding mt_array_index
index_test = refl
