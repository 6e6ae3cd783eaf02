-- ===== src/Storage.antt =====
-- elusiv/src/state/storage.rs: the account of the active Merkle tree. The nodes lie in the child
-- accounts, one level after the other. A node is an element of `N`; the table `EMPTY_TREE` of default
-- nodes, the zero bytes and the test of equality are parameters. A child account that the transaction did
-- not bring along is `none`.
pub mod Index
pub mod Nodes
mod Tests
use elusiv.Base.{
  ltb, leb, ◌==◌, if◌then◌else◌, length, get_elem?, set, take, replicate, ◌>>=◌, ◌>>◌, ok_or,
  unwrap, ProgramError, not_enough_account_keys, Result, ok, err, panic, ℕ, zero, suc, ◌+◌, ◌-◌,
  ◌/◌, ◌%◌, ◌^◌, min, Bool, true, false, not, ◌&&◌, ◌||◌, Option, some, List, [], ◌∷◌,
}

abbrev pub mt_height : ℕ
mt_height = 20

abbrev pub mt_commitment_count : ℕ
mt_commitment_count = 2 ^ mt_height

abbrev pub history_array_size : ℕ
history_array_size = 100

abbrev pub values_per_storage_sub_account : ℕ
values_per_storage_sub_account = 83_887

pub record StorageAccount {ℓ} (N : Type ℓ) : Type ℓ where
  pub children : List (Option (List N))
  pub next_commitment_ptr : ℕ
  pub trees_count : ℕ
  pub archived_count : ℕ
  pub active_mt_root_history : List N
  pub mt_roots_count : ℕ

unfoldable pub mt_array_index : ℕ → ℕ → Result ProgramError ℕ
mt_array_index index level = if ltb index (2 ^ level) then ok (2 ^ level - 1 + index) else panic

unfoldable pub use_default_value : ℕ → ℕ → ℕ → Bool
use_default_value index level next_leaf_ptr =
    next_leaf_ptr == 0 || ltb ((next_leaf_ptr - 1) / 2 ^ (mt_height - level)) index

unfoldable pub account_and_local_index : ℕ → ℕ × ℕ
account_and_local_index index =
    (index / values_per_storage_sub_account, index % values_per_storage_sub_account)

module _ {ℓ} {N : Type ℓ} where
  -- `execute_on_child_account` with a read of a value.
  unfoldable pub read_child : List (Option (List N)) → ℕ × ℕ → Result ProgramError N
  read_child children (account, place) = do
    child ← unwrap (get_elem? children account)
    values ← ok_or child not_enough_account_keys
    unwrap (get_elem? values place)

  unfoldable pub write_place :
      List (Option (List N)) → ℕ → ℕ → N → List N → Result ProgramError (List (Option (List N)))
  write_place children account place value values =
      if ltb place (length values)
      then ok (set children account (some (set values place value)))
      else panic

  -- `execute_on_child_account_mut` with a write of a value.
  unfoldable pub write_child :
      List (Option (List N)) → ℕ × ℕ → N → Result ProgramError (List (Option (List N)))
  unfolding write_place
  write_child children (account, place) value = do
    child ← unwrap (get_elem? children account)
    values ← ok_or child not_enough_account_keys
    write_place children account place value values

  unfoldable pub is_full : StorageAccount N → Bool
  is_full s = leb mt_commitment_count s.next_commitment_ptr

  unfoldable pub reset : N → StorageAccount N → StorageAccount N
  reset zero_bytes s = record s {
    next_commitment_ptr = 0;
    mt_roots_count = 0;
    active_mt_root_history = replicate (length s.active_mt_root_history) zero_bytes;
  }

  unfoldable pub set_node : StorageAccount N → N → ℕ → ℕ → Result ProgramError (StorageAccount N)
  unfolding mt_array_index account_and_local_index write_child
  set_node s value index level =
      if leb level mt_height
      then (do
        place ← mt_array_index index level
        children' ← write_child s.children (account_and_local_index place) value
        ok (record s { children = children' }))
      else panic

module _ {ℓ} {N : Type ℓ} (empty_tree : List N) where
  unfoldable pub get_node : StorageAccount N → ℕ → ℕ → Result ProgramError N
  unfolding use_default_value mt_array_index account_and_local_index read_child
  get_node s index level =
      if leb level mt_height
      then (if use_default_value index level s.next_commitment_ptr
          then unwrap (get_elem? empty_tree (mt_height - level))
          else (do
            place ← mt_array_index index level
            read_child s.children (account_and_local_index place)))
      else panic

  unfoldable pub get_root : StorageAccount N → Result ProgramError N
  unfolding get_node
  get_root s = get_node s 0 0

  -- The opening from the level `level` up, with the rounds left.
  unfoldable pub opening_from : StorageAccount N → ℕ → ℕ → ℕ → Result ProgramError (List N)
  unfolding get_node
  opening_from s zero index level = ok []
  opening_from s (suc rounds) index level = do
    sibling ← get_node s (if index % 2 == 0 then index + 1 else index - 1) level
    above ← opening_from s rounds (index / 2) (level - 1)
    ok (sibling ∷ above)

  unfoldable pub get_mt_opening : StorageAccount N → ℕ → Result ProgramError (List N)
  unfolding opening_from
  get_mt_opening s index = opening_from s mt_height index mt_height

  -- Some root of the list is the one sought.
  unfoldable pub any_root : (N → N → Bool) → N → List N → Bool
  any_root eq root [] = false
  any_root eq root (r ∷ rs) = if eq root r then true else any_root eq root rs

  unfoldable pub is_root_valid : (N → N → Bool) → StorageAccount N → N → Result ProgramError Bool
  unfolding get_root any_root
  is_root_valid eq s root =
      let max_history_roots = min s.mt_roots_count history_array_size in
      elim (get_root s) [
        | ok current ↦ ok (eq root current)
        | err e ↦ ok (
            not (max_history_roots == 0)
            && any_root eq root (take max_history_roots s.active_mt_root_history))
        | panic ↦ panic
      ]
