-- ===== src/Nullifier.antt =====
-- elusiv/src/state/nullifier.rs: the nullifier hashes of a Merkle tree, in sorted maps that follow each
-- other over the child accounts. A hash is compared as the number that its bytes hold (`OrdU256`), so it
-- is a number. What a full map ousts is kept as a moved value, with the account that it goes to.
pub mod Moved
pub mod Insert
mod Tests
use elusiv.Base.{
  ltb, leb, ◌==◌, if◌then◌else◌, length, ◌>>=◌, ◌>>◌, guard, ok_or, unwrap, from_elusiv,
  could_not_insert_nullifier, ProgramError, not_enough_account_keys, Result, ok, err, panic, u8_mod,
  checked_add, read, write, write_all, ℕ, zero, suc, ◌+◌, ◌/◌, ◌%◌, ◌^◌, min, max, Bool, true,
  false, not, ◌&&◌, ◌||◌, Option, none, some, List, [], ◌∷◌, ◌++◌, map,
}
use elusiv.Map.{ElusivMap, Outcome, done, refused, aborted, key}
use elusiv.Map.Search.{contains}
use elusiv.Map.Insert.{try_insert}

abbrev pub nullifiers_count : ℕ
nullifiers_count = 2 ^ 20

abbrev pub nullifiers_per_account : ℕ
nullifiers_per_account = 2 ^ 16

abbrev pub join_split_max_n_arity : ℕ
join_split_max_n_arity = 4

-- A child account holds a map without values, `none` if the transaction did not bring it along.
pub record NullifierAccount : Type 0 where
  pub children : List (Option (ElusivMap (Unit {0})))
  pub root : ℕ
  pub nullifier_hash_count : ℕ
  pub max_values : List (Option ℕ)
  pub moved_values_count : ℕ
  pub moved_values : List ℕ
  pub moved_values_target : List ℕ

-- `execute_on_child_account_mut` before the closure is run.
unfoldable pub child_map : NullifierAccount → ℕ → Result ProgramError (ElusivMap (Unit {0}))
child_map a index = read a.children index >>= λ child. ok_or child not_enough_account_keys

-- The moved values from the place `i` on, `count` of them.
unfoldable pub moved_from : NullifierAccount → ℕ → ℕ → Result ProgramError (List (ℕ × ℕ))
moved_from a i zero = ok []
moved_from a i (suc count) = do
  value ← read a.moved_values i
  target ← read a.moved_values_target i
  rest ← moved_from a (suc i) count
  ok ((value, target) ∷ rest)

unfoldable pub get_all_moved_values : NullifierAccount → Result ProgramError (List (ℕ × ℕ))
unfolding moved_from
get_all_moved_values a = moved_from a 0 a.moved_values_count

unfoldable pub set_all_moved_values :
    NullifierAccount → List (ℕ × ℕ) → Result ProgramError NullifierAccount
set_all_moved_values a moved =
    if leb (length moved) join_split_max_n_arity
    then (do
      values ← write_all a.moved_values 0 (map (λ m. m.0) moved)
      targets ← write_all a.moved_values_target 0 (map (λ m. m.1) moved)
      ok (record a {
        moved_values_count = length moved;
        moved_values = values;
        moved_values_target = targets;
      }))
    else panic

abbrev pub is_moved_nullifier_empty : NullifierAccount → Bool
is_moved_nullifier_empty a = a.moved_values_count == 0

-- The stable sort from large to small.
unfoldable pub insert_large : ℕ × ℕ → List (ℕ × ℕ) → List (ℕ × ℕ)
insert_large m [] = m ∷ []
insert_large m (n ∷ ns) =
    let rest = insert_large m ns in if leb n.0 m.0 then m ∷ n ∷ ns else n ∷ rest

unfoldable pub sort_all_moved_values : List (ℕ × ℕ) → List (ℕ × ℕ)
unfolding insert_large
sort_all_moved_values [] = []
sort_all_moved_values (m ∷ ms) = insert_large m (sort_all_moved_values ms)

-- The search of `find_child_account_index` from the account `i`, with the full accounts left.
unfoldable pub find_from : NullifierAccount → ℕ → ℕ → ℕ → Result ProgramError ℕ
find_from a hash i zero = ok i
find_from a hash i (suc rounds) = do
  entry ← read a.max_values i
  max ← unwrap entry
  let rest = find_from a hash (suc i) rounds
  (if leb hash max then ok i else rest)

unfoldable pub find_child_account_index : NullifierAccount → ℕ → Result ProgramError ℕ
unfolding find_from
find_child_account_index a hash =
    find_from a hash 0 (a.nullifier_hash_count / nullifiers_per_account)

unfoldable pub is_moved : ℕ → List (ℕ × ℕ) → Bool
is_moved hash [] = false
is_moved hash (m ∷ ms) = m.0 == hash || is_moved hash ms

-- The first moved value for the account that is larger than the hash changes places with it.
unfoldable pub swap_smaller : ℕ → ℕ → List (ℕ × ℕ) → ℕ × List (ℕ × ℕ) × Bool
swap_smaller hash index [] = (hash, [], false)
swap_smaller hash index (m ∷ ms) =
    let (hash', ms', swapped) = swap_smaller hash index ms in
    if m.1 == index && ltb hash m.0
    then (m.0, (hash, m.1) ∷ ms, true)
    else (hash', m ∷ ms', swapped)

-- What an insertion into a map leaves: the map, the value that it ousted, and the maximum.
unfoldable pub insert_into :
    ElusivMap (Unit {0}) → ℕ → Result ProgramError (ElusivMap (Unit {0}) × Option ℕ × ℕ)
unfolding try_insert
insert_into m hash = elim (try_insert nullifiers_per_account m hash tt) [
  | aborted ↦ panic
  | refused e ↦ elim (key m m.max_ptr) [
    | done max ↦ err (from_elusiv could_not_insert_nullifier)
    | _ ↦ panic
  ]
  | done (m', ousted) ↦ elim (key m' m'.max_ptr) [
    | done max ↦ ok (m', elim ousted [ none ↦ none | some (k, v) ↦ some k ], max)
    | _ ↦ panic
  ]
]

unfoldable pub can_insert_nullifier_hash : NullifierAccount → ℕ → Result ProgramError Bool
unfolding find_child_account_index get_all_moved_values is_moved child_map contains
can_insert_nullifier_hash a hash = do
  guard (ltb a.nullifier_hash_count nullifiers_count) (from_elusiv could_not_insert_nullifier)
  index ← find_child_account_index a hash
  moved ← get_all_moved_values a
  (if is_moved hash moved then ok false else (do
    m ← child_map a index
    elim (contains nullifiers_per_account m hash) [
      | done none ↦ ok true
      | done (some v) ↦ ok false
      | _ ↦ panic
    ]))

-- The statements that end an insertion: an ousted value goes to the next account, and the moved values
-- are stored if they have changed.
unfoldable pub keep_moved :
    NullifierAccount → Option ℕ → List (ℕ × ℕ) → Bool → ℕ → Result ProgramError NullifierAccount
unfolding sort_all_moved_values set_all_moved_values
keep_moved a (some value) moved swapped index =
    set_all_moved_values a
      (sort_all_moved_values (moved ++ (value, (index % u8_mod + 1) % u8_mod) ∷ []))
keep_moved a none moved swapped index =
    if swapped then set_all_moved_values a (sort_all_moved_values moved) else ok a

unfoldable pub try_insert_nullifier_hash :
    NullifierAccount → ℕ → Result ProgramError NullifierAccount
unfolding find_child_account_index get_all_moved_values is_moved swap_smaller child_map insert_into
    keep_moved
try_insert_nullifier_hash a hash = do
  guard (ltb a.nullifier_hash_count nullifiers_count) (from_elusiv could_not_insert_nullifier)
  index ← find_child_account_index a hash
  moved ← get_all_moved_values a
  guard (not (is_moved hash moved)) (from_elusiv could_not_insert_nullifier)
  let swap = swap_smaller hash index moved
  m ← child_map a index
  (m', ousted, max) ← insert_into m swap.0
  children' ← write a.children index (some m')
  max_values' ← write a.max_values index (some max)
  let a' : NullifierAccount = record a {
    children = children';
    nullifier_hash_count = a.nullifier_hash_count + 1;
    max_values = max_values';
  }
  keep_moved a' ousted swap.1 swap.2 index

unfoldable pub smallest_target : List (ℕ × ℕ) → ℕ
smallest_target [] = 255
smallest_target (m ∷ ms) = min m.1 (smallest_target ms)

-- The moved values for the target, or the others.
unfoldable pub with_target : Bool → ℕ → List (ℕ × ℕ) → List (ℕ × ℕ)
with_target wanted target [] = []
with_target wanted target (m ∷ ms) =
    let rest = with_target wanted target ms in
    let matches = m.1 == target in
    if (if wanted then matches else not matches) then m ∷ rest else rest

-- The loop that inserts the values, with the maximum values ousted so far.
unfoldable pub insert_moved :
    ElusivMap (Unit {0}) → List (ℕ × ℕ) → Result ProgramError (ElusivMap (Unit {0}) × List ℕ)
unfolding try_insert
insert_moved m [] = ok (m, [])
insert_moved m (v ∷ vs) = elim (try_insert nullifiers_per_account m v.0 tt) [
  | aborted ↦ panic
  | refused e ↦ err (from_elusiv could_not_insert_nullifier)
  | done (m', ousted) ↦ insert_moved m' vs >>= λ out.
      ok (out.0, elim ousted [ none ↦ out.1 | some (k, u) ↦ k ∷ out.1 ])
]

unfoldable pub move_nullifier_hashes_to_next_account :
    NullifierAccount → Result ProgramError NullifierAccount
unfolding get_all_moved_values smallest_target with_target child_map insert_moved
    sort_all_moved_values set_all_moved_values
move_nullifier_hashes_to_next_account a = do
  moved ← get_all_moved_values a
  guard (not (length moved == 0)) (from_elusiv could_not_insert_nullifier)
  let target = smallest_target moved
  let others = with_target false target moved
  m ← child_map a target
  (m', ousted) ← insert_moved m (with_target true target moved)
  max ← elim (key m' m'.max_ptr) [ done k ↦ ok k | _ ↦ panic ]
  children' ← write a.children target (some m')
  max_values' ← write a.max_values target (some max)
  let a' : NullifierAccount = record a { children = children'; max_values = max_values' }
  (if length ousted == 0 then set_all_moved_values a' others else (do
    next ← unwrap (checked_add u8_mod target 1)
    set_all_moved_values a' (sort_all_moved_values (others ++ map (λ v. (v, next)) ousted))))
