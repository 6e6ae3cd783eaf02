-- ===== src/Nullifier/Insert.antt =====
-- The insertion of a nullifier hash.
use elusiv.Base.{
  ltb, leb, ltb→lt, Bool-cases, length, guard, >>=-eq-ok, guard-eq-ok, ok_injective, ok, u8_mod,
  write, write_all, ℕ, ◌+◌, ◌%◌, ◌<◌, ◌≡◌, refl, sym, ap, ◌∙◌, inl, inr, Bool, true, false, not,
  Option, none, some, List, [], ◌∷◌, ◌++◌, map,
}
use elusiv.Nullifier.{
  NullifierAccount, moved_from, get_all_moved_values, set_all_moved_values, sort_all_moved_values,
  find_child_account_index, is_moved, swap_smaller, child_map, insert_into, keep_moved,
  try_insert_nullifier_hash, nullifiers_count, join_split_max_n_arity,
}
use elusiv.Nullifier.Moved.{
  IsDescending, sort_all_moved_values-IsDescending, get-set_all_moved_values,
}

-- What an insertion that returns has checked and leaves.
pub record IsInserted (a a' : NullifierAccount) (hash : ℕ) (moved : List (ℕ × ℕ)) : Type 0 where
  pub room : a.nullifier_hash_count < nullifiers_count
  pub counted : a'.nullifier_hash_count ≡ a.nullifier_hash_count + 1
  pub not_moved : is_moved hash moved ≡ false
  pub moved_after : List (ℕ × ℕ)
  pub read_back : get_all_moved_values a' ≡ ok moved_after
  pub sorted : IsDescending moved_after

set_sorted :
    (a a' : NullifierAccount) (ms : List (ℕ × ℕ))
    → set_all_moved_values a (sort_all_moved_values ms) ≡ ok a'
    → (get_all_moved_values a' ≡ ok (sort_all_moved_values ms))
      × (a'.nullifier_hash_count ≡ a.nullifier_hash_count)
unfolding set_all_moved_values
set_sorted a a' ms h =
    let sorted = sort_all_moved_values ms in
    (
      get-set_all_moved_values a a' sorted h,
      elim (Bool-cases (leb (length sorted) join_split_max_n_arity)) [
        | inr b ↦ let q = rw b at h in cc
        | inl b ↦
            let q = rw b at h in
            let (values, e, q) =
              >>=-eq-ok (write_all a.moved_values 0 (map (λ m. m.0) sorted)) _ q in
            let (targets, f, q) =
              >>=-eq-ok (write_all a.moved_values_target 0 (map (λ m. m.1) sorted)) _ q in
            ap (λ k. k.nullifier_hash_count) (sym (ok_injective q))
      ],
    )

not-true : (b : Bool) → not b ≡ true → b ≡ false
not-true true h = cc
not-true false h = refl

keep_moved_lem :
    (a a' : NullifierAccount) (ousted : Option ℕ) (ms : List (ℕ × ℕ)) (swapped : Bool) (index : ℕ)
    → keep_moved a ousted ms swapped index ≡ ok a'
    → (swapped ≡ false
        → (kept : List (ℕ × ℕ)) × (get_all_moved_values a ≡ ok kept) × IsDescending kept)
    → (after : List (ℕ × ℕ)) × (a'.nullifier_hash_count ≡ a.nullifier_hash_count)
      × (get_all_moved_values a' ≡ ok after)
      × IsDescending after
unfolding keep_moved
keep_moved_lem a a' (some value) ms swapped index h kept =
    let all = ms ++ (value, (index % u8_mod + 1) % u8_mod) ∷ [] in
    let (read_back, count) = set_sorted a a' all h in
    (sort_all_moved_values all, count, read_back, sort_all_moved_values-IsDescending all)
keep_moved_lem a a' none ms true index h kept =
    let (read_back, count) = set_sorted a a' ms h in
    (sort_all_moved_values ms, count, read_back, sort_all_moved_values-IsDescending ms)
keep_moved_lem a a' none ms false index h kept =
    let (old, known, order) = kept refl in
    let same = ok_injective h in
    (
      old,
      ap (λ k. k.nullifier_hash_count) (sym same),
      ap get_all_moved_values (sym same) ∙ known,
      order,
    )

-- An insertion that returns found room and a hash that was not among the moved values; it counts the
-- hash, and if the moved values were sorted from large to small before, they are so after it.
pub try_insert_nullifier_hash-IsInserted :
    (a a' : NullifierAccount) (hash : ℕ) (moved : List (ℕ × ℕ))
    → get_all_moved_values a ≡ ok moved
    → IsDescending moved
    → try_insert_nullifier_hash a hash ≡ ok a'
    → IsInserted a a' hash moved
unfolding try_insert_nullifier_hash get_all_moved_values moved_from
try_insert_nullifier_hash-IsInserted a a' hash moved known sorted h =
    let (u, g, h) = >>=-eq-ok (guard (ltb a.nullifier_hash_count nullifiers_count) _) _ h in
    let room = ltb→lt _ _ (guard-eq-ok (ltb a.nullifier_hash_count nullifiers_count) _ g) in
    let (index, e, h) = >>=-eq-ok (find_child_account_index a hash) _ h in
    let (ms, e, h) = >>=-eq-ok (get_all_moved_values a) _ h in
    let same : ms ≡ moved = ok_injective (sym e ∙ known) in
    let (u, g, h) = >>=-eq-ok (guard (not (is_moved hash ms)) _) _ h in
    let fresh = not-true _ (guard-eq-ok (not (is_moved hash ms)) _ g) in
    let swap = swap_smaller hash index ms in
    let (m, e, h) = >>=-eq-ok (child_map a index) _ h in
    let (out, e, h) = >>=-eq-ok (insert_into m swap.0) _ h in
    let (children, e, h) = >>=-eq-ok (write a.children index (some out.0)) _ h in
    let (max_values, e, h) = >>=-eq-ok (write a.max_values index (some out.2)) _ h in
    let a1 : NullifierAccount = record a {
      children = children;
      nullifier_hash_count = a.nullifier_hash_count + 1;
      max_values = max_values;
    } in
    let (after, count, read_back, order) =
      keep_moved_lem a1 a' out.1 swap.1 swap.2 index h (λ kept. (moved, known, sorted)) in
    record {
      room = room;
      counted = count;
      not_moved = ap (is_moved hash) (sym same) ∙ fresh;
      moved_after = after;
      read_back = read_back;
      sorted = order;
    }
