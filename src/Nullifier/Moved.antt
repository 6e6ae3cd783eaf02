-- ===== src/Nullifier/Moved.antt =====
-- The moved values of the account: they are kept from large to small.
use elusiv.Base.{
  leb, le→leb, Bool-cases, length, get_elem?, drop, get_elem?-drop, drop_at, in_range_of, >>=-eq-ok,
  ok_injective, >>=-ok, unwrap-ok, ProgramError, ok, write_all, write_all-value, ℕ, zero, suc, ◌+◌,
  ◌≤◌, ◌≡◌, refl, sym, ap, ◌∙◌, subst, inl, inr, false, some, List, [], ◌∷◌, map, arith, dec_le,
}
use elusiv.Nullifier.{
  NullifierAccount, moved_from, get_all_moved_values, set_all_moved_values, insert_large,
  sort_all_moved_values, join_split_max_n_arity,
}

-- From large to small, none above the bound.
unfoldable pub IsBelow : ℕ → List (ℕ × ℕ) → Type 0
IsBelow bound [] = Unit {0}
IsBelow bound (m ∷ ms) = (m.0 ≤ bound) × IsBelow m.0 ms

unfoldable pub IsDescending : List (ℕ × ℕ) → Type 0
unfolding IsBelow
IsDescending [] = Unit {0}
IsDescending (m ∷ ms) = IsBelow m.0 ms

insert-IsBelow :
    (bound : ℕ) (m : ℕ × ℕ) (ms : List (ℕ × ℕ))
    → m.0 ≤ bound
    → IsBelow bound ms
    → IsBelow bound (insert_large m ms)
unfolding IsBelow insert_large
insert-IsBelow bound m [] h d = (h, tt)
insert-IsBelow bound m (n ∷ ns) h (le, d) = elim (dec_le n.0 m.0) [
  | yes small ↦ rw (le→leb n.0 m.0 small) (h, (small, d))
  | no large ↦
      let b : leb n.0 m.0 ≡ false = ground arith in
      rw b (le, insert-IsBelow n.0 m ns (omega arith) d)
]

insert_large-IsDescending :
    (m : ℕ × ℕ) (ms : List (ℕ × ℕ)) → IsDescending ms → IsDescending (insert_large m ms)
unfolding IsDescending IsBelow insert_large
insert_large-IsDescending m [] d = tt
insert_large-IsDescending m (n ∷ ns) d = elim (dec_le n.0 m.0) [
  | yes small ↦ rw (le→leb n.0 m.0 small) (small, d)
  | no large ↦
      let b : leb n.0 m.0 ≡ false = ground arith in rw b (insert-IsBelow n.0 m ns (omega arith) d)
]

pub sort_all_moved_values-IsDescending :
    (ms : List (ℕ × ℕ)) → IsDescending (sort_all_moved_values ms)
unfolding IsDescending sort_all_moved_values
sort_all_moved_values-IsDescending [] = tt
sort_all_moved_values-IsDescending (m ∷ ms) =
    insert_large-IsDescending m (sort_all_moved_values ms) (sort_all_moved_values-IsDescending ms)

length-map : (f : ℕ × ℕ → ℕ) (ms : List (ℕ × ℕ)) → length (map f ms) ≡ length ms
length-map f [] = refl
length-map f (m ∷ ms) = ap suc (length-map f ms)

map_at :
    (f : ℕ × ℕ → ℕ) (ms : List (ℕ × ℕ)) (i : ℕ) (m : ℕ × ℕ)
    → get_elem? ms i ≡ some m
    → get_elem? (map f ms) i ≡ some (f m)
map_at f [] i m h = cc
map_at f (n ∷ ns) zero m h = cc
map_at f (n ∷ ns) (suc i) m h = map_at f ns i m h

moved_from_suffix :
    (a : NullifierAccount) (all ms : List (ℕ × ℕ)) (i : ℕ)
    → ((j : ℕ) (m : ℕ × ℕ)
        → get_elem? all j ≡ some m
        → (get_elem? a.moved_values j ≡ some m.0) × (get_elem? a.moved_values_target j ≡ some m.1))
    → drop i all ≡ ms
    → moved_from a i (length ms) ≡ ok ms
unfolding moved_from
moved_from_suffix a all [] i stored e = refl
moved_from_suffix a all (m ∷ ms) i stored e =
    let here : get_elem? all i ≡ some m =
      let zero_more : i + 0 ≡ i = omega arith in
      ap (get_elem? all) (sym zero_more)
      ∙ sym (get_elem?-drop i all 0)
      ∙ ap (λ xs. get_elem? xs 0) e in
    let (value, target) = stored i m here in
    let next : drop (suc i) all ≡ ms = ap (drop 1) (sym (drop_at all i m here) ∙ e) in
    >>=-ok _ (unwrap-ok value)
      (>>=-ok _ (unwrap-ok target) (>>=-ok _ (moved_from_suffix a all ms (suc i) stored next) refl))

-- The moved values that have been set are read back.
pub get-set_all_moved_values :
    (a a' : NullifierAccount) (ms : List (ℕ × ℕ))
    → set_all_moved_values a ms ≡ ok a'
    → get_all_moved_values a' ≡ ok ms
unfolding set_all_moved_values get_all_moved_values moved_from
get-set_all_moved_values a a' ms h = elim (Bool-cases (leb (length ms) join_split_max_n_arity)) [
  | inr b ↦ let q = rw b at h in cc
  | inl b ↦
      let q = rw b at h in
      let (values, e, q) = >>=-eq-ok (write_all a.moved_values 0 (map (λ m. m.0) ms)) _ q in
      let (targets, f, q) = >>=-eq-ok (write_all a.moved_values_target 0 (map (λ m. m.1) ms)) _ q in
      subst (λ k. get_all_moved_values k ≡ ok ms) (ok_injective q)
        (moved_from_suffix
          (record a {
            moved_values_count = length ms;
            moved_values = values;
            moved_values_target = targets;
          })
          ms ms 0
          (λ j m at_j.
            let inside = in_range_of ms j at_j in
            let from_start : j ≡ 0 + j = omega arith in
            (
              ap (get_elem? values) from_start
                  ∙ write_all-value {E = ProgramError} a.moved_values 0 (map (λ m. m.0) ms) j e
                      (omega (arith, length-map (λ m. m.0) ms))
                  ∙ map_at (λ m. m.0) ms j m at_j,
              ap (get_elem? targets) from_start
                  ∙ write_all-value {E = ProgramError} a.moved_values_target 0 (map (λ m. m.1) ms) j
                      f (omega (arith, length-map (λ m. m.1) ms))
                  ∙ map_at (λ m. m.1) ms j m at_j,
            ))
          refl)
]
