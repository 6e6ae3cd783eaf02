-- ===== src/Metadata/Access.antt =====
-- The metadata that has been added is read back, and what was there before stays.
use elusiv.Base.{
  lt→ltb, >>=-eq-ok, ok_injective, ok, u32_mod, add_u32, ℕ, ◌+◌, ◌/◌, ◌%◌, ◌<◌, ◌≡◌, sym, ap,
  Option, List, arith,
}
use elusiv.Storage.{write_child}
use elusiv.Storage.Nodes.{read_child-write_child_self, read_child-write_child_other}
use elusiv.Metadata.{
  MetadataAccount, child_account_and_local_index, values_per_metadata_child_account,
  add_commitment_metadata, get_commitment_metadata,
}

index_injective :
    (i j : ℕ)
    → ◌≡◌ {A = ℕ × ℕ} (child_account_and_local_index i) (child_account_and_local_index j)
    → i ≡ j
index_injective i j e =
    let q : i / values_per_metadata_child_account ≡ j / values_per_metadata_child_account =
      ap (λ x. x.0) e in
    let m : i % values_per_metadata_child_account ≡ j % values_per_metadata_child_account =
      ap (λ x. x.1) e in
    omega arith

module _ {ℓ} {M : Type ℓ} where
  add_parts :
      (a a' : MetadataAccount M) (m : M)
      → add_commitment_metadata a m ≡ ok a'
      → (c : List (Option (List M))) × (write_child a.children
            (child_account_and_local_index a.next_metadata_ptr)
            m
          ≡ ok c)
        × (a' ≡ record { children = c; next_metadata_ptr = add_u32 a.next_metadata_ptr 1 })
  unfolding add_commitment_metadata
  add_parts a a' m h =
      let (c, e, h) =
        >>=-eq-ok (write_child a.children (child_account_and_local_index a.next_metadata_ptr) m) _
          h in
      (c, e, sym (ok_injective h))

  -- Metadata that has been added stands at the index that was next, while the count is a `u32`; the
  -- metadata of every index before is what it was.
  pub get-add_commitment_metadata :
      (a a' : MetadataAccount M) (m : M) (i : ℕ)
      → a.next_metadata_ptr + 1 < u32_mod
      → add_commitment_metadata a m ≡ ok a'
      → (get_commitment_metadata a' a.next_metadata_ptr ≡ ok m)
        × (i < a.next_metadata_ptr → get_commitment_metadata a' i ≡ get_commitment_metadata a i)
  unfolding get_commitment_metadata
  get-add_commitment_metadata a a' m i small h =
      let (c, e, eq) = add_parts a a' m h in
      let p = a.next_metadata_ptr in
      let (x, y) = child_account_and_local_index p in
      let (x', y') = child_account_and_local_index i in
      let next : add_u32 p 1 ≡ p + 1 = omega arith in
      (
        rw (eq, next, lt→ltb p (p + 1) (omega arith))
            (read_child-write_child_self a.children c x y m e),
        λ before.
            rw (eq, next, lt→ltb i (p + 1) (omega arith), lt→ltb i p before)
              (read_child-write_child_other a.children c x y x' y' m e
                (λ same. let z = index_injective p i same in absurd (omega arith))),
      )
