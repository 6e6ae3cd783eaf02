-- ===== src/Metadata/Room.antt =====
-- An account whose children are all open: room for metadata up to the last place, and none behind it.
use elusiv.Base.{
  ltb, lt→ltb, length, get_elem?, set, length-set, get_elem?-set_self, get_elem?-set_ne,
  get_elem?_out, ok, panic, add_u32, ℕ, ◌+◌, ◌^◌, ◌<◌, ◌≡◌, refl, sym, ap, ◌∙◌, true, Option, none,
  some, List, arith, ℕ_discrete,
}
use elusiv.Metadata.{
  MetadataAccount, child_account_and_local_index, values_per_metadata_child_account, accounts_count,
  add_commitment_metadata,
}

module _ {ℓ} {M : Type ℓ} where
  -- Every child account is open and has its size.
  pub record IsOpen (children : List (Option (List M))) : Type ℓ where
    pub count : length children ≡ accounts_count
    pub child_at :
        (k : ℕ)
        → k < accounts_count
        → (values : List M) × (get_elem? children k ≡ some (some values))
          × (length values ≡ values_per_metadata_child_account)

  set-IsOpen :
      (children : List (Option (List M))) (k : ℕ) (values : List M)
      → IsOpen children
      → k < accounts_count
      → length values ≡ values_per_metadata_child_account
      → IsOpen (set children k (some values))
  set-IsOpen children k values o inside size = record {
    count = rw (length-set children k (some values)) o.count;
    child_at = λ j h. elim (ℕ_discrete k j) [
      | yes same ↦ (
        values,
        ap (get_elem? (set children k (some values))) (sym same)
            ∙ get_elem?-set_self children k (some values) (rw o.count inside),
        size,
      )
      | no other ↦
          let (v, e, s) = o.child_at j h in
          (v, get_elem?-set_ne children k j (some values) other ∙ e, s)
    ];
  }

  -- Below the last place the metadata is stored, and the children stay open.
  pub add_commitment_metadata-IsOpen :
      (a : MetadataAccount M) (m : M)
      → IsOpen a.children
      → a.next_metadata_ptr < 2 ^ 20
      → (a' : MetadataAccount M) × (add_commitment_metadata a m ≡ ok a')
        × IsOpen a'.children
        × (a'.next_metadata_ptr ≡ a.next_metadata_ptr + 1)
  unfolding add_commitment_metadata
  add_commitment_metadata-IsOpen a m o room =
      let p = a.next_metadata_ptr in
      let (k, place) = child_account_and_local_index p in
      let inside : k < accounts_count = omega arith in
      let (values, e, size) = o.child_at k inside in
      let fits : ltb place (length values) ≡ true = lt→ltb place (length values) (omega arith) in
      let next : add_u32 p 1 ≡ p + 1 = omega arith in
      (
        record {
          children = set a.children k (some (set values place m));
          next_metadata_ptr = add_u32 p 1;
        },
        rw (e, fits) refl,
        set-IsOpen a.children k (set values place m) o inside (length-set values place m ∙ size),
        next,
      )

  -- Behind it there is no child account, and the access panics.
  pub add_commitment_metadata_full :
      (a : MetadataAccount M) (m : M)
      → IsOpen a.children
      → a.next_metadata_ptr ≡ 2 ^ 20
      → add_commitment_metadata a m ≡ panic
  unfolding add_commitment_metadata
  add_commitment_metadata_full a m o full =
      let e : get_elem? a.children accounts_count ≡ none =
        get_elem?_out a.children accounts_count (omega (arith, o.count)) in
      rw full (rw e refl)
