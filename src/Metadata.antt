-- ===== src/Metadata.antt =====
-- elusiv/src/state/metadata.rs: the account of the commitments' metadata, in the order of the commitments.
-- A value of 17 bytes is an element of `M`.
pub mod Access
pub mod Room
use elusiv.Base.{
  ltb, ◌>>=◌, ◌>>◌, guard, from_elusiv, missing_value, ProgramError, Result, ok, add_u32, ℕ, ◌/◌,
  ◌%◌, ◌^◌, Option, List,
}
use elusiv.Storage.{read_child, write_child, write_place}

abbrev pub values_per_metadata_child_account : ℕ
values_per_metadata_child_account = 2 ^ 16

abbrev pub accounts_count : ℕ
accounts_count = 2 ^ 20 / values_per_metadata_child_account

pub record MetadataAccount {ℓ} (M : Type ℓ) : Type ℓ where
  pub children : List (Option (List M))
  pub next_metadata_ptr : ℕ

abbrev pub child_account_and_local_index : ℕ → ℕ × ℕ
child_account_and_local_index metadata_index = (
  metadata_index / values_per_metadata_child_account,
  metadata_index % values_per_metadata_child_account,
)

module _ {ℓ} {M : Type ℓ} where
  unfoldable pub add_commitment_metadata :
      MetadataAccount M → M → Result ProgramError (MetadataAccount M)
  unfolding write_child write_place
  add_commitment_metadata a metadata = do
    children' ← write_child a.children (child_account_and_local_index a.next_metadata_ptr) metadata
    ok (record { children = children'; next_metadata_ptr = add_u32 a.next_metadata_ptr 1 })

  unfoldable pub get_commitment_metadata : MetadataAccount M → ℕ → Result ProgramError M
  unfolding read_child
  get_commitment_metadata a index = do
    guard (ltb index a.next_metadata_ptr) (from_elusiv missing_value)
    read_child a.children (child_account_and_local_index index)
