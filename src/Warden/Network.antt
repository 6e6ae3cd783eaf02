-- ===== src/Warden/Network.antt =====
-- elusiv-warden-network/src/network.rs: the account of the basic network. An error leaves the accounts
-- as they were, because the transaction is aborted, so an operation returns the new state or no state.
use elusiv.Base.{
  ltb, ◌==◌, ◌>>=◌, ◌>>◌, guard, from_warden, warden_invalid_instruction_data,
  warden_registration_error, ProgramError, Result, ok, add_u32, read, write, ℕ, Bool, List,
}
use elusiv.Warden.{WardenRegion, BasicWardenFeatures}

abbrev pub basic_network_size : ℕ
basic_network_size = 512

pub record BasicWardenNetwork : Type 0 where
  pub members_count : ℕ
  pub members : List ℕ
  pub features : List BasicWardenFeatures
  pub tokens : List (List Bool)
  pub region : List WardenRegion

unfoldable pub try_add_member :
    BasicWardenNetwork
    → ℕ
    → BasicWardenFeatures
    → WardenRegion
    → List Bool
    → Result ProgramError BasicWardenNetwork
try_add_member n warden_id features region supported_tokens = do
  guard (ltb n.members_count basic_network_size) (from_warden warden_registration_error)
  members' ← write n.members n.members_count warden_id
  features' ← write n.features n.members_count features
  region' ← write n.region n.members_count region
  tokens' ← write n.tokens n.members_count supported_tokens
  ok (record {
    members_count = add_u32 n.members_count 1;
    members = members';
    features = features';
    tokens = tokens';
    region = region';
  })

unfoldable pub update_region :
    BasicWardenNetwork → ℕ → ℕ → WardenRegion → Result ProgramError BasicWardenNetwork
update_region n warden_id member_index region = do
  member ← read n.members member_index
  guard (member == warden_id) (from_warden warden_invalid_instruction_data)
  region' ← write n.region member_index region
  ok (record n { region = region' })
