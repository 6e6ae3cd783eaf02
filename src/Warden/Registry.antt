-- ===== src/Warden/Registry.antt =====
-- elusiv-warden-network/src/processor/basic_warden.rs and processor/operator.rs. The accounts at derived
-- addresses are maps from the address' seed, a warden's id or key, to the account. What the system
-- program answers when an account is created that already exists is the parameter `account_in_use`;
-- the clock's answer is an argument.
use elusiv.Base.{
  ◌==◌, if◌then◌else◌, ◌>>=◌, ◌>>◌, guard, ok_or, from_warden, invalid_signer,
  warden_registration_error, ProgramError, invalid_argument, missing_required_signature, Result, ok,
  err, u32_mod, checked_add, ℕ, Bool, true, false, not, Option, none, some,
}
use elusiv.Warden.{WardenRegion, Timezone, ElusivBasicWardenConfig, ElusivBasicWarden}
use elusiv.Warden.Network.{BasicWardenNetwork, try_add_member, update_region}

pub record WardenRegistry : Type 0 where
  pub next_warden_id : ℕ
  pub network : BasicWardenNetwork
  pub warden_accounts : ℕ → Option ElusivBasicWarden
  pub warden_map_accounts : ℕ → Option ℕ

unfoldable pub with_account : {A : Type 0} → (ℕ → Option A) → ℕ → A → ℕ → Option A
with_account accounts seed a s = if s == seed then some a else accounts s

-- `METADATA_ATTESTER_AUTHORITY`.
abbrev pub metadata_attester_authority : ℕ
metadata_attester_authority = 0

module _ (account_in_use : ProgramError) where
  -- `open_pda_account_with_offset` or `_with_associated_pubkey`, and the first write to the account.
  unfoldable pub open_account :
      {A : Type 0} → (ℕ → Option A) → ℕ → A → Result ProgramError (ℕ → Option A)
  unfolding with_account
  open_account accounts seed a = elim (accounts seed) [
    | none ↦ ok (with_account accounts seed a)
    | some _ ↦ err account_in_use
  ]

  unfoldable pub register_basic_warden :
      WardenRegistry
      → ℕ
      → ℕ
      → ElusivBasicWardenConfig
      → Result ProgramError ℕ
      → Result ProgramError WardenRegistry
  unfolding open_account try_add_member
  register_basic_warden r warden_key warden_id config current_timestamp = do
    guard (config.key == warden_key) invalid_argument
    network' ←
        try_add_member r.network warden_id config.basic_warden_features config.region config.tokens
    now ← current_timestamp
    guard (warden_id == r.next_warden_id) invalid_argument
    next' ← ok_or (checked_add u32_mod warden_id 1) (from_warden warden_registration_error)
    accounts' ← open_account r.warden_accounts warden_id (record {
      config = config;
      lut = 0;
      asn = none;
      is_operator_confirmed = false;
      is_metadata_valid = none;
      is_active = false;
      join_timestamp = now;
      activation_timestamp = now;
    })
    maps' ← open_account r.warden_map_accounts warden_key warden_id
    ok (record {
      next_warden_id = next';
      network = network';
      warden_accounts = accounts';
      warden_map_accounts = maps';
    })

unfoldable pub eq_bool : Bool → Bool → Bool
eq_bool true b = b
eq_bool false b = not b

unfoldable pub update_basic_warden_state :
    ℕ → ElusivBasicWarden → Bool → Result ProgramError ℕ → Result ProgramError ElusivBasicWarden
unfolding eq_bool
update_basic_warden_state warden_key w is_active current_timestamp = do
  guard (warden_key == w.config.key) missing_required_signature
  timestamp ← if eq_bool is_active w.is_active then ok w.activation_timestamp else current_timestamp
  ok (record w { is_active = is_active; activation_timestamp = timestamp })

unfoldable pub update_basic_warden_lut :
    ℕ → ElusivBasicWarden → ℕ → Result ProgramError ElusivBasicWarden
update_basic_warden_lut warden_key w lut_key = do
  guard (warden_key == w.config.key) missing_required_signature
  ok (record w { lut = lut_key })

unfoldable pub with_attestation : ElusivBasicWarden → Bool → ElusivBasicWarden
with_attestation w b = record w {
  config = record w.config {
    warden_features = record w.config.warden_features { attestation = b };
  };
}

-- The attesters' map accounts, and the warden's account.
unfoldable pub add_metadata_attester :
    ProgramError
    → ℕ
    → (ℕ → Option ℕ)
    → ElusivBasicWarden
    → ℕ
    → ℕ
    → Result ProgramError ((ℕ → Option ℕ) × ElusivBasicWarden)
unfolding open_account with_attestation
add_metadata_attester account_in_use signer attesters w warden_id attester = do
  guard (signer == metadata_attester_authority) (from_warden invalid_signer)
  attesters' ← open_account account_in_use attesters attester warden_id
  ok (attesters', with_attestation w true)

-- An account whose Lamports are taken out is gone.
unfoldable pub revoke_metadata_attester :
    ℕ
    → (ℕ → Option ℕ)
    → ElusivBasicWarden
    → ℕ
    → Result ProgramError ((ℕ → Option ℕ) × ElusivBasicWarden)
unfolding with_attestation
revoke_metadata_attester signer attesters w attester = do
  guard (signer == metadata_attester_authority) (from_warden invalid_signer)
  ok ((λ s. if s == attester then none else attesters s), with_attestation w false)

-- The attested data are written to a copy of the warden that is not stored: the account is the one given.
unfoldable pub attest_basic_warden_metadata :
    ℕ
    → ElusivBasicWarden
    → ElusivBasicWarden
    → BasicWardenNetwork
    → ℕ
    → ℕ
    → Option ℕ
    → Timezone
    → WardenRegion
    → Bool
    → Result ProgramError (ElusivBasicWarden × BasicWardenNetwork)
unfolding update_region
attest_basic_warden_metadata attester attester_warden w network warden_id member_index asn timezone
      region uses_proxy =
    do
      guard (attester == attester_warden.config.key) (from_warden invalid_signer)
      guard attester_warden.config.warden_features.attestation (from_warden invalid_signer)
      network' ← update_region network warden_id member_index region
      ok (w, network')

unfoldable pub confirm_basic_warden_operation :
    ℕ → ElusivBasicWarden → Result ProgramError ElusivBasicWarden
confirm_basic_warden_operation operator w =
    let confirmed = record w { is_operator_confirmed = true } in
    elim w.config.operator [
      | some k ↦ guard (operator == k) (from_warden invalid_signer) >>= λ _. ok confirmed
      | none ↦ ok (record confirmed { config = record w.config { operator = some operator } })
    ]
