-- ===== src/Warden/Admission.antt =====
-- When a registration is accepted, and that no key is registered twice.
use elusiv.Base.{ProgramError, Result, ok, ℕ, ◌<◌, ◌≡◌, ◌≢◌, none, some}
use elusiv.Warden.{ElusivBasicWardenConfig, ElusivBasicWarden}
use elusiv.Warden.Registry.{WardenRegistry, register_basic_warden}
use elusiv.Warden.Membership.{IsRegistered, register_basic_warden_parts}

-- While the ids, members and accounts agree, the key of a warden that is a member cannot be registered
-- again, whatever the id, the config and the clock.
pub register_basic_warden-known_key :
    (in_use : ProgramError) (r r' : WardenRegistry) (i warden_id : ℕ) (w : ElusivBasicWarden)
    (config : ElusivBasicWardenConfig) (clock : Result ProgramError ℕ)
    → IsRegistered r
    → i < r.network.members_count
    → r.warden_accounts i ≡ some w
    → register_basic_warden in_use r w.config.key warden_id config clock ≢ ok r'
register_basic_warden-known_key in_use r r' i warden_id w config clock inv member stored h =
    let (_, _, _, _, _, _, _, _, _, _, no_map, _) =
      register_basic_warden_parts in_use r r' w.config.key warden_id config clock h in
    let (w', stored', mapped) = inv.account_at i member in
    let same : w' ≡ w = cc in
    let none_there : r.warden_map_accounts w'.config.key ≡ none = rw same no_map in cc
