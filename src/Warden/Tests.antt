-- ===== src/Warden/Tests.antt =====
-- A first registration, and a statistics call.
use elusiv.Base.{
  get_elem?, set, replicate, length-replicate, ProgramError, invalid_account_data, Result, ok, ℕ,
  ◌≡◌, refl, ◌≢◌, Bool, true, false, none, some, List, [], ◌∷◌, arith,
}
use elusiv.Calendar.{unix_timestamp_to_day_and_year}
use elusiv.Warden.{
  europe, africa, no_tls, BasicWardenFeatures, ElusivBasicWardenConfig, ElusivBasicWarden,
}
use elusiv.Warden.Network.{update_region, BasicWardenNetwork, try_add_member}
use elusiv.Warden.Registry.{
  attest_basic_warden_metadata, WardenRegistry, open_account, with_account, register_basic_warden,
}
use elusiv.Warden.Attestation.{attest_basic_warden_metadata_lem}
use elusiv.Warden.Membership.{IsRegistered, register_basic_warden-IsRegistered}
use elusiv.Warden.Admission.{register_basic_warden-known_key}
use elusiv.Warden.Statistics.{
  WardenStatistics, BasicWardenStats, Instruction, inc, find_trackable, track_instruction,
  track_basic_warden_stats_inner, track_basic_warden_stats, track_basic_warden_stats_lem,
}

abbrev relay_features : BasicWardenFeatures
relay_features = record { rpc = true; relay = true; instant_relay = false }

abbrev first_config : ElusivBasicWardenConfig
first_config = record {
  ident = 0;
  key = 77;
  operator = none;
  addr = 0;
  rpc_port = 80;
  tls_mode = no_tls;
  uses_proxy = false;
  jurisdiction = 0;
  timezone = record { area = 0; location = 0 };
  region = africa;
  version = 1 ∷ 0 ∷ 0 ∷ [];
  platform = 0;
  warden_features = record { apa = false; attestation = false };
  basic_warden_features = relay_features;
  tokens = true ∷ [];
}

abbrev fresh_network : BasicWardenNetwork
fresh_network = record {
  members_count = 0;
  members = replicate 512 0;
  features = replicate 512 relay_features;
  tokens = replicate 512 [];
  region = replicate 512 africa;
}

abbrev fresh_registry : WardenRegistry
fresh_registry = record {
  next_warden_id = 0;
  network = fresh_network;
  warden_accounts = λ _. none;
  warden_map_accounts = λ _. none;
}

abbrev first_warden : ElusivBasicWarden
first_warden = record {
  config = first_config;
  lut = 0;
  asn = none;
  is_operator_confirmed = false;
  is_metadata_valid = none;
  is_active = false;
  join_timestamp = 5;
  activation_timestamp = 5;
}

abbrev first_registry : WardenRegistry
first_registry = record {
  next_warden_id = 1;
  network = record {
    members_count = 1;
    members = set (replicate 512 0) 0 0;
    features = set (replicate 512 relay_features) 0 relay_features;
    tokens = set (replicate 512 []) 0 (true ∷ []);
    region = set (replicate 512 africa) 0 africa;
  };
  warden_accounts = with_account (λ _. none) 0 first_warden;
  warden_map_accounts = with_account (λ _. none) 77 0;
}

fresh_registry-IsRegistered : IsRegistered fresh_registry
fresh_registry-IsRegistered = record {
  sizes = record {
    count_le = omega arith;
    members_size = length-replicate {A = ℕ} 512 0;
    features_size = length-replicate 512 relay_features;
    tokens_size = length-replicate {A = List Bool} 512 [];
    region_size = length-replicate 512 africa;
  };
  ids_eq = refl;
  member_at = λ i h. absurd (omega arith);
  account_at = λ i h. absurd (omega arith);
  no_account = λ i h. refl;
}

first_registration :
    register_basic_warden invalid_account_data fresh_registry 77 0 first_config (ok 5)
    ≡ ok first_registry
unfolding register_basic_warden try_add_member open_account
first_registration = refl

register_basic_warden-IsRegistered_example : IsRegistered first_registry
register_basic_warden-IsRegistered_example =
    register_basic_warden-IsRegistered invalid_account_data fresh_registry first_registry 77 0
      first_config (ok 5) fresh_registry-IsRegistered first_registration

first_registry-IsRegistered : IsRegistered first_registry
first_registry-IsRegistered =
    register_basic_warden-IsRegistered invalid_account_data fresh_registry first_registry 77 0
      first_config (ok 5) fresh_registry-IsRegistered first_registration

first_account : first_registry.warden_accounts 0 ≡ some first_warden
unfolding with_account
first_account = refl

-- A second warden, with the key of the first.
register_basic_warden-known_key_example :
    register_basic_warden invalid_account_data first_registry 77 1 first_config (ok 6)
    ≢ ok fresh_registry
register_basic_warden-known_key_example =
    register_basic_warden-known_key invalid_account_data first_registry fresh_registry 0 1
      first_warden first_config (ok 6) first_registry-IsRegistered (omega arith) first_account

abbrev no_statistics : WardenStatistics
no_statistics = record { activity = replicate 366 0; total = 0 }

abbrev stats_2022 : BasicWardenStats
stats_2022 = record {
  year = 2022;
  last_activity_timestamp = 0;
  store = no_statistics;
  send = no_statistics;
  migrate = no_statistics;
}

abbrev finalize_instruction : ℕ → Result ProgramError Instruction
finalize_instruction i = ok (record { program_id = 9; accounts = 77 ∷ []; data_bytes = 2 ∷ [] })

tracked_test :
    track_basic_warden_stats 9
      (ok 1)
      finalize_instruction
      77
      stats_2022
      2022
      true
      (ok 1_671_713_372)
    ≡ ok (record stats_2022 { last_activity_timestamp = 1_671_713_372 })
unfolding track_basic_warden_stats track_basic_warden_stats_inner track_instruction find_trackable
    inc unix_timestamp_to_day_and_year
tracked_test = refl

track_basic_warden_stats_example :
    (t : ℕ) × (◌≡◌ {A = BasicWardenStats}
      (record stats_2022 { last_activity_timestamp = 1_671_713_372 })
      (record stats_2022 { last_activity_timestamp = t }))
track_basic_warden_stats_example =
    track_basic_warden_stats_lem 9 (ok 1) finalize_instruction 77 stats_2022
      (record stats_2022 { last_activity_timestamp = 1_671_713_372 }) 2022 true (ok 1_671_713_372)
      tracked_test

-- A warden with the key 5 that may attest.
abbrev attester : ElusivBasicWarden
attester = record first_warden {
  config = record first_config {
    key = 5;
    warden_features = record { apa = false; attestation = true };
  };
}

abbrev network_in_europe : BasicWardenNetwork
network_in_europe = record first_registry.network {
  region = set first_registry.network.region 0 europe;
}

attested_test :
    attest_basic_warden_metadata 5 attester first_warden first_registry.network 0 0
      (some 1)
      (record { area = 1; location = 1 })
      europe
      true
    ≡ ok (first_warden, network_in_europe)
unfolding attest_basic_warden_metadata update_region
attested_test = refl

attest_basic_warden_metadata_example :
    (◌≡◌ {A = ℕ} 5 5)
    × (true ≡ true)
    × (get_elem? first_registry.network.members 0 ≡ some 0)
    × (network_in_europe
        ≡ record first_registry.network { region = set first_registry.network.region 0 europe })
    × (◌≡◌ {A = ElusivBasicWarden} first_warden first_warden)
attest_basic_warden_metadata_example =
    attest_basic_warden_metadata_lem 5 attester first_warden first_warden first_registry.network
      network_in_europe 0 0 (some 1) (record { area = 1; location = 1 }) europe true attested_test
