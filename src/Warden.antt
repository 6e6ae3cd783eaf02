-- ===== src/Warden.antt =====
-- elusiv-warden-network/src/warden.rs: the data of a warden. A public key, an address and a string are
-- only compared and stored, so they are numbers. Account arrays have a fixed length; a read or a write
-- out of range panics.
pub mod Network
pub mod Registry
pub mod Membership
pub mod Admission
pub mod Attestation
pub mod Statistics
pub mod Apa
pub mod Proposals
mod Tests
use elusiv.Base.{ℕ, Bool, Option, List}

pub data WardenRegion : Type 0 where
  africa america antarctica asia australia europe other : WardenRegion

pub data TlsMode : Type 0 where
  no_tls optional required : TlsMode

pub record WardenFeatures : Type 0 where
  pub apa : Bool
  pub attestation : Bool

pub record BasicWardenFeatures : Type 0 where
  pub rpc : Bool
  pub relay : Bool
  pub instant_relay : Bool

pub record Timezone : Type 0 where
  pub area : ℕ
  pub location : ℕ

pub record ElusivBasicWardenConfig : Type 0 where
  pub ident : ℕ
  pub key : ℕ
  pub operator : Option ℕ
  pub addr : ℕ
  pub rpc_port : ℕ
  pub tls_mode : TlsMode
  pub uses_proxy : Bool
  pub jurisdiction : ℕ
  pub timezone : Timezone
  pub region : WardenRegion
  pub version : List ℕ
  pub platform : ℕ
  pub warden_features : WardenFeatures
  pub basic_warden_features : BasicWardenFeatures
  pub tokens : List Bool

pub record ElusivBasicWarden : Type 0 where
  pub config : ElusivBasicWardenConfig
  pub lut : ℕ
  pub asn : Option ℕ
  pub is_operator_confirmed : Bool
  pub is_metadata_valid : Option Bool
  pub is_active : Bool
  pub join_timestamp : ℕ
  pub activation_timestamp : ℕ

-- The number of a region, its discriminant.
abbrev pub region_code : WardenRegion → ℕ
region_code africa = 0
region_code america = 1
region_code antarctica = 2
region_code asia = 3
region_code australia = 4
region_code europe = 5
region_code other = 6
