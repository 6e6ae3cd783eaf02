-- ===== src/Warden/Attestation.antt =====
-- The attestation of a warden's metadata (processor/basic_warden.rs).
use elusiv.Base.{
  ◌==◌, ==_iff, get_elem?, set, guard, from_warden, >>=-eq-ok, guard-eq-ok, ok_injective,
  unwrap-eq-ok, warden_invalid_instruction_data, invalid_signer, ProgramError, ok, read, write, ℕ,
  ◌≡◌, sym, ap, ◌∙◌, Bool, true, Option, some, List, arith,
}
use elusiv.Warden.{WardenRegion, Timezone, ElusivBasicWarden}
use elusiv.Warden.Network.{BasicWardenNetwork, update_region}
use elusiv.Warden.Registry.{attest_basic_warden_metadata}

write-set {ℓ} :
    {A : Type ℓ} (xs xs' : List A) (i : ℕ) (a : A)
    → write {E = ProgramError} xs i a ≡ ok xs'
    → xs' ≡ set xs i a
write-set xs xs' i a h = ground arith

pub update_region_lem :
    (n n' : BasicWardenNetwork) (id i : ℕ) (region : WardenRegion)
    → update_region n id i region ≡ ok n'
    → (get_elem? n.members i ≡ some id) × (n' ≡ record n { region = set n.region i region })
unfolding update_region
update_region_lem n n' id i region h =
    let (member, e, h) = >>=-eq-ok (read n.members i) _ h in
    let (_, f, h) =
      >>=-eq-ok (guard (member == id) (from_warden warden_invalid_instruction_data)) _ h in
    let (after, g, h) = >>=-eq-ok (write n.region i region) _ h in
    let same : member ≡ id =
      (==_iff member id).0
        (guard-eq-ok (member == id) (from_warden warden_invalid_instruction_data) f) in
    (
      unwrap-eq-ok (get_elem? n.members i) e ∙ ap some same,
      sym (ok_injective h)
          ∙ ap {A = List WardenRegion} {B = BasicWardenNetwork} (λ r. record n { region = r })
              (write-set n.region after i region g),
    )

-- Where an attestation returns, the signer is a warden that may attest, the member at the index given is
-- the attested warden, the region of that member is the attested one, and the attested warden's account
-- is as it was: neither its metadata nor their validity are stored.
pub attest_basic_warden_metadata_lem :
    (attester : ℕ) (attester_warden w w' : ElusivBasicWarden) (n n' : BasicWardenNetwork) (id i : ℕ)
    (asn : Option ℕ) (timezone : Timezone) (region : WardenRegion) (uses_proxy : Bool)
    → attest_basic_warden_metadata attester attester_warden w n id i asn timezone region uses_proxy
      ≡ ok (w', n')
    → (attester ≡ attester_warden.config.key)
      × (attester_warden.config.warden_features.attestation ≡ true)
      × (get_elem? n.members i ≡ some id)
      × (n' ≡ record n { region = set n.region i region })
      × (w' ≡ w)
unfolding attest_basic_warden_metadata
attest_basic_warden_metadata_lem attester attester_warden w w' n n' id i asn timezone region
      uses_proxy h =
    let (_, e, h) =
      >>=-eq-ok (guard (attester == attester_warden.config.key) (from_warden invalid_signer)) _ h in
    let (_, f, h) =
      >>=-eq-ok
        (guard attester_warden.config.warden_features.attestation (from_warden invalid_signer)) _
        h in
    let (after, g, h) = >>=-eq-ok (update_region n id i region) _ h in
    let (member, region_eq) = update_region_lem n after id i region g in
    let result = ok_injective h in
    (
      (==_iff attester attester_warden.config.key).0
          (guard-eq-ok (attester == attester_warden.config.key) (from_warden invalid_signer) e),
      guard-eq-ok attester_warden.config.warden_features.attestation (from_warden invalid_signer) f,
      member,
      sym (ap (λ x. x.1) result) ∙ region_eq,
      sym (ap (λ x. x.0) result),
    )
