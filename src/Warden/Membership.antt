-- ===== src/Warden/Membership.antt =====
-- The invariant of the registrations: the ids of the wardens, the members of the basic network and the
-- accounts.
use elusiv.Base.{
  ltb, ◌==◌, lt→ltb, ==_iff, ==_refl, Option-cases, length, get_elem?, set, length-set,
  get_elem?-set_self, get_elem?-set_ne, guard, ok_or, from_warden, >>=-eq-ok, guard-eq-ok,
  ok_injective, ok_or-eq-ok, warden_registration_error, ProgramError, invalid_argument, Result, ok,
  u32_mod, add_u32, checked_add, ℕ, ◌+◌, ◌≤◌, ◌<◌, ◌≡◌, refl, sym, ap, ◌∙◌, ◌≢◌, inl, inr, Bool,
  true, false, Option, none, some, List, arith, ℕ_discrete,
}
use elusiv.Warden.{WardenRegion, BasicWardenFeatures, ElusivBasicWardenConfig, ElusivBasicWarden}
use elusiv.Warden.Network.{BasicWardenNetwork, basic_network_size, try_add_member}
use elusiv.Warden.Registry.{WardenRegistry, with_account, open_account, register_basic_warden}

pub record IsFullSize (n : BasicWardenNetwork) : Type 0 where
  pub count_le : n.members_count ≤ basic_network_size
  pub members_size : length n.members ≡ basic_network_size
  pub features_size : length n.features ≡ basic_network_size
  pub tokens_size : length n.tokens ≡ basic_network_size
  pub region_size : length n.region ≡ basic_network_size

pub record IsRegistered (r : WardenRegistry) : Type 0 where
  pub sizes : IsFullSize r.network
  pub ids_eq : r.next_warden_id ≡ r.network.members_count
  pub member_at : (i : ℕ) → i < r.network.members_count → get_elem? r.network.members i ≡ some i
  pub account_at :
      (i : ℕ)
      → i < r.network.members_count
      → (w : ElusivBasicWarden) × (r.warden_accounts i ≡ some w)
        × (r.warden_map_accounts w.config.key ≡ some i)
  pub no_account : (i : ℕ) → r.network.members_count ≤ i → r.warden_accounts i ≡ none

pub with_account_self :
    {A : Type 0} (accounts : ℕ → Option A) (seed : ℕ) (a : A)
    → with_account accounts seed a seed ≡ some a
unfolding with_account
with_account_self accounts seed a = rw (==_refl seed) refl

pub with_account_other :
    {A : Type 0} (accounts : ℕ → Option A) (seed s : ℕ) (a : A)
    → s ≢ seed
    → with_account accounts seed a s ≡ accounts s
unfolding with_account
with_account_other accounts seed s a ne = let e : (s == seed) ≡ false = ground arith in rw e refl

pub open_account_lem :
    {A : Type 0} (in_use : ProgramError) (accounts accounts' : ℕ → Option A) (seed : ℕ) (a : A)
    → open_account in_use accounts seed a ≡ ok accounts'
    → (accounts seed ≡ none) × (accounts' ≡ with_account accounts seed a)
unfolding open_account
open_account_lem in_use accounts accounts' seed a h = elim (Option-cases (accounts seed)) [
  | inl e ↦ (e, let q = rw (e, open_account) at h in cc)
  | inr (b, e) ↦ let q = rw (e, open_account) at h in cc
]

pub open_account_fresh :
    {A : Type 0} (in_use : ProgramError) (accounts : ℕ → Option A) (seed : ℕ) (a : A)
    → accounts seed ≡ none
    → open_account in_use accounts seed a ≡ ok (with_account accounts seed a)
unfolding open_account
open_account_fresh in_use accounts seed a e = rw (e, open_account) refl

pub try_add_member_lem :
    (n n' : BasicWardenNetwork) (id : ℕ) (features : BasicWardenFeatures) (region : WardenRegion)
    (tokens : List Bool)
    → try_add_member n id features region tokens ≡ ok n'
    → (n.members_count < basic_network_size)
      × (n'.members_count ≡ add_u32 n.members_count 1)
      × (n'.members ≡ set n.members n.members_count id)
      × (n'.features ≡ set n.features n.members_count features)
      × (n'.region ≡ set n.region n.members_count region)
      × (n'.tokens ≡ set n.tokens n.members_count tokens)
unfolding try_add_member
try_add_member_lem n n' id features region tokens h = ground arith

pub try_add_member_room :
    (n : BasicWardenNetwork) (id : ℕ) (features : BasicWardenFeatures) (region : WardenRegion)
    (tokens : List Bool)
    → IsFullSize n
    → n.members_count < basic_network_size
    → try_add_member n id features region tokens
      ≡ ok (record {
        members_count = add_u32 n.members_count 1;
        members = set n.members n.members_count id;
        features = set n.features n.members_count features;
        tokens = set n.tokens n.members_count tokens;
        region = set n.region n.members_count region;
      })
unfolding try_add_member
try_add_member_room n id features region tokens s h =
    let a = lt→ltb n.members_count basic_network_size h in
    let b : ltb n.members_count (length n.members) ≡ true = rw s.members_size a in
    let c : ltb n.members_count (length n.features) ≡ true = rw s.features_size a in
    let d : ltb n.members_count (length n.region) ≡ true = rw s.region_size a in
    let e : ltb n.members_count (length n.tokens) ≡ true = rw s.tokens_size a in
    rw (a, b, c, d, e) refl

-- A network to which a member is added keeps the sizes of its arrays.
pub try_add_member-IsFullSize :
    (n n' : BasicWardenNetwork) (id : ℕ) (features : BasicWardenFeatures) (region : WardenRegion)
    (tokens : List Bool)
    → IsFullSize n
    → try_add_member n id features region tokens ≡ ok n'
    → IsFullSize n'
try_add_member-IsFullSize n n' id features region tokens s h =
    let (room, count, m, f, r, t) = try_add_member_lem n n' id features region tokens h in
    record {
      count_le = rw count (omega arith);
      members_size = rw (m, length-set n.members n.members_count id) s.members_size;
      features_size = rw (f, length-set n.features n.members_count features) s.features_size;
      tokens_size = rw (t, length-set n.tokens n.members_count tokens) s.tokens_size;
      region_size = rw (r, length-set n.region n.members_count region) s.region_size;
    }

checked_suc : (a b : ℕ) → checked_add u32_mod a 1 ≡ some b → b ≡ a + 1
checked_suc a b h = ground arith

-- The warden that a registration stores.
abbrev fresh_warden : ElusivBasicWardenConfig → ℕ → ElusivBasicWarden
fresh_warden config now = record {
  config = config;
  lut = 0;
  asn = none;
  is_operator_confirmed = false;
  is_metadata_valid = none;
  is_active = false;
  join_timestamp = now;
  activation_timestamp = now;
}

pub register_basic_warden_parts :
    (in_use : ProgramError) (r r' : WardenRegistry) (warden_key warden_id : ℕ)
    (config : ElusivBasicWardenConfig) (clock : Result ProgramError ℕ)
    → register_basic_warden in_use r warden_key warden_id config clock ≡ ok r'
    → (n' : BasicWardenNetwork) × (w : ElusivBasicWarden) × (config.key ≡ warden_key)
      × (try_add_member r.network warden_id config.basic_warden_features config.region config.tokens
          ≡ ok n')
      × (warden_id ≡ r.next_warden_id)
      × (r'.next_warden_id ≡ warden_id + 1)
      × (r'.network ≡ n')
      × (w.config ≡ config)
      × (r.warden_accounts warden_id ≡ none)
      × (r'.warden_accounts ≡ with_account r.warden_accounts warden_id w)
      × (r.warden_map_accounts warden_key ≡ none)
      × (r'.warden_map_accounts ≡ with_account r.warden_map_accounts warden_key warden_id)
unfolding register_basic_warden
register_basic_warden_parts in_use r r' warden_key warden_id config clock h =
    let (_, a, h) = >>=-eq-ok (guard (config.key == warden_key) invalid_argument) _ h in
    let (n', b, h) =
      >>=-eq-ok
        (try_add_member r.network warden_id config.basic_warden_features config.region
          config.tokens)
        _ h in
    let (now, _, h) = >>=-eq-ok clock _ h in
    let (_, c, h) = >>=-eq-ok (guard (warden_id == r.next_warden_id) invalid_argument) _ h in
    let (next', d, h) =
      >>=-eq-ok (ok_or (checked_add u32_mod warden_id 1) (from_warden warden_registration_error)) _
        h in
    let (accounts', f, h) =
      >>=-eq-ok (open_account in_use r.warden_accounts warden_id (fresh_warden config now)) _ h in
    let (maps', g, h) =
      >>=-eq-ok (open_account in_use r.warden_map_accounts warden_key warden_id) _ h in
    let (no_warden, accounts_eq) =
      open_account_lem in_use r.warden_accounts accounts' warden_id _ f in
    let (no_map, maps_eq) =
      open_account_lem in_use r.warden_map_accounts maps' warden_key warden_id g in
    let e = ok_injective h in
    let next_eq : next' ≡ warden_id + 1 =
      checked_suc warden_id next'
        (ok_or-eq-ok (checked_add u32_mod warden_id 1) (from_warden warden_registration_error) d) in
    (
      n',
      fresh_warden config now,
      (==_iff config.key warden_key).0 (guard-eq-ok (config.key == warden_key) invalid_argument a),
      b,
      (==_iff warden_id r.next_warden_id).0
          (guard-eq-ok (warden_id == r.next_warden_id) invalid_argument c),
      sym (ap (λ q. q.next_warden_id) e) ∙ next_eq,
      sym (ap (λ q. q.network) e),
      refl,
      no_warden,
      sym (ap (λ q. q.warden_accounts) e) ∙ accounts_eq,
      no_map,
      sym (ap (λ q. q.warden_map_accounts) e) ∙ maps_eq,
    )

-- A registration keeps the ids, the members and the accounts in agreement.
pub register_basic_warden-IsRegistered :
    (in_use : ProgramError) (r r' : WardenRegistry) (warden_key warden_id : ℕ)
    (config : ElusivBasicWardenConfig) (clock : Result ProgramError ℕ)
    → IsRegistered r
    → register_basic_warden in_use r warden_key warden_id config clock ≡ ok r'
    → IsRegistered r'
register_basic_warden-IsRegistered in_use r r' warden_key warden_id config clock inv h =
    let (n', w, key_eq, added, id, next, net, conf, no_warden, accounts, no_map, maps) =
      register_basic_warden_parts in_use r r' warden_key warden_id config clock h in
    let n = r.network in
    let (room, count, members, _, _, _) =
      try_add_member_lem n n' warden_id config.basic_warden_features config.region config.tokens
        added in
    let at_end : warden_id ≡ n.members_count = id ∙ inv.ids_eq in
    let count' : n'.members_count ≡ n.members_count + 1 = rw count (ground arith) in
    record {
      sizes = rw net (
          try_add_member-IsFullSize n n' warden_id config.basic_warden_features config.region
            config.tokens inv.sizes added);
      ids_eq = rw (net, count', ← at_end) next;
      member_at = rw net (λ i lt. elim (ℕ_discrete n.members_count i) [
        | yes same ↦
            rw (members, at_end, same)
              (get_elem?-set_self n.members i i (omega (arith, inv.sizes.members_size, same)))
        | no other ↦
            rw (members, get_elem?-set_ne n.members n.members_count i warden_id other)
              (inv.member_at i (omega arith))
      ]);
      account_at = rw net (λ i lt. elim (ℕ_discrete i warden_id) [
        | yes same ↦ (
          w,
          rw (accounts, same) (with_account_self r.warden_accounts warden_id w),
          rw (maps, conf, key_eq, same)
              (with_account_self r.warden_map_accounts warden_key warden_id),
        )
        | no other ↦
            let (w₀, stored, mapped) = inv.account_at i (omega arith) in
            (
              w₀,
              rw (accounts, with_account_other r.warden_accounts warden_id i w other) stored,
              rw
                  (
                    maps,
                    with_account_other r.warden_map_accounts warden_key w₀.config.key warden_id
                        (λ same. cc),
                  )
                  mapped,
            )
      ]);
      no_account = rw net (λ i le.
          rw (accounts, with_account_other r.warden_accounts warden_id i w (λ same. omega arith))
            (inv.no_account i (omega arith)));
    }
