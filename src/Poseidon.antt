-- ===== src/Poseidon.antt =====
-- elusiv/src/commitment/poseidon_hash.rs: the Poseidon hash of two field elements in 65 rounds. The field
-- and the tables of poseidon_constants.rs are parameters.
use elusiv.Base.{ltb, leb, if◌then◌else◌, ℕ, zero, suc, ◌+◌, Bool, false, not, ◌&&◌}

abbrev pub total_poseidon_rounds : ℕ
total_poseidon_rounds = 65

-- `BinarySpongeHashingState`.
pub record HashingState {ℓ} (F : Type ℓ) : Type ℓ where
  pub s0 : F
  pub s1 : F
  pub s2 : F

pub record Field {ℓ} (F : Type ℓ) : Type ℓ where
  pub zero_element : F
  pub add : F → F → F
  pub mul : F → F → F
  pub constants : ℕ → HashingState F
  pub matrix : ℕ → F

-- What the hashing accounts use: the hash function's round, and the conversions of the bytes.
pub record Hasher {ℓ κ} (F : Type ℓ) (U : Type κ) : Type (ℓ ⊔ κ) where
  pub zero_fr : F
  pub to_fr : U → F
  pub to_u256 : F → U
  pub hash_round : ℕ → HashingState F → HashingState F

module _ {ℓ} {F : Type ℓ} (f : Field F) where
  -- `matrix_mix!`, added to zero.
  abbrev matrix_mix : ℕ → HashingState F → F
  matrix_mix i s =
      f.add (f.add (f.add f.zero_element (f.mul (f.matrix i) s.s0)) (f.mul (f.matrix (i + 1)) s.s1))
        (f.mul (f.matrix (i + 2)) s.s2)

  -- `round!`, the fifth power.
  abbrev quintic : F → F
  quintic a = let b = f.mul a a in let c = f.mul b b in f.mul c a

  unfoldable pub binary_poseidon_hash_partial : ℕ → HashingState F → HashingState F
  binary_poseidon_hash_partial round s =
      let c = f.constants round in
      let a0 = f.add s.s0 c.s0 in
      let a1 = f.add s.s1 c.s1 in
      let a2 = f.add s.s2 c.s2 in
      let full = not (leb 4 round && ltb round 61) in
      let state : HashingState F = record {
        s0 = quintic a0;
        s1 = if full then quintic a1 else a1;
        s2 = if full then quintic a2 else a2;
      } in
      record { s0 = matrix_mix 0 state; s1 = matrix_mix 3 state; s2 = matrix_mix 6 state }

  abbrev pub poseidon {κ} : {U : Type κ} → (U → F) → (F → U) → Hasher F U
  unfolding binary_poseidon_hash_partial
  poseidon to_fr to_u256 = record {
    zero_fr = f.zero_element;
    to_fr = to_fr;
    to_u256 = to_u256;
    hash_round = binary_poseidon_hash_partial;
  }

module _ {ℓ κ} {F : Type ℓ} {U : Type κ} (h : Hasher F U) where
  -- `BinarySpongeHashingState::new`.
  abbrev pub new_state : F → F → Bool → HashingState F
  new_state l r invert =
      if invert
      then record { s0 = h.zero_fr; s1 = r; s2 = l }
      else record { s0 = h.zero_fr; s1 = l; s2 = r }

  abbrev pub result : HashingState F → F
  result s = s.s0

  -- The rounds from `round` on, `count` of them.
  unfoldable pub hash_rounds : ℕ → ℕ → HashingState F → HashingState F
  hash_rounds zero round s = s
  hash_rounds (suc count) round s = hash_rounds count (suc round) (h.hash_round round s)

  unfoldable pub full_poseidon2_hash : F → F → F
  unfolding hash_rounds
  full_poseidon2_hash a b = result (hash_rounds total_poseidon_rounds 0 (new_state a b false))
