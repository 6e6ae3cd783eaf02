-- ===== src/Fee.antt =====
-- elusiv/src/state/fee.rs and elusiv/src/state/governor.rs: the fees of the program. `proof_tx_count` is
-- the number of transactions of a proof verification, which the pairing's computations determine. Sums
-- and products of lamports wrap.
pub mod Cover
mod Tests
use elusiv.Base.{
  ltb, leb, ◌==◌, if◌then◌else◌, length, ◌>>=◌, ◌>>◌, guard, from_elusiv, invalid_instruction_data,
  invalid_fee_version, TokenError, ProgramError, Result, ok, err, panic, u32_mod, u64_mod, add_u64,
  mul_u64, ℕ, zero, suc, ◌/◌, Bool, true, false, ◌&&◌, Option, none, some,
}
use elusiv.Bytes.{div_ceiling}
use elusiv.Warden.Registry.{open_account}
use elusiv.Token.{Token, new, add, sub}
use elusiv.Commitment.{
  max_commitment_batching_rate, commitments_per_batch, base_commitment_hash_computation,
  commitment_hash_computation_instructions,
}

pub record ProgramFee : Type 0 where
  pub lamports_per_tx : ℕ
  pub base_commitment_network_fee : ℕ
  pub proof_network_fee : ℕ
  pub base_commitment_subvention : ℕ
  pub proof_subvention : ℕ
  pub warden_hash_tx_reward : ℕ
  pub warden_proof_reward : ℕ
  pub proof_base_tx_count : ℕ

pub record GovernorAccount : Type 0 where
  pub fee_version : ℕ
  pub program_fee : ProgramFee
  pub commitment_batching_rate : ℕ
  pub program_version : ℕ

-- `BasisPointFee::calc`.
unfoldable pub calc : ℕ → ℕ → ℕ
calc fee amount = mul_u64 fee amount / 10_000

abbrev pub hash_tx_compensation : ProgramFee → ℕ
hash_tx_compensation f = add_u64 f.lamports_per_tx f.warden_hash_tx_reward

unfoldable pub base_commitment_hash_computation_fee : ProgramFee → Result ProgramError ℕ
unfolding base_commitment_hash_computation
base_commitment_hash_computation_fee f = do
  computation ← base_commitment_hash_computation
  ok (
      add_u64 (mul_u64 (length computation.instructions) (hash_tx_compensation f))
        f.lamports_per_tx)

unfoldable pub commitment_hash_computation_fee : ProgramFee → ℕ → Result ProgramError ℕ
unfolding commitment_hash_computation_instructions div_ceiling
commitment_hash_computation_fee f min_batching_rate = do
  instructions ← commitment_hash_computation_instructions min_batching_rate
  count ← commitments_per_batch min_batching_rate
  div_ceiling u64_mod (mul_u64 (length instructions) (hash_tx_compensation f)) count

-- `u64_as_usize_safe`, the downcast to 32 bits.
abbrev u64_as_usize_safe : ℕ → Result ProgramError ℕ
u64_as_usize_safe u = if ltb u u32_mod then ok u else panic

unfoldable pub proof_verification_computation_fee : ProgramFee → ℕ → Result ProgramError ℕ
proof_verification_computation_fee f input_preparation_tx_count = do
  base ← u64_as_usize_safe f.proof_base_tx_count
  ok (
      add_u64 (mul_u64 (add_u64 input_preparation_tx_count base) f.lamports_per_tx)
        f.warden_proof_reward)

module _ (proof_tx_count : ℕ) where
  -- `ProgramFee::proof_base_tx_count`.
  abbrev pub proof_base_tx_count : ℕ
  proof_base_tx_count = add_u64 proof_tx_count 2

  -- The body of the loop of `is_valid`.
  unfoldable pub is_valid_at : ProgramFee → ℕ → Result ProgramError Bool
  unfolding commitment_hash_computation_fee
  is_valid_at f min_batching_rate = do
    commitment_fee ← commitment_hash_computation_fee f min_batching_rate
    let proof_fee = add_u64 (mul_u64 f.proof_base_tx_count f.lamports_per_tx) commitment_fee
    ok (
        leb f.base_commitment_subvention commitment_fee
        && leb f.proof_subvention proof_fee
        && f.proof_base_tx_count == proof_base_tx_count)

  -- The loop from the rate `rate` on, with the rounds left.
  unfoldable pub is_valid_from : ℕ → ProgramFee → ℕ → Result ProgramError Bool
  unfolding is_valid_at
  is_valid_from zero f rate = ok true
  is_valid_from (suc rounds) f rate = is_valid_at f rate >>= λ valid.
      let rest = is_valid_from rounds f (suc rate) in if valid then rest else ok false

  unfoldable pub is_valid : ProgramFee → Result ProgramError Bool
  unfolding is_valid_from
  is_valid f = is_valid_from max_commitment_batching_rate f 0

  -- `init_new_fee_version` of elusiv/src/processor/accounts.rs. `fee_accounts` holds the fees of the
  -- versions whose account exists, and `exists` is the error of the system program for one that does.
  unfoldable pub init_new_fee_version :
      ProgramError
      → GovernorAccount
      → (ℕ → Option ProgramFee)
      → ℕ
      → ProgramFee
      → Result ProgramError (GovernorAccount × (ℕ → Option ProgramFee))
  unfolding is_valid open_account
  init_new_fee_version exists g fee_accounts fee_version f = do
    guard (fee_version == g.fee_version) (from_elusiv invalid_fee_version)
    valid ← is_valid f
    guard valid (from_elusiv invalid_instruction_data)
    fee_accounts' ← open_account exists fee_accounts fee_version f
    ok (record g { program_fee = f }, fee_accounts')

  -- `ProgramFee::new`.
  unfoldable pub new_program_fee :
      ℕ → ℕ → ℕ → ℕ → ℕ → ℕ → ℕ → Result ProgramError (Option ProgramFee)
  unfolding is_valid
  new_program_fee lamports base_network proof_network base_subvention proof_subvention hash_reward
        proof_reward =
      let f : ProgramFee = record {
        lamports_per_tx = lamports;
        base_commitment_network_fee = base_network;
        proof_network_fee = proof_network;
        base_commitment_subvention = base_subvention;
        proof_subvention = proof_subvention;
        warden_hash_tx_reward = hash_reward;
        warden_proof_reward = proof_reward;
        proof_base_tx_count = proof_base_tx_count;
      } in
      is_valid f >>= λ valid. ok (if valid then some f else none)

-- `into_token` of lamports at a price, which the SDK of the oracle computes, is the parameter
-- `into_token`; the errors of the tokens are those of `Token`.
unfoldable pub proof_verification_fee :
    (ℕ → ℕ → Result TokenError Token)
    → ProgramFee
    → ℕ
    → ℕ
    → ℕ
    → ℕ
    → Result ProgramError (Result TokenError Token)
unfolding proof_verification_computation_fee commitment_hash_computation_fee calc add sub new
proof_verification_fee into_token f input_preparation_tx_count min_batching_rate amount token_id =
    proof_verification_computation_fee f input_preparation_tx_count >>= λ computation_fee.
    elim (into_token computation_fee token_id) [
      | err e ↦ ok (err e)
      | panic ↦ panic
      | ok verification ↦ commitment_hash_computation_fee f min_batching_rate >>= λ commitment_fee.
          ok (do
            hashing ← into_token commitment_fee token_id
            network ← new token_id (calc f.proof_network_fee amount)
            subvention ← into_token f.proof_subvention token_id
            fees ← add verification hashing
            all ← add fees network
            sub all subvention)
    ]
