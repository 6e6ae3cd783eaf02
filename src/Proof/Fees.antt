-- ===== src/Proof/Fees.antt =====
-- init_verification_transfer_fee of elusiv/src/processor/proof.rs: the fees of a verification are fixed, and
-- those that are due in advance are transferred to the pool.
pub mod Covered
mod Tests
use elusiv.Base.{
  leb, ◌==◌, if◌then◌else◌, ◌>>=◌, ◌>>◌, guard, map_err, from_elusiv, from_token, invalid_amount,
  invalid_account, invalid_recipient, invalid_account_state, invalid_fee, invalid_fee_version,
  ProgramError, Result, ok, add_u64, ℕ, Bool, true, false, not, ◌&&◌, none,
}
use elusiv.Token.{Token, lamports_token, new, add, sub, amount, add_lamports}
use elusiv.Fee.{
  GovernorAccount, ProgramFee, calc, proof_verification_computation_fee,
  commitment_hash_computation_fee,
}
use elusiv.Transfers.{
  Ledger, Environment, TokenPrice, new_token_price, lamports_into_token, transfer_token,
  transfer_token_from_pda, verify_program_token_account, verify_token_account,
  system_program_account_rent, spl_token_account_rent,
}
use elusiv.Proof.{
  ProofRequest, send, migrate, join_split_inputs, request_fee_version, VerificationAccount,
  VerificationAccountData, VerificationState, initialized, fee_transferred,
}

-- The keys of the accounts.
pub record FeeAccounts : Type 0 where
  pub fee_payer : ℕ
  pub fee_payer_token_account : ℕ
  pub pool : ℕ
  pub pool_account : ℕ
  pub fee_collector : ℕ
  pub fee_collector_account : ℕ
  pub sol_usd_price_account : ℕ
  pub token_usd_price_account : ℕ
  pub token_program : ℕ
  pub system_program : ℕ

-- The fees of a verification; `hash_fee` is in lamports.
pub record VerificationFees : Type 0 where
  pub subvention : Token
  pub verification_fee : Token
  pub hash_fee : ℕ
  pub hash_fee_token : Token
  pub network_fee : Token

abbrev pub is_initialized : VerificationState → Bool
is_initialized initialized = true
is_initialized _ = false

-- `LamportsInto` with `?`.
unfoldable pub into_token : TokenPrice → ℕ → ℕ → Result ProgramError Token
unfolding lamports_into_token
into_token price lamports token_id =
    map_err from_token (lamports_into_token price lamports token_id)

-- The fees, which the fee of the request must cover but for the subvention.
unfoldable pub verification_fees :
    TokenPrice → ProgramFee → ℕ → ℕ → ℕ → ℕ → ℕ → Result ProgramError VerificationFees
unfolding into_token proof_verification_computation_fee commitment_hash_computation_fee calc new add
    sub amount
verification_fees price fee min_batching_rate tx_count token_id joined_amount joined_fee = do
  subvention ← into_token price fee.proof_subvention token_id
  verification_fee ← proof_verification_computation_fee fee tx_count >>= λ computation_fee.
      into_token price computation_fee token_id
  hash_fee ← commitment_hash_computation_fee fee min_batching_rate
  hash_fee_token ← into_token price hash_fee token_id
  network_fee ← map_err from_token (new token_id (calc fee.proof_network_fee joined_amount))
  with_verification ← map_err from_token (add hash_fee_token verification_fee)
  with_network ← map_err from_token (add with_verification network_fee)
  due ← map_err from_token (sub with_network subvention)
  guard (leb (amount due) joined_fee) (from_elusiv invalid_fee)
  ok (record {
    subvention = subvention;
    verification_fee = verification_fee;
    hash_fee = hash_fee;
    hash_fee_token = hash_fee_token;
    network_fee = network_fee;
  })

module _ {T : Type 0} (env : Environment T) where
  -- The rent of an associated account, in lamports and in tokens, and the checks of a send's amount.
  unfoldable pub recipient_rent : TokenPrice → ℕ → ProofRequest → Result ProgramError (ℕ × ℕ)
  unfolding into_token amount
  recipient_rent price token_id (migrate q) = ok (0, 0)
  recipient_rent price token_id (send q) = do
    let j = q.join_split
    guard (not (q.recipient_is_associated_token_account && token_id == 0))
        (from_elusiv invalid_recipient)
    minimum ← if token_id == 0 && not (j.amount == 0) then system_program_account_rent env else ok 0
    guard (leb minimum j.amount) (from_elusiv invalid_amount)
    (if q.recipient_is_associated_token_account
        then (do
          rent ← spl_token_account_rent env
          rent_token ← into_token price rent token_id
          guard (leb (add_u64 (amount rent_token) (j.optional_fee.amount)) j.amount)
              (from_elusiv invalid_amount)
          ok (rent, amount rent_token))
        else ok (0, 0))

  unfoldable pub transfer_fees :
      FeeAccounts → VerificationFees → ℕ → Ledger T → Result ProgramError (Ledger T)
  unfolding transfer_token transfer_token_from_pda
  transfer_fees a fees rent l = do
    lamports ← map_err from_token (add_lamports fees.hash_fee rent)
    l1 ←
        transfer_token env a.fee_payer a.fee_payer a.pool a.system_program (lamports_token lamports)
          l
    transfer_token_from_pda env a.fee_collector a.fee_collector_account a.pool_account
        a.token_program fees.subvention l1

  unfoldable pub init_verification_transfer_fee :
      {P C : Type 0}
      → FeeAccounts
      → GovernorAccount
      → VerificationAccount P C
      → Ledger T
      → Result ProgramError (VerificationAccount P C × Ledger T)
  unfolding new_token_price verification_fees verify_program_token_account recipient_rent
      transfer_fees verify_token_account amount
  init_verification_transfer_fee a governor s l = do
    guard (is_initialized s.state) (from_elusiv invalid_account_state)
    guard (s.other_data.fee_payer == a.fee_payer) (from_elusiv invalid_account)
    let j = join_split_inputs s.request
    guard (request_fee_version s.request == governor.fee_version) (from_elusiv invalid_fee_version)
    price ← new_token_price env a.sol_usd_price_account a.token_usd_price_account j.token_id
    let rate = governor.commitment_batching_rate
    fees ←
        verification_fees price governor.program_fee rate s.prepare_inputs_instructions_count
          j.token_id j.amount j.fee
    verify_program_token_account env a.pool a.pool_account j.token_id
    verify_program_token_account env a.fee_collector a.fee_collector_account j.token_id
    (rent, rent_token) ← recipient_rent price j.token_id s.request
    l' ← transfer_fees a fees rent l
    valid ← verify_token_account env l' a.fee_payer_token_account j.token_id
    guard valid (from_elusiv invalid_account)
    ok (
      record s {
        other_data = record {
          fee_payer = a.fee_payer;
          fee_payer_account = a.fee_payer_token_account;
          recipient_wallet = none;
          skip_nullifier_pda = s.other_data.skip_nullifier_pda;
          min_batching_rate = rate;
          token_id = j.token_id;
          subvention = amount fees.subvention;
          network_fee = amount fees.network_fee;
          commitment_hash_fee = fees.hash_fee;
          commitment_hash_fee_token = amount fees.hash_fee_token;
          proof_verification_fee = amount fees.verification_fee;
          associated_token_account_rent = rent_token;
        };
        state = fee_transferred;
      },
      l',
    )
