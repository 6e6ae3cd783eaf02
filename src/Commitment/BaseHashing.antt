-- ===== src/Commitment/BaseHashing.antt =====
-- elusiv/src/state/commitment.rs, commitment/mod.rs and processor/commitment.rs: the hash of a base
-- commitment and its amount, in an account of its own. `U` is the type of the 32 bytes, `F` that of the
-- field elements, `M` that of the metadata. The lamports of the accounts are numbers in
-- `BaseFinalization`; `reduce` and `from_repr` are the conversions of `RawU256` and of the field.
pub mod Calls
pub mod Closing
mod Tests
use elusiv.Base.{
  ltb, leb, ◌==◌, length, ◌>>=◌, ◌>>◌, guard, ok_or, unwrap, from_elusiv, math_err, invalid_account,
  computation_is_not_yet_started, computation_is_not_yet_finished, computation_is_already_finished,
  invalid_fee_version, ProgramError, account_not_rent_exempt, Result, ok, u64_mod, add_u32, add_u64,
  checked_add, checked_sub, read, ℕ, zero, suc, ◌-◌, ◌*◌, ◌^◌, Bool, true, false, Option, List, [],
  ◌∷◌,
}
use elusiv.Poseidon.{HashingState, Hasher, new_state, result}
use elusiv.Fee.{ProgramFee, base_commitment_hash_computation_fee, hash_tx_compensation}
use elusiv.Commitment.{base_commitment_hash_computation}
use elusiv.Commitment.Account.{CommitmentHashingAccount, compute_commitment_hash_partial}
use elusiv.Commitment.Processor.{BatchAccounts, enqueue_commitment}

pub record BaseCommitmentHashRequest {κ} (U : Type κ) : Type κ where
  pub base_commitment : U
  pub recent_commitment_index : ℕ
  pub amount : ℕ
  pub token_id : ℕ
  pub commitment : U
  pub fee_version : ℕ
  pub min_batching_rate : ℕ

pub record BaseCommitmentHashingAccount {ℓ κ μ} (F : Type ℓ) (U : Type κ) (M : Type μ)
    : Type (ℓ ⊔ κ ⊔ μ) where
  pub instruction : ℕ
  pub round : ℕ
  pub fee_version : ℕ
  pub fee_payer : U
  pub is_active : Bool
  pub token_id : ℕ
  pub state : HashingState F
  pub min_batching_rate : ℕ
  pub metadata : M

-- An account's lamports go down and another's up.
unfoldable pub transfer_lamports_from_pda : ℕ → ℕ → ℕ → Result ProgramError (ℕ × ℕ)
transfer_lamports_from_pda pda recipient lamports = do
  pda' ← ok_or (checked_sub pda lamports) math_err
  recipient' ← ok_or (checked_add u64_mod recipient lamports) math_err
  ok (pda', recipient')

unfoldable pub transfer_lamports_from_pda_checked : ℕ → ℕ → ℕ → ℕ → Result ProgramError (ℕ × ℕ)
unfolding transfer_lamports_from_pda
transfer_lamports_from_pda_checked rent_lamports pda recipient lamports = do
  rest ← ok_or (checked_sub pda lamports) math_err
  guard (leb rent_lamports rest) account_not_rent_exempt
  transfer_lamports_from_pda pda recipient lamports

module _ {ℓ κ} {F : Type ℓ} {U : Type κ} (h : Hasher F U) where
  -- The loop over the rounds of a call, `count` of them.
  unfoldable pub base_rounds : ℕ → ℕ → ℕ → HashingState F → Result ProgramError (HashingState F)
  base_rounds total zero round state = ok state
  base_rounds total (suc count) round state = do
    guard (ltb round total) (from_elusiv computation_is_already_finished)
    base_rounds total count (suc round) (h.hash_round round state)

  -- The compensation goes from the pool to the fee payer; the lamports of the two are the result too.
  unfoldable pub compute_commitment_hash :
      ProgramFee
      → ℕ
      → ℕ
      → ℕ
      → CommitmentHashingAccount F U
      → ℕ
      → Result ProgramError (CommitmentHashingAccount F U × ℕ × ℕ)
  unfolding compute_commitment_hash_partial transfer_lamports_from_pda_checked
  compute_commitment_hash fee rent_lamports pool fee_payer a fee_version = do
    guard a.is_active (from_elusiv computation_is_not_yet_started)
    guard (a.fee_version == fee_version) (from_elusiv invalid_fee_version)
    a' ← compute_commitment_hash_partial h a
    p ← transfer_lamports_from_pda_checked rent_lamports pool fee_payer (hash_tx_compensation fee)
    ok (a', p.0, p.1)

module _ {ℓ κ μ} {F : Type ℓ} {U : Type κ} {M : Type μ} (h : Hasher F U) where
  -- `BaseCommitmentHashingAccount::setup`.
  unfoldable pub setup_base :
      (U → U)
      → (List ℕ → Option F)
      → BaseCommitmentHashingAccount F U M
      → BaseCommitmentHashRequest U
      → M
      → U
      → Result ProgramError (BaseCommitmentHashingAccount F U M)
  setup_base reduce from_repr a request metadata fee_payer = do
    value ← unwrap (
        from_repr (
          request.amount
          ∷ add_u64 request.token_id (request.recent_commitment_index * 2 ^ 16)
          ∷ 0
          ∷ 0
          ∷ []))
    ok (record {
      instruction = 0;
      round = 0;
      fee_version = request.fee_version;
      fee_payer = fee_payer;
      is_active = true;
      token_id = request.token_id;
      state = new_state h (h.to_fr (reduce request.base_commitment)) value false;
      min_batching_rate = request.min_batching_rate;
      metadata = metadata;
    })

  unfoldable pub compute_base_commitment_hash_partial :
      BaseCommitmentHashingAccount F U M → Result ProgramError (BaseCommitmentHashingAccount F U M)
  unfolding base_rounds base_commitment_hash_computation
  compute_base_commitment_hash_partial a = do
    computation ← base_commitment_hash_computation
    guard (ltb a.instruction (length computation.instructions))
        (from_elusiv computation_is_already_finished)
    rounds ← read computation.instructions a.instruction
    let end = add_u32 a.round rounds
    state ← base_rounds h computation.total_rounds (end - a.round) a.round a.state
    ok (record a { state = state; instruction = add_u32 a.instruction 1; round = end })

  unfoldable pub compute_base_commitment_hash :
      BaseCommitmentHashingAccount F U M → Result ProgramError (BaseCommitmentHashingAccount F U M)
  unfolding compute_base_commitment_hash_partial
  compute_base_commitment_hash a = do
    guard a.is_active (from_elusiv computation_is_not_yet_started)
    compute_base_commitment_hash_partial a

-- What finalize_base_commitment_hash updates; the fee payer is given by its key and its lamports.
pub record BaseFinalization {ℓ κ μ} (F : Type ℓ) (U : Type κ) (M : Type μ) : Type (ℓ ⊔ κ ⊔ μ) where
  pub accounts : BatchAccounts F U M
  pub base_account : BaseCommitmentHashingAccount F U M
  pub base_account_lamports : ℕ
  pub pool_lamports : ℕ
  pub fee_payer_lamports : ℕ

module _ {ℓ κ μ} {F : Type ℓ} {U : Type κ} {M : Type μ} (h : Hasher F U)
    (same_key : U → U → Bool) where
  unfoldable pub finalize_base_commitment_hash :
      ProgramFee → ℕ → U → BaseFinalization F U M → ℕ → Result ProgramError (BaseFinalization F U M)
  unfolding base_commitment_hash_computation base_commitment_hash_computation_fee
      transfer_lamports_from_pda transfer_lamports_from_pda_checked enqueue_commitment
  finalize_base_commitment_hash fee rent_lamports original_fee_payer s fee_version = do
    guard (s.base_account.fee_version == fee_version) (from_elusiv invalid_fee_version)
    guard s.base_account.is_active (from_elusiv computation_is_not_yet_started)
    guard (same_key s.base_account.fee_payer original_fee_payer) (from_elusiv invalid_account)
    computation ← base_commitment_hash_computation
    guard (s.base_account.instruction == length computation.instructions)
        (from_elusiv computation_is_not_yet_finished)
    compensation ← base_commitment_hash_computation_fee fee
    paid ←
        transfer_lamports_from_pda_checked rent_lamports s.pool_lamports s.fee_payer_lamports
          compensation
    let out =
        enqueue_commitment (h.to_u256 (result h s.base_account.state)) s.base_account.metadata
          fee_version s.base_account.min_batching_rate s.accounts
    done ← out.1
    closed ← transfer_lamports_from_pda s.base_account_lamports paid.1 s.base_account_lamports
    ok (record {
      accounts = out.0;
      base_account = record (s.base_account) { is_active = false };
      base_account_lamports = closed.0;
      pool_lamports = paid.0;
      fee_payer_lamports = closed.1;
    })
