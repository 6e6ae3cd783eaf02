-- ===== src/Proof.antt =====
-- elusiv/src/state/proof.rs and elusiv/src/types.rs: the account of a proof verification and the request
-- that it verifies. A value of 32 bytes is the number that its bytes hold; `RawU256` is its number, and the
-- Montgomery reduction of it, which the curve's library computes, is the parameter `reduce`.
pub mod Preparation
pub mod Verifier
pub mod Inputs
pub mod Sysvar
pub mod Check
pub mod Setup
pub mod Finalize
pub mod Payout
pub mod Fees
pub mod Machine
pub mod Samples
mod Tests
use elusiv.Base.{add_u64, ℕ, zero, suc, ◌*◌, ◌/◌, ◌%◌, Bool, Option, List, [], ◌∷◌}

pub record InputCommitment : Type 0 where
  pub root : Option ℕ
  pub nullifier_hash : ℕ

pub record OptionalFee : Type 0 where
  pub collector : ℕ
  pub amount : ℕ

-- `metadata` is a list of 17 bytes.
pub record JoinSplitPublicInputs : Type 0 where
  pub input_commitments : List InputCommitment
  pub output_commitment : ℕ
  pub recent_commitment_index : ℕ
  pub fee_version : ℕ
  pub amount : ℕ
  pub fee : ℕ
  pub optional_fee : OptionalFee
  pub token_id : ℕ
  pub metadata : List ℕ

pub record SendPublicInputs : Type 0 where
  pub join_split : JoinSplitPublicInputs
  pub recipient_is_associated_token_account : Bool
  pub solana_pay_transfer : Bool
  pub hashed_inputs : ℕ

pub record MigratePublicInputs : Type 0 where
  pub join_split : JoinSplitPublicInputs
  pub current_nsmt_root : ℕ
  pub next_nsmt_root : ℕ

pub data ProofRequest : Type 0 where
  send : SendPublicInputs → ProofRequest
  migrate : MigratePublicInputs → ProofRequest

-- The `VerifyingKeyInfo` of the two circuits: the id and the count of the public inputs.
abbrev pub send_quadra_vkey : ℕ × ℕ
send_quadra_vkey = (0, 14)

abbrev pub migrate_unary_vkey : ℕ × ℕ
migrate_unary_vkey = (1, 7)

abbrev pub join_split_inputs : ProofRequest → JoinSplitPublicInputs
join_split_inputs (send p) = p.join_split
join_split_inputs (migrate p) = p.join_split

abbrev pub request_fee_version : ProofRequest → ℕ
request_fee_version r = (join_split_inputs r).fee_version

abbrev pub vkey_id_of : ProofRequest → ℕ
vkey_id_of (send p) = send_quadra_vkey.0
vkey_id_of (migrate p) = migrate_unary_vkey.0

abbrev pub proof_fee_amount : ProofRequest → ℕ
proof_fee_amount (send p) = p.join_split.amount
proof_fee_amount (migrate p) = 0

abbrev pub total_amount : JoinSplitPublicInputs → ℕ
total_amount j = add_u64 j.amount j.fee

-- `VerificationState`.
pub data VerificationState : Type 0 where
  initialized fee_transferred proof_setup : VerificationState
  insert_nullifiers finalized closed : VerificationState

pub data VerificationStep : Type 0 where
  public_input_preparation combined_miller_loop final_exponentiation : VerificationStep

-- The amounts are of the token, but for `commitment_hash_fee`, which is in lamports.
pub record VerificationAccountData : Type 0 where
  pub fee_payer : ℕ
  pub fee_payer_account : ℕ
  pub recipient_wallet : Option ℕ
  pub skip_nullifier_pda : Bool
  pub min_batching_rate : ℕ
  pub token_id : ℕ
  pub subvention : ℕ
  pub network_fee : ℕ
  pub commitment_hash_fee : ℕ
  pub commitment_hash_fee_token : ℕ
  pub proof_verification_fee : ℕ
  pub associated_token_account_rent : ℕ

-- `P` is the type of the proof's three points, `C` that of the computation's values.
pub record VerificationAccount (P C : Type 0) : Type 0 where
  pub instruction : ℕ
  pub round : ℕ
  pub prepare_inputs_instructions_count : ℕ
  pub prepare_inputs_instructions : List ℕ
  pub vkey_id : ℕ
  pub step : VerificationStep
  pub state : VerificationState
  pub public_input : List ℕ
  pub proof : P
  pub computation : C
  pub is_verified : Option Bool
  pub other_data : VerificationAccountData
  pub request : ProofRequest
  pub tree_indices : List ℕ

abbrev pub max_public_inputs_count : ℕ
max_public_inputs_count = 14

abbrev pub max_prepare_inputs_instructions : ℕ
max_prepare_inputs_instructions = max_public_inputs_count * 10

-- The 32 bytes of a number, the first byte being the lowest.
unfoldable pub le_bytes : ℕ → ℕ → List ℕ
le_bytes zero n = []
le_bytes (suc count) n = n % 256 ∷ le_bytes count (n / 256)
