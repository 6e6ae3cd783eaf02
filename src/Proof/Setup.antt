-- ===== src/Proof/Setup.antt =====
-- elusiv/src/state/proof.rs and processor/proof.rs: a verification account is opened and set up. The accounts
-- at derived addresses are maps from the address; the addresses themselves, the error of the system program
-- for an account that exists, and the Montgomery reduction are parameters.
use elusiv.Base.{
  leb, ◌==◌, if◌then◌else◌, length, replicate, ◌>>=◌, ◌>>◌, guard, from_elusiv,
  invalid_instruction_data, invalid_account, invalid_account_state, feature_not_available,
  invalid_public_inputs, computation_is_already_finished, ProgramError, invalid_seeds, Result, ok,
  err, panic, u16_mod, write_all, ℕ, ◌%◌, Bool, true, false, not, Option, none, some, List, [], ◌∷◌,
  map,
}
use elusiv.Buffer.{RingBuffer, try_insert}
use elusiv.Storage.{StorageAccount}
use elusiv.Nullifier.{NullifierAccount}
use elusiv.Warden.Registry.{open_account, with_account}
use elusiv.Commitment.Processor.{commitment_buffer_len}
use elusiv.Proof.{
  ProofRequest, send, migrate, vkey_id_of, join_split_inputs, VerificationAccount,
  VerificationAccountData, initialized, fee_transferred, proof_setup, public_input_preparation,
  max_public_inputs_count, max_prepare_inputs_instructions, le_bytes,
}
use elusiv.Proof.Preparation.{prepare_public_inputs_instructions}
use elusiv.Proof.Inputs.{public_signals, verify_send_constraints}
use elusiv.Proof.Check.{check_join_split_public_inputs}

-- `Default` of the data.
abbrev pub no_data : VerificationAccountData
no_data = record {
  fee_payer = 0;
  fee_payer_account = 0;
  recipient_wallet = none;
  skip_nullifier_pda = false;
  min_batching_rate = 0;
  token_id = 0;
  subvention = 0;
  network_fee = 0;
  commitment_hash_fee = 0;
  commitment_hash_fee_token = 0;
  proof_verification_fee = 0;
  associated_token_account_rent = 0;
}

abbrev pub reserved_verification_account_ids : ℕ
reserved_verification_account_ids = 128

module _ {P C : Type 0} where
  -- An account whose bytes are zero; `request` stands for what those bytes hold.
  abbrev pub zeroed_account : P → C → ProofRequest → VerificationAccount P C
  zeroed_account proof computation request = record {
    instruction = 0;
    round = 0;
    prepare_inputs_instructions_count = 0;
    prepare_inputs_instructions = replicate max_prepare_inputs_instructions 0;
    vkey_id = 0;
    step = public_input_preparation;
    state = initialized;
    public_input = replicate max_public_inputs_count 0;
    proof = proof;
    computation = computation;
    is_verified = none;
    other_data = no_data;
    request = request;
    tree_indices = 0 ∷ 0 ∷ [];
  }

  unfoldable pub setup_public_inputs_instructions :
      List ℕ → VerificationAccount P C → Result ProgramError (VerificationAccount P C)
  setup_public_inputs_instructions instructions s =
      if leb (length instructions) max_prepare_inputs_instructions
      then (write_all s.prepare_inputs_instructions 0 (map (λ i. i % u16_mod) instructions)
          >>= λ written. ok (record s {
            prepare_inputs_instructions_count = length instructions;
            prepare_inputs_instructions = written;
          }))
      else panic

  -- `VerificationAccount::setup`.
  unfoldable pub setup_verification :
      ℕ
      → Bool
      → List ℕ
      → List ℕ
      → ℕ
      → ProofRequest
      → List ℕ
      → VerificationAccount P C
      → Result ProgramError (VerificationAccount P C)
  unfolding setup_public_inputs_instructions
  setup_verification signer skip_nullifier_pda public_inputs instructions vkey_id request
        tree_indices s =
      do
        indices ← write_all s.tree_indices 0 tree_indices
        inputs ← write_all s.public_input 0 public_inputs
        s' ← setup_public_inputs_instructions instructions (record s {
          vkey_id = vkey_id;
          request = request;
          tree_indices = indices;
          public_input = inputs;
        })
        ok (record s' {
          other_data = record no_data {
            fee_payer = signer;
            skip_nullifier_pda = skip_nullifier_pda;
          };
        })

  unfoldable pub init_verification_proof :
      ℕ → P → VerificationAccount P C → Result ProgramError (VerificationAccount P C)
  init_verification_proof fee_payer proof s = do
    guard (elim s.state [ fee_transferred ↦ true | _ ↦ false ]) (from_elusiv invalid_account_state)
    guard (elim s.is_verified [ none ↦ true | some v ↦ false ])
        (from_elusiv computation_is_already_finished)
    guard (s.other_data.fee_payer == fee_payer) (from_elusiv invalid_account)
    ok (record s { proof = proof; state = proof_setup })

-- The accounts that the opening writes.
pub record Opening (P C : Type 0) : Type 0 where
  pub verification_accounts : ℕ → Option (VerificationAccount P C)
  pub duplicate_accounts : ℕ → Option (Unit {0})
  pub commitment_buffer : RingBuffer

-- What the opening knows of the chain.
pub record Addresses : Type 0 where
  pub account_in_use : ProgramError
  pub duplicate_address : List ℕ → ℕ
  pub verification_address : ℕ → ℕ → ℕ
  pub lamports : ℕ → ℕ

abbrev pub nullifier_hashes_of : ProofRequest → List ℕ
nullifier_hashes_of request =
    map (λ c. c.nullifier_hash) ((join_split_inputs request).input_commitments)

module _ {P C : Type 0} (reduce : ℕ → ℕ) (zero_commitment_raw : ℕ) (empty_tree : List ℕ)
    (addresses : Addresses) (zero_proof : P) (zero_computation : C) where
  -- `verify_additional_constraints`, and the request that is not supported.
  unfoldable pub accept_request : ProofRequest → Result ProgramError (Unit {0})
  unfolding verify_send_constraints
  accept_request (migrate p) = err (from_elusiv feature_not_available)
  accept_request (send p) = do
    valid ← verify_send_constraints p
    guard valid (from_elusiv invalid_public_inputs)

  unfoldable pub open_duplicate_account :
      Bool → ℕ → ProofRequest → Opening P C → Result ProgramError (Opening P C)
  unfolding open_account
  open_duplicate_account skip_nullifier_pda account request o =
      let address = addresses.duplicate_address (nullifier_hashes_of request) in
      if skip_nullifier_pda
      then (do
        guard (account == address) (from_elusiv invalid_account)
        guard (not (addresses.lamports account == 0)) (from_elusiv invalid_instruction_data)
        ok o)
      else (do
        guard (address == account) invalid_seeds
        opened ← open_account (addresses.account_in_use) o.duplicate_accounts address tt
        ok (record o { duplicate_accounts = opened }))

  -- `vkey_version` and `vkey_inputs` are read from the account of the verifying key.
  unfoldable pub init_verification :
      ℕ
      → ℕ
      → ℕ
      → ℕ
      → ℕ
      → StorageAccount ℕ
      → List NullifierAccount
      → ℕ
      → ℕ
      → List ℕ
      → ProofRequest
      → Bool
      → Opening P C
      → Result ProgramError (Opening P C)
  unfolding public_signals prepare_public_inputs_instructions le_bytes accept_request
      check_join_split_public_inputs open_duplicate_account open_account setup_verification
      with_account
  init_verification fee_payer verification_account vkey_version vkey_inputs
        nullifier_duplicate_account storage nullifier_accounts verification_account_index vkey_id
        tree_indices request skip_nullifier_pda o =
      do
        raw_public_inputs ← public_signals request
        guard (not (vkey_version == 0)) (from_elusiv invalid_account)
        guard (vkey_id == vkey_id_of request) (from_elusiv invalid_account)
        guard (leb verification_account_index reserved_verification_account_ids)
            (from_elusiv invalid_account)
        instructions ←
            prepare_public_inputs_instructions (map (le_bytes 32) raw_public_inputs) vkey_inputs
        accept_request request
        let j = join_split_inputs request
        check_join_split_public_inputs reduce zero_commitment_raw empty_tree j storage
            nullifier_accounts tree_indices
        o1 ← open_duplicate_account skip_nullifier_pda nullifier_duplicate_account request o
        let address = addresses.verification_address fee_payer verification_account_index
        guard (address == verification_account) invalid_seeds
        opened ←
            open_account (addresses.account_in_use) o1.verification_accounts address
              (zeroed_account zero_proof zero_computation request)
        let inserted =
            try_insert 32 commitment_buffer_len o1.commitment_buffer
              (le_bytes 32 (reduce j.output_commitment))
        inserted.1
        s ←
            setup_verification fee_payer skip_nullifier_pda raw_public_inputs instructions vkey_id
              request tree_indices (zeroed_account zero_proof zero_computation request)
        ok (record o1 {
          verification_accounts = with_account opened address s;
          commitment_buffer = inserted.0;
        })
