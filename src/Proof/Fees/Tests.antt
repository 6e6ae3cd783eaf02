-- ===== src/Proof/Fees/Tests.antt =====
-- The fees of a send of lamports.
use elusiv.Base.{ok, ◌≡◌, refl}
use elusiv.Token.{new, add, sub, amount, enforce_token_equality, token_id, new_spl, add_lamports}
use elusiv.Fee.{
  GovernorAccount, calc, proof_verification_computation_fee, commitment_hash_computation_fee,
}
use elusiv.Bytes.{div_ceiling}
use elusiv.Computation.{
  hash_compute_units, hash_round_costs, compute_unit_optimization, optimize, optimize_round, finish,
}
use elusiv.Commitment.{
  batch_hash_count, commitment_hash_computation, commitment_hash_computation_instructions,
}
use elusiv.Transfers.{
  Ledger, with_value, transfer_token, transfer_with_system_program, transfer_token_from_pda,
  transfer_amount_from_pda, transfer_lamports_from_pda_checked, transfer_lamports_from_pda,
  verify_program_token_account, verify_token_account, new_token_price, lamports_into_token,
}
use elusiv.Proof.{join_split_inputs, fee_transferred}
use elusiv.Proof.Fees.{
  FeeAccounts, into_token, verification_fees, recipient_rent, transfer_fees,
  init_verification_transfer_fee,
}
use elusiv.Proof.Fees.Covered.{IsCovered, init_verification_transfer_fee-IsCovered}
use elusiv.Proof.Samples.{Sample, verification, environment, ledger}

abbrev governor : GovernorAccount
governor = record {
  fee_version = 0;
  program_fee = record {
    lamports_per_tx = 1;
    base_commitment_network_fee = 0;
    proof_network_fee = 100;
    base_commitment_subvention = 0;
    proof_subvention = 2;
    warden_hash_tx_reward = 0;
    warden_proof_reward = 1;
    proof_base_tx_count = 3;
  };
  commitment_batching_rate = 0;
  program_version = 0;
}

-- The fee payer 1, the pool 4 and the fee collector 5; the system program is 0.
abbrev accounts : FeeAccounts
accounts = record {
  fee_payer = 1;
  fee_payer_token_account = 1;
  pool = 4;
  pool_account = 4;
  fee_collector = 5;
  fee_collector_account = 5;
  sol_usd_price_account = 0;
  token_usd_price_account = 0;
  token_program = 0;
  system_program = 0;
}

abbrev started : Sample
started = record verification { other_data = record (verification.other_data) { fee_payer = 1 } }

abbrev charged : Sample
charged = record started {
  other_data = record (started.other_data) {
    fee_payer_account = 1;
    subvention = 2;
    network_fee = 1;
    commitment_hash_fee = 24;
    commitment_hash_fee_token = 24;
    proof_verification_fee = 4;
  };
  state = fee_transferred;
}

abbrev charged_ledger : Ledger (Unit {0})
charged_ledger = record ledger { lamports = with_value (with_value (ledger.lamports) 5 998) 4 1002 }

charge_test :
    init_verification_transfer_fee environment accounts governor started ledger
    ≡ ok (charged, charged_ledger)
unfolding init_verification_transfer_fee new_token_price verification_fees into_token
    lamports_into_token proof_verification_computation_fee commitment_hash_computation_fee
    commitment_hash_computation_instructions commitment_hash_computation batch_hash_count
    hash_compute_units hash_round_costs compute_unit_optimization optimize optimize_round finish
    div_ceiling calc new new_spl add sub enforce_token_equality token_id amount
    verify_program_token_account recipient_rent transfer_fees transfer_token
    transfer_with_system_program transfer_token_from_pda transfer_amount_from_pda
    transfer_lamports_from_pda_checked transfer_lamports_from_pda verify_token_account add_lamports
charge_test = refl

init_verification_transfer_fee-IsCovered_example :
    IsCovered (join_split_inputs (charged.request)) (charged.other_data)
init_verification_transfer_fee-IsCovered_example =
    init_verification_transfer_fee-IsCovered environment accounts governor started charged ledger
      charged_ledger charge_test
