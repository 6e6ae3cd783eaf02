-- ===== src/Proof/Payout/Tests.antt =====
-- A send of lamports that is paid out.
use elusiv.Base.{
  replicate, invalid_argument, ok, err, ℕ, ◌≡◌, refl, true, false, some, List, [], ◌∷◌, arith,
}
use elusiv.Queue.{RingQueue, enqueue}
use elusiv.Token.{add_lamports}
use elusiv.Transfers.{
  with_value, transfer_lamports_from_pda_checked, transfer_lamports_from_pda, close_account,
}
use elusiv.Transfers.Drawn.{IsDrawn}
use elusiv.Commitment.Processor.{BatchAccounts, enqueue_commitment}
use elusiv.Commitment.Batch.{CommitmentHashRequest}
use elusiv.Proof.{ProofRequest, send, finalized, closed}
use elusiv.Proof.Payout.{
  PayoutAccounts, TransferInstructions, Payout, collect_lamports, pay_amount, pay_optional_fee,
  pay_recipient_lamports, pay_request_lamports, pay_lamports_out, enqueue_output,
  close_verification_pdas, finalize_verification_transfer_lamports,
}
use elusiv.Proof.Payout.Pool.{IsApart, sent}
use elusiv.Proof.Payout.Solvency.{due, finalize_verification_transfer_lamports-IsDrawn}
use elusiv.Proof.Verifier.{GrothProof, Computation}
use elusiv.Proof.Samples.{sent_inputs, Sample, verification, environment, ledger, finalization}

abbrev accounts : PayoutAccounts
accounts = record {
  original_fee_payer = 1;
  original_fee_payer_account = 1;
  recipient = 2;
  recipient_wallet = 2;
  pool = 4;
  pool_account = 4;
  fee_collector = 5;
  fee_collector_account = 5;
  optional_fee_collector = 6;
  verification_account = 8;
  nullifier_duplicate_account = 9;
  token_program = 0;
  mint_account = 0;
}

abbrev instructions : TransferInstructions
instructions = record {
  of_lamports = λ source destination lamports. record { program_id = 0; accounts = []; bytes = [] };
  of_tokens = λ program source destination authority amount. err invalid_argument;
}

abbrev due_verification : Sample
due_verification = record verification {
  state = finalized;
  is_verified = some true;
  other_data = record (verification.other_data) {
    fee_payer = 1;
    recipient_wallet = some 2;
    subvention = 2;
    network_fee = 1;
    commitment_hash_fee = 24;
    commitment_hash_fee_token = 24;
    proof_verification_fee = 4;
  };
}

abbrev one_place : RingQueue (CommitmentHashRequest ℕ)
one_place = record {
  head = 0;
  tail = 0;
  raw_data = record { commitment = 0; fee_version = 0; min_batching_rate = 0 } ∷ [];
}

abbrev queues : BatchAccounts ℕ ℕ (List ℕ)
queues = record {
  commitment_queue = one_place;
  metadata_queue = record { head = 0; tail = 0; raw_data = [] ∷ [] };
  hashing_account = record {
    instruction = 0;
    round = 0;
    fee_version = 0;
    is_active = false;
    is_setup = false;
    finalization_ix = 0;
    batching_rate = 0;
    state = record { s0 = 0; s1 = 0; s2 = 0 };
    ordering = 0;
    siblings = [];
    above_hashes = [];
    hash_tree = [];
  };
  metadata_account = record { children = []; next_metadata_ptr = 0 };
}

abbrev before : Payout (Unit {0}) ℕ (GrothProof ℕ ℕ) (Computation ℕ ℕ ℕ ℕ ℕ (Unit {0}))
before = record { ledger = ledger; verification = due_verification; queues = queues }

-- What the two accounts have after a transfer.
abbrev moved : ℕ → ℕ → ℕ → ℕ → (ℕ → ℕ) → ℕ → ℕ
moved source left destination reached lamports =
    with_value (with_value lamports source left) destination reached

abbrev after : Payout (Unit {0}) ℕ (GrothProof ℕ ℕ) (Computation ℕ ℕ ℕ ℕ ℕ (Unit {0}))
after = record {
  ledger = record ledger {
    lamports = moved 9 0 1 3028 (
        moved 8 0 1 2028 (
          moved 4 871 5 1001
            (moved 4 872 1 1028 (moved 4 900 6 1010 (moved 4 910 2 1090 (ledger.lamports))))));
  };
  verification = record due_verification { state = closed };
  queues = record queues {
    commitment_queue = record one_place {
      tail = 1;
      raw_data = record { commitment = 3; fee_version = 0; min_batching_rate = 0 } ∷ [];
    };
    metadata_queue = record { head = 0; tail = 1; raw_data = replicate 17 0 ∷ [] };
  };
}

payout_test :
    finalize_verification_transfer_lamports environment finalization
      (λ hashes. 9)
      instructions
      accounts
      (λ x. x)
      before
    ≡ ok after
unfolding finalize_verification_transfer_lamports collect_lamports pay_lamports_out
    pay_request_lamports pay_recipient_lamports pay_amount pay_optional_fee
    transfer_lamports_from_pda_checked transfer_lamports_from_pda close_verification_pdas
    close_account add_lamports enqueue_output enqueue_commitment enqueue
payout_test = refl

apart : IsApart accounts
apart = record {
  of_fee_payer = λ e. absurd (omega (arith, e));
  of_recipient = λ e. absurd (omega (arith, e));
  of_fee_collector = λ e. absurd (omega (arith, e));
  of_optional_fee_collector = λ e. absurd (omega (arith, e));
  of_verification_account = λ e. absurd (omega (arith, e));
  of_duplicate_account = λ e. absurd (omega (arith, e));
}

finalize_verification_transfer_lamports-IsDrawn_example :
    IsDrawn 4 ledger (after.ledger) (due due_verification)
finalize_verification_transfer_lamports-IsDrawn_example =
    finalize_verification_transfer_lamports-IsDrawn environment finalization (λ hashes. 9)
      instructions accounts (λ x. x) before after apart payout_test

drawn_test : due due_verification ≡ 129
unfolding sent
drawn_test = refl

-- With `solana_pay_transfer` the pool pays the optional fee of 10 on top of the amount of 100.
abbrev solana_pay_request : ProofRequest
solana_pay_request = send (record sent_inputs { solana_pay_transfer = true })

solana_pay_test : sent solana_pay_request ≡ 110
unfolding sent
solana_pay_test = refl
