-- ===== src/Proof/Samples.antt =====
-- A request, its verification and a transaction, for the tests.
use elusiv.Base.{
  ◌==◌, length, get_elem?, replicate, get_elem?_out, ok_or, ProgramError, invalid_argument, Result,
  ok, err, ℕ, ◌+◌, refl, false, none, some, List, [], ◌∷◌,
}
use elusiv.Map.{ElusivMap}
use elusiv.Transfers.{Ledger, Environment}
use elusiv.Nullifier.{NullifierAccount}
use elusiv.Proof.{JoinSplitPublicInputs, SendPublicInputs, send}
use elusiv.Proof.Preparation.{Curve}
use elusiv.Proof.Verifier.{Verification, Pairing, GrothProof, Computation}
use elusiv.Proof.Sysvar.{Instruction, InstructionsSysvar}
use elusiv.Proof.Setup.{zeroed_account}

abbrev pub one_input : JoinSplitPublicInputs
one_input = record {
  input_commitments = record { root = some 9; nullifier_hash = 5 } ∷ [];
  output_commitment = 3;
  recent_commitment_index = 0;
  fee_version = 0;
  amount = 100;
  fee = 30;
  optional_fee = record { collector = 6; amount = 10 };
  token_id = 0;
  metadata = replicate 17 0;
}

abbrev pub sent_inputs : SendPublicInputs
sent_inputs = record {
  join_split = one_input;
  recipient_is_associated_token_account = false;
  solana_pay_transfer = false;
  hashed_inputs = 0;
}

-- Every element of the groups and fields is a number.
abbrev pub Sample : Type 0
Sample = Verification ℕ ℕ ℕ ℕ ℕ (Unit {0})

abbrev no_proof : GrothProof ℕ ℕ
no_proof = record { a = 0; b = 0; c = 0 }

abbrev no_computation : Computation ℕ ℕ ℕ ℕ ℕ (Unit {0})
no_computation = record {
  ram_fq = [];
  rams = tt;
  prepared_inputs = 0;
  r = 0;
  f = 0;
  alt_b = 0;
  coeff_index = 0;
}

abbrev pub curve : Curve ℕ ℕ
curve = record {
  zero_point = record { x = 0; y = 0; z = 0 };
  add_mixed = λ p a. record p { x = p.x + a };
  add_points = λ p q. record p { x = p.x + q.x };
  into_affine = λ p. p.x;
}

abbrev pub pairing : Pairing ℕ ℕ ℕ ℕ ℕ (Unit {0})
pairing = record {
  miller_instructions = [];
  miller_total_rounds = 0;
  miller_round = λ proof inputs round m. ok (m, none);
  exponentiation_instructions = [];
  exponentiation_total_rounds = 0;
  exponentiation_round = λ f round rams. (rams, ok none);
  alpha_beta = 0;
  eq_fq12 = ◌==◌;
}

abbrev pub verification : Sample
verification = zeroed_account no_proof no_computation (send sent_inputs)

abbrev pub no_hashes : ElusivMap (Unit {0})
no_hashes = record {
  len = 0;
  min_ptr = 0;
  max_ptr = 0;
  mid_ptr = replicate 15 0;
  next = 0 ∷ 0 ∷ [];
  prev = 0 ∷ 0 ∷ [];
  keys = 0 ∷ 0 ∷ [];
  values = tt ∷ tt ∷ [];
}

abbrev pub nullifiers : NullifierAccount
nullifiers = record {
  children = some no_hashes ∷ [];
  root = 0;
  nullifier_hash_count = 0;
  max_values = none ∷ [];
  moved_values_count = 0;
  moved_values = replicate 4 0;
  moved_values_target = replicate 4 0;
}

abbrev pub nullifiers_after : NullifierAccount
nullifiers_after = record nullifiers {
  children = some (record no_hashes { len = 1; keys = 5 ∷ 0 ∷ [] }) ∷ [];
  nullifier_hash_count = 1;
  max_values = some 5 ∷ [];
}

abbrev instruction_of : List Instruction → ℕ → Result ProgramError Instruction
instruction_of instructions i = ok_or (get_elem? instructions i) invalid_argument

-- A transaction of these instructions, that runs the first one.
abbrev pub transaction : List Instruction → InstructionsSysvar
transaction instructions = record {
  current_index = ok 0;
  instruction_at_index = instruction_of instructions;
  count = length instructions;
  past_end = λ i out. let e = get_elem?_out instructions i out in (invalid_argument, rw e refl);
}

abbrev instruction : ℕ → Instruction
instruction tag = record { program_id = 7; accounts = []; bytes = tag ∷ 0 ∷ [] }

abbrev pub finalization : InstructionsSysvar
finalization = transaction (instruction 11 ∷ instruction 12 ∷ instruction 13 ∷ [])

-- The owner of every account is 7, the program; the programs that are invoked change nothing.
abbrev pub environment : Environment (Unit {0})
environment = record {
  program_id = 7;
  spl_token_id = 8;
  system_program_id = 0;
  tokens_table = [];
  minimum_balance = λ len. ok 1;
  spl_account_len = 165;
  invoke = λ i l. ok l;
  associated_token_address = λ wallet mint. wallet;
  mint_of = λ l account. ok 0;
  price = λ sol token id. err invalid_argument;
}

abbrev pub ledger : Ledger (Unit {0})
ledger = record { lamports = λ key. 1000; owner = λ key. 7; data_len = λ key. 0; tokens = tt }
