-- ===== src/Commitment/Batch/Tests.antt =====
-- A queue of one request, and the witnesses of the properties of the queues and of the finalization that
-- enqueues the hash of a base commitment.
use elusiv.Base.{
  ◌==◌, replicate, length-replicate, from_elusiv, queue_is_full, ProgramError, Result, ok, err, ℕ,
  ◌≡◌, refl, ◌≢◌, ◌⊎◌, true, false, Option, some, List, [], ◌∷◌, arith,
}
use elusiv.Queue.{remove, dequeue_first, RingQueue, view, len, clear}
use elusiv.Queue.Slots.{Represents, pushed, pushed-Represents}
use elusiv.Queue.Refine.{clear-Represents}
use elusiv.Storage.{write_child, write_place}
use elusiv.Commitment.Account.{reset, next_hashing_state, index_below_from}
use elusiv.Metadata.{add_commitment_metadata}
use elusiv.Storage.{mt_commitment_count}
use elusiv.Commitment.Taken.{IsBatchTaken, init_commitment_hash-IsBatchTaken}
use elusiv.Poseidon.{Hasher}
use elusiv.Commitment.Batch.{
  CommitmentHashRequest, commitment_queue_len, commitment_queue_capacity, batch_step, batch_loop,
  next_batch,
}
use elusiv.Commitment.Batch.Prefix.{IsBatch}
use elusiv.Commitment.Batch.Next.{next_batch_lem}
use elusiv.Commitment.Processor.{
  BatchAccounts, move_metadata, padded, init_commitment_hash_inner, enqueue_commitment,
  init_commitment_hash,
}
use elusiv.Commitment.Queues.{Hold, enqueue_commitment_lem}
use elusiv.Fee.{ProgramFee, base_commitment_hash_computation_fee}
use elusiv.Commitment.BaseHashing.{BaseFinalization, finalize_base_commitment_hash}
use elusiv.Commitment.BaseHashing.Closing.{IsClosed, finalize_base_commitment_hash-IsClosed}

abbrev empty_queue {ℓ} : {N : Type ℓ} → N → RingQueue N
empty_queue x = record { head = 0; tail = 0; raw_data = replicate commitment_queue_len x }

empty_Represents {ℓ} :
    {N : Type ℓ} (x : N) → Represents commitment_queue_capacity (empty_queue x) []
unfolding clear
empty_Represents x = clear-Represents commitment_queue_capacity (empty_queue x) (record {
  positive = omega arith;
  small = omega arith;
  storage = length-replicate commitment_queue_len x;
  head_in = omega arith;
  tail_in = omega arith;
})

room {ℓ} :
    {N : Type ℓ} (x : N) → len commitment_queue_capacity (empty_queue x) ≢ commitment_queue_capacity
unfolding len
room x e = absurd (omega arith)

abbrev request : CommitmentHashRequest ℕ
request = record { commitment = 5; fee_version = 7; min_batching_rate = 0 }

abbrev one_request : RingQueue (CommitmentHashRequest ℕ)
one_request = pushed commitment_queue_capacity (empty_queue request) request

one_request_test : Represents commitment_queue_capacity one_request (request ∷ [])
one_request_test =
    pushed-Represents commitment_queue_capacity (empty_queue request) request []
      (empty_Represents request) (room request)

next_batch_example :
    (o : Result ProgramError (List (CommitmentHashRequest ℕ) × ℕ)) × (next_batch
        commitment_queue_capacity one_request
      ≡ some o)
    × ((batch : List (CommitmentHashRequest ℕ)) (rate : ℕ)
        → o ≡ ok (batch, rate)
        → IsBatch (request ∷ []) batch rate)
next_batch_example =
    next_batch_lem commitment_queue_capacity one_request (request ∷ []) one_request_test

-- The accounts when the tree has no place left.
abbrev accounts : BatchAccounts ℕ ℕ ℕ
accounts = record {
  commitment_queue = one_request;
  metadata_queue = pushed commitment_queue_capacity (empty_queue 0) 3;
  hashing_account = record {
    instruction = 0;
    round = 0;
    fee_version = 0;
    is_active = false;
    is_setup = true;
    finalization_ix = 0;
    batching_rate = 0;
    state = record { s0 = 0; s1 = 0; s2 = 0 };
    ordering = mt_commitment_count;
    siblings = replicate 20 9;
    above_hashes = replicate 20 0;
    hash_tree = replicate 31 0;
  };
  metadata_account = record { children = some (0 ∷ 0 ∷ []) ∷ []; next_metadata_ptr = 0 };
}

abbrev hasher : Hasher ℕ ℕ
hasher = record { zero_fr = 0; to_fr = λ x. x; to_u256 = λ x. x; hash_round = λ r s. s }

abbrev children : ℕ → ℕ → List (Option (List ℕ))
children n size = replicate n (some (replicate size 0))

abbrev full_accounts : BatchAccounts ℕ ℕ ℕ
full_accounts = record accounts {
  metadata_account = record {
    children = children 16 65_536;
    next_metadata_ptr = mt_commitment_count;
  };
}

abbrev idle_accounts : BatchAccounts ℕ ℕ ℕ
idle_accounts = record accounts {
  hashing_account = record (accounts.hashing_account) { ordering = 0 };
  metadata_account = record { children = some (0 ∷ 0 ∷ []) ∷ []; next_metadata_ptr = 0 };
}

abbrev begun_accounts : BatchAccounts ℕ ℕ ℕ
unfolding init_commitment_hash
begun_accounts = (init_commitment_hash hasher 0 false idle_accounts).0

begun_test : init_commitment_hash hasher 0 false idle_accounts ≡ (begun_accounts, ok tt)
unfolding init_commitment_hash init_commitment_hash_inner next_batch batch_loop batch_step view len
    remove move_metadata dequeue_first add_commitment_metadata write_child write_place padded reset
    next_hashing_state index_below_from begun_accounts
begun_test = refl

init_commitment_hash-IsBatchTaken_example :
    IsBatchTaken hasher 0 (request ∷ []) (3 ∷ []) idle_accounts begun_accounts
init_commitment_hash-IsBatchTaken_example =
    init_commitment_hash-IsBatchTaken hasher 0 idle_accounts begun_accounts (request ∷ []) (3 ∷ [])
      (record {
        commitments = one_request_test;
        metadata =
            pushed-Represents commitment_queue_capacity (empty_queue 0) 3 [] (empty_Represents 0)
              (room 0);
      })
      begun_test

abbrev no_accounts : BatchAccounts ℕ ℕ ℕ
no_accounts = record accounts {
  commitment_queue = empty_queue request;
  metadata_queue = empty_queue 0;
}

enqueue_commitment_example :
    (let out = enqueue_commitment 5 3 7 0 no_accounts in
      ((0 ≡ commitment_queue_capacity)
        × (out.1 ≡ err (from_elusiv queue_is_full))
        × Hold out.0 [] [])
      ⊎ ((out.1 ≡ ok tt) × Hold out.0 (request ∷ []) (3 ∷ [])))
enqueue_commitment_example =
    enqueue_commitment_lem no_accounts [] [] 5 3 7 0
      (record { commitments = empty_Represents request; metadata = empty_Represents 0 }) refl

abbrev finished : BaseFinalization ℕ ℕ ℕ
finished = record {
  accounts = no_accounts;
  base_account = record {
    instruction = 2;
    round = 65;
    fee_version = 2;
    fee_payer = 8;
    is_active = true;
    token_id = 1;
    state = record { s0 = 33; s1 = 5; s2 = 7 };
    min_batching_rate = 1;
    metadata = 9;
  };
  base_account_lamports = 1_000;
  pool_lamports = 100_000;
  fee_payer_lamports = 20;
}

abbrev fees : ProgramFee
fees = record {
  lamports_per_tx = 5_000;
  base_commitment_network_fee = 0;
  proof_network_fee = 0;
  base_commitment_subvention = 0;
  proof_subvention = 0;
  warden_hash_tx_reward = 100;
  warden_proof_reward = 0;
  proof_base_tx_count = 5;
}

abbrev closed : BaseFinalization ℕ ℕ ℕ
unfolding enqueue_commitment
closed = record {
  accounts = (enqueue_commitment 33 9 2 1 no_accounts).0;
  base_account = record (finished.base_account) { is_active = false };
  base_account_lamports = 0;
  pool_lamports = 84_800;
  fee_payer_lamports = 16_220;
}

closed_test :
    finalize_base_commitment_hash hasher (λ x y. x == y) fees 50_000 8 finished 2 ≡ ok closed
unfolding finalize_base_commitment_hash enqueue_commitment
closed_test = refl

finalize_base_commitment_hash-IsClosed_example :
    (compensation : ℕ) × (base_commitment_hash_computation_fee fees ≡ ok compensation)
    × (finished.base_account.fee_version ≡ 2)
    × ((finished.base_account.fee_payer == 8) ≡ true)
    × IsClosed hasher (λ x y. x == y) finished closed 50_000 2 compensation
finalize_base_commitment_hash-IsClosed_example =
    finalize_base_commitment_hash-IsClosed hasher (λ x y. x == y) fees 50_000 8 finished closed 2
      closed_test
