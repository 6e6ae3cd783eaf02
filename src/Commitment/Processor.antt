-- ===== src/Commitment/Processor.antt =====
-- elusiv/src/processor/commitment.rs: the steps by which a commitment gets from the queue into the hashing
-- account. An error leaves the accounts as the code has left them, since
-- with `insertion_can_fail` the handlers return normally after it.
use elusiv.Base.{
  ltb, leb, if◌then◌else◌, length, get_elem?, guard, unwrap, from_elusiv, no_room_for_commitment,
  computation_is_not_yet_finished, ProgramError, ok, err, panic, sub_u32, ℕ, zero, suc, ◌+◌, Bool,
  not, ◌&&◌, List, [], ◌∷◌,
}
use elusiv.Base.Action.{Action, ◌>>=◌, ◌>>◌, lift, zoom, update, current}
use elusiv.Queue.{RingQueue, enqueue, remove, dequeue_first}
use elusiv.Metadata.{MetadataAccount, add_commitment_metadata}
use elusiv.Storage.{StorageAccount, get_mt_opening, mt_commitment_count}
use elusiv.Poseidon.{Hasher}
use elusiv.Commitment.{max_ht_commitments}
use elusiv.Commitment.Account.{CommitmentHashingAccount, setup, reset}
use elusiv.Commitment.Batch.{CommitmentHashRequest, commitment_queue_capacity, next_batch}

abbrev pub commitment_buffer_len : ℕ
commitment_buffer_len = 128

unfoldable pub verify_recent_commitment_index {κ} : {U : Type κ} → ℕ → StorageAccount U → Bool
verify_recent_commitment_index recent_commitment_index s =
    leb recent_commitment_index s.next_commitment_ptr
    && ltb (sub_u32 s.next_commitment_ptr recent_commitment_index) commitment_buffer_len

-- The accounts that the handlers update; a request's commitment is an element of `U`, its metadata one
-- of `M`.
pub record BatchAccounts {ℓ κ μ} (F : Type ℓ) (U : Type κ) (M : Type μ) : Type (ℓ ⊔ κ ⊔ μ) where
  pub commitment_queue : RingQueue (CommitmentHashRequest U)
  pub metadata_queue : RingQueue M
  pub hashing_account : CommitmentHashingAccount F U
  pub metadata_account : MetadataAccount M

-- The match on the result, for an instruction whose error may be passed over.
abbrev pub pass_over {ℓ} :
    {S : Type ℓ} → Bool → Action S ProgramError (Unit {0}) → Action S ProgramError (Unit {0})
pass_over insertion_can_fail m s =
    let (s', r) = m s in
    elim r [
      | ok u ↦ (s', ok u)
      | err e ↦ (s', if insertion_can_fail then ok tt else err e)
      | panic ↦ (s', panic)
    ]

module _ {ℓ κ μ} {F : Type ℓ} {U : Type κ} {M : Type μ} where
  abbrev pub on_commitments {ν} :
      {A : Type ν}
      → Action (RingQueue (CommitmentHashRequest U)) ProgramError A
      → Action (BatchAccounts F U M) ProgramError A
  on_commitments = zoom (λ s. s.commitment_queue) (λ q s. record s { commitment_queue = q })

  abbrev pub on_metadata {ν} :
      {A : Type ν}
      → Action (RingQueue M) ProgramError A
      → Action (BatchAccounts F U M) ProgramError A
  on_metadata = zoom (λ s. s.metadata_queue) (λ q s. record s { metadata_queue = q })

  unfoldable pub enqueue_commitment :
      U → M → ℕ → ℕ → Action (BatchAccounts F U M) ProgramError (Unit {0})
  unfolding enqueue
  enqueue_commitment commitment metadata fee_version min_batching_rate = do
    on_commitments (λ q. enqueue commitment_queue_capacity q (record {
      commitment = commitment;
      fee_version = fee_version;
      min_batching_rate = min_batching_rate;
    }))
    on_metadata (λ q. enqueue commitment_queue_capacity q metadata)

  -- The loop that moves `count` metadata from the queue to the account.
  unfoldable pub move_metadata : ℕ → Action (BatchAccounts F U M) ProgramError (Unit {0})
  unfolding dequeue_first add_commitment_metadata
  move_metadata zero = lift (ok tt)
  move_metadata (suc count) = do
    metadata ← on_metadata (dequeue_first commitment_queue_capacity)
    zoom (λ s. s.metadata_account) (λ m s. record s { metadata_account = m })
        (update (λ m. add_commitment_metadata m metadata))
    move_metadata count

-- The first `length requests` places are the commitments of the requests, the others zero bytes.
unfoldable pub padded {κ} : {U : Type κ} → U → ℕ → List (CommitmentHashRequest U) → List U
padded zero_bytes zero requests = []
padded zero_bytes (suc n) [] = zero_bytes ∷ padded zero_bytes n []
padded zero_bytes (suc n) (r ∷ rs) = r.commitment ∷ padded zero_bytes n rs

module _ {ℓ κ μ} {F : Type ℓ} {U : Type κ} {M : Type μ} (h : Hasher F U) (zero_bytes : U) where
  unfoldable pub init_commitment_hash_inner : Action (BatchAccounts F U M) ProgramError (Unit {0})
  unfolding next_batch remove move_metadata padded reset
  init_commitment_hash_inner = do
    s ← current
    lift (guard (not s.hashing_account.is_active) (from_elusiv computation_is_not_yet_finished))
    lift (guard s.hashing_account.is_setup (from_elusiv computation_is_not_yet_finished))
    found ← lift (unwrap (next_batch commitment_queue_capacity s.commitment_queue))
    (batch, batching_rate) ← lift found
    on_commitments (λ q. remove commitment_queue_capacity q (length batch))
    move_metadata (length batch)
    first ← lift (unwrap (get_elem? batch 0))
    lift (
        guard (leb (s.hashing_account.ordering + length batch) mt_commitment_count)
          (from_elusiv no_room_for_commitment))
    commitments ← lift (
        if leb (length batch) max_ht_commitments
        then ok (padded zero_bytes max_ht_commitments batch)
        else panic)
    zoom (λ s. s.hashing_account) (λ a s. record s { hashing_account = a })
        (update (λ a. reset h a batching_rate first.fee_version commitments))

  unfoldable pub init_commitment_hash : Bool → Action (BatchAccounts F U M) ProgramError (Unit {0})
  unfolding init_commitment_hash_inner
  init_commitment_hash insertion_can_fail = pass_over insertion_can_fail init_commitment_hash_inner

module _ {ℓ κ} {F : Type ℓ} {U : Type κ} (empty_tree : List U) where
  unfoldable pub init_commitment_hash_setup_inner :
      StorageAccount U → Action (CommitmentHashingAccount F U) ProgramError (Unit {0})
  unfolding get_mt_opening setup
  init_commitment_hash_setup_inner s = do
    a ← current
    lift (guard (not a.is_active) (from_elusiv computation_is_not_yet_finished))
    siblings ← lift (get_mt_opening empty_tree s s.next_commitment_ptr)
    update (λ a. setup a s.next_commitment_ptr siblings)

  unfoldable pub init_commitment_hash_setup :
      StorageAccount U → Bool → Action (CommitmentHashingAccount F U) ProgramError (Unit {0})
  unfolding init_commitment_hash_setup_inner
  init_commitment_hash_setup s insertion_can_fail =
      pass_over insertion_can_fail (init_commitment_hash_setup_inner s)
