-- ===== src/Commitment/Queues.antt =====
-- The two queues of the commitments: what is put into them, and what a batch takes out.
use elusiv.Base.{
  leb, le→leb, length, drop, length-take, from_elusiv, queue_is_full, ProgramError, ok, err, ℕ, ◌^◌,
  ◌≤◌, ◌≡◌, refl, sym, ap, ◌∙◌, ◌≢◌, ◌⊎◌, inl, inr, true, some, List, [], ◌∷◌, ◌++◌, arith,
  ℕ_discrete,
}
use elusiv.Base.Action.{Action, zoom, update}
use elusiv.Queue.{RingQueue, dequeue_first, remove, len}
use elusiv.Queue.Fifo
use elusiv.Queue.Slots.{Represents, enqueue_full, enqueue_room, pushed-Represents}
use elusiv.Queue.Refine.{remove-Refines}
use elusiv.Metadata.{MetadataAccount, add_commitment_metadata}
use elusiv.Commitment.Batch.Next.{next_batch_lem}
use elusiv.Commitment.Batch.{CommitmentHashRequest, commitment_queue_capacity, next_batch}
use elusiv.Commitment.Processor.{BatchAccounts, on_metadata, enqueue_commitment}

module _ {ℓ κ μ} {F : Type ℓ} {U : Type κ} {M : Type μ} where
  -- The queues hold the commitments `xs` and the metadata `ms`.
  pub record Hold (s : BatchAccounts F U M) (xs : List (CommitmentHashRequest U)) (ms : List M)
      : Type (κ ⊔ μ) where
    pub commitments : Represents commitment_queue_capacity s.commitment_queue xs
    pub metadata : Represents commitment_queue_capacity s.metadata_queue ms

  -- A commitment and its metadata enter the queues together: while both queues hold equally many,
  -- enqueue_commitment appends to both, or finds them full and leaves both as they are.
  pub enqueue_commitment_lem :
      (s : BatchAccounts F U M) (xs : List (CommitmentHashRequest U)) (ms : List M) (c : U) (m : M)
      (version rate : ℕ)
      → Hold s xs ms
      → length xs ≡ length ms
      → (let out = enqueue_commitment c m version rate s in
          let request : CommitmentHashRequest U = record {
            commitment = c;
            fee_version = version;
            min_batching_rate = rate;
          } in
          ((length xs ≡ commitment_queue_capacity)
            × (out.1 ≡ err (from_elusiv queue_is_full))
            × Hold out.0 xs ms)
          ⊎ ((out.1 ≡ ok tt) × Hold out.0 (xs ++ request ∷ []) (ms ++ m ∷ [])))
  unfolding enqueue_commitment
  enqueue_commitment_lem s xs ms c m version rate h e =
      let n = commitment_queue_capacity in
      let q = s.commitment_queue in
      let p = s.metadata_queue in
      let request : CommitmentHashRequest U = record {
        commitment = c;
        fee_version = version;
        min_batching_rate = rate;
      } in
      elim (ℕ_discrete (len n q) n) [
        | yes full ↦ rw (enqueue_full n q request h.commitments.valid full) (
            inl (
              h.commitments.count ∙ full,
              refl,
              record { commitments = h.commitments; metadata = h.metadata },
            ))
        | no room ↦
            let also : len n p ≢ n =
              λ f. room (sym h.commitments.count ∙ e ∙ h.metadata.count ∙ f) in
            rw
              (
                enqueue_room n q request h.commitments.valid room,
                enqueue_room n p m h.metadata.valid also,
              )
              (inr (
                refl,
                record {
                  commitments = pushed-Represents n q request xs h.commitments room;
                  metadata = pushed-Represents n p m ms h.metadata also;
                },
              ))
      ]

  -- The parts of a round of move_metadata.
  abbrev dequeue : Action (BatchAccounts F U M) ProgramError M
  dequeue = on_metadata (dequeue_first commitment_queue_capacity)

  abbrev put_account : MetadataAccount M → BatchAccounts F U M → BatchAccounts F U M
  put_account a s = record s { metadata_account = a }

  abbrev store : M → Action (BatchAccounts F U M) ProgramError (Unit {0})
  store m = zoom (λ s. s.metadata_account) put_account (update (λ a. add_commitment_metadata a m))

module _ {κ} {U : Type κ} where
  pub batch_inside :
      (q : RingQueue (CommitmentHashRequest U)) (xs batch : List (CommitmentHashRequest U))
      (rate : ℕ)
      → Represents commitment_queue_capacity q xs
      → next_batch commitment_queue_capacity q ≡ some (ok (batch, rate))
      → length batch ≤ length xs
  batch_inside q xs batch rate r e =
      let (o, f, is_batch) = next_batch_lem commitment_queue_capacity q xs r in
      let same : some o ≡ some (ok (batch, rate)) = sym f ∙ e in
      let b = is_batch batch rate (cc) in
      omega (arith, ap length b.front, length-take (2 ^ rate) xs)

  pub removed :
      (q : RingQueue (CommitmentHashRequest U)) (xs : List (CommitmentHashRequest U)) (n : ℕ)
      → Represents commitment_queue_capacity q xs
      → n ≤ length xs
      → (remove commitment_queue_capacity q n ≡ ((remove commitment_queue_capacity q n).0, ok tt))
        × Represents commitment_queue_capacity (remove commitment_queue_capacity q n).0 (drop n xs)
  unfolding Fifo.remove
  removed q xs n r inside =
      let out = remove commitment_queue_capacity q n in
      let s = remove-Refines commitment_queue_capacity q n xs r in
      let fits : leb n (length xs) ≡ true = le→leb _ _ inside in
      let reply = rw fits at s.reply in
      let state = rw fits at s.state in (ap (λ x. (out.0, x)) reply, state)
