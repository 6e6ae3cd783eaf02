-- ===== src/Commitment/Taken.antt =====
-- What init_commitment_hash has done with the next batch when it returns.
use elusiv.Base.{
  leb, if◌then◌else◌, leb→le, Bool-cases, length, get_elem?, drop, take, guard, unwrap, from_elusiv,
  guard-eq-ok, ok_injective, outcome_cases, unwrap-eq-ok, no_room_for_commitment,
  computation_is_not_yet_finished, ProgramError, Result, ok, panic, ℕ, zero, suc, ◌+◌, ◌≤◌, ◌≡◌,
  refl, sym, ap, ◌∙◌, subst, inl, inr, false, not, some, List, [], ◌∷◌,
}
use elusiv.Base.Action.{Action, zoom, update}
use elusiv.Base.Action.Runs.{and_then-eq-ok, lift-eq-ok, zoom-eq-ok, update-eq-ok}
use elusiv.Queue.{RingQueue, dequeue_first, remove}
use elusiv.Queue.Fifo
use elusiv.Queue.Slots.{Represents}
use elusiv.Queue.Refine.{dequeue_first-Refines}
use elusiv.Metadata.{MetadataAccount, add_commitment_metadata}
use elusiv.Storage.{mt_commitment_count}
use elusiv.Poseidon.{Hasher}
use elusiv.Commitment.{max_ht_commitments}
use elusiv.Commitment.Account.{CommitmentHashingAccount, reset}
use elusiv.Commitment.Batch.Prefix.{IsBatch}
use elusiv.Commitment.Batch.Next.{next_batch_lem}
use elusiv.Commitment.Batch.{CommitmentHashRequest, commitment_queue_capacity, next_batch}
use elusiv.Commitment.Queues.{Hold, batch_inside, removed}
use elusiv.Commitment.Processor.{
  BatchAccounts, move_metadata, padded, init_commitment_hash_inner, init_commitment_hash, pass_over,
}

-- The metadata are stored one after the other.
pub data IsStored {μ} {M : Type μ} : List M → MetadataAccount M → MetadataAccount M → Type μ where
  no_metadata : (a : MetadataAccount M) → IsStored [] a a
  next_metadata :
      (m : M) (ms : List M) (a b c : MetadataAccount M)
      → add_commitment_metadata a m ≡ ok b
      → IsStored ms b c
      → IsStored (m ∷ ms) a c

module _ {ℓ κ μ} {F : Type ℓ} {U : Type κ} {M : Type μ} where
  record IsMoved (count : ℕ) (ms : List M) (s s' : BatchAccounts F U M) : Type (ℓ ⊔ κ ⊔ μ) where
    left : Represents commitment_queue_capacity s'.metadata_queue (drop count ms)
    stored : IsStored (take count ms) s.metadata_account s'.metadata_account
    commitments : s'.commitment_queue ≡ s.commitment_queue
    account : s'.hashing_account ≡ s.hashing_account

  move_metadata-IsMoved :
      (count : ℕ) (s s' : BatchAccounts F U M) (ms : List M)
      → Represents commitment_queue_capacity s.metadata_queue ms
      → move_metadata count s ≡ (s', ok tt)
      → IsMoved count ms s s'
  unfolding move_metadata Fifo.dequeue_first
  move_metadata-IsMoved zero s s' ms r h = subst (IsMoved zero ms s) (ap (λ x. x.0) h) (record {
    left = r;
    stored = no_metadata s.metadata_account;
    commitments = refl;
    account = refl;
  })
  move_metadata-IsMoved (suc count) s s' [] r h =
      let d = dequeue_first-Refines commitment_queue_capacity s.metadata_queue [] r in
      let (q, m, e, _) =
        zoom-eq-ok (λ q s. record s { metadata_queue = q })
          (dequeue_first commitment_queue_capacity s.metadata_queue) s _ h in
      absurd (let z = sym d.reply ∙ ap (λ x. x.1) e in cc)
  move_metadata-IsMoved (suc count) s s' (m ∷ ms) r h =
      let d = dequeue_first-Refines commitment_queue_capacity s.metadata_queue (m ∷ ms) r in
      let (q, m', e, h) =
        zoom-eq-ok (λ q s. record s { metadata_queue = q })
          (dequeue_first commitment_queue_capacity s.metadata_queue) s _ h in
      let same : m ≡ m' = ok_injective (sym d.reply ∙ ap (λ x. x.1) e) in
      let (a, u, f, h) =
        zoom-eq-ok (λ a s. record s { metadata_account = a })
          (update (λ a. add_commitment_metadata a m') s.metadata_account)
          (record s { metadata_queue = q }) _ h in
      let rest =
        move_metadata-IsMoved count (record s { metadata_queue = q; metadata_account = a }) s' ms
          (subst (λ x. Represents commitment_queue_capacity x ms) (ap (λ x. x.0) e) d.state) h in
      record {
        left = rest.left;
        stored =
            next_metadata m (take count ms) s.metadata_account a s'.metadata_account
              (rw same (update-eq-ok (λ a. add_commitment_metadata a m') s.metadata_account a f))
              rest.stored;
        commitments = rest.commitments;
        account = rest.account;
      }

padded_of {κ} :
    {U : Type κ} (zero_bytes : U) (batch : List (CommitmentHashRequest U)) (commitments : List U)
    → ◌≡◌ {A = Result ProgramError (List U)}
        (if leb (length batch) max_ht_commitments
          then ok (padded zero_bytes max_ht_commitments batch)
          else panic)
        (ok commitments)
    → padded zero_bytes max_ht_commitments batch ≡ commitments
padded_of zero_bytes batch commitments c =
    elim (Bool-cases (leb (length batch) max_ht_commitments)) [
      | inl e ↦ ok_injective (rw e at c)
      | inr e ↦ absurd (let z = rw e at c in cc)
    ]

pass_over_not {ℓ} :
    {S : Type ℓ} (m : Action S ProgramError (Unit {0})) (s s' : S)
    → pass_over false m s ≡ (s', ok tt)
    → m s ≡ (s', ok tt)
pass_over_not m s s' p = elim (outcome_cases (m s).1) [
  | inl (u, e) ↦ ap (λ r. ((m s).0, r)) e ∙ (rw (pass_over, e) at p)
  | inr (inl (x, e)) ↦ absurd (let z = rw (pass_over, e) at p in cc)
  | inr (inr e) ↦ absurd (let z = rw (pass_over, e) at p in cc)
]

module _ {ℓ κ μ} {F : Type ℓ} {U : Type κ} {M : Type μ} (h : Hasher F U) (zero_bytes : U) where
  -- The batch at the front of the queue has gone into the hashing account, its metadata into theirs.
  pub record IsBatchTaken (xs : List (CommitmentHashRequest U)) (ms : List M)
      (s s' : BatchAccounts F U M) : Type (ℓ ⊔ κ ⊔ μ) where
    pub batch : List (CommitmentHashRequest U)
    pub rate : ℕ
    pub is_batch : IsBatch xs batch rate
    pub held : Hold s' (drop (length batch) xs) (drop (length batch) ms)
    pub stored : IsStored (take (length batch) ms) s.metadata_account s'.metadata_account
    pub room : s.hashing_account.ordering + length batch ≤ mt_commitment_count
    pub first : CommitmentHashRequest U
    pub at_first : get_elem? batch 0 ≡ some first
    pub account :
        reset h s.hashing_account rate first.fee_version
          (padded zero_bytes max_ht_commitments batch)
        ≡ ok s'.hashing_account

  reset_last :
      (s s2 s' : BatchAccounts F U M) (batch : List (CommitmentHashRequest U)) (rate : ℕ)
      (xs : List (CommitmentHashRequest U)) (ms : List M) (q : RingQueue (CommitmentHashRequest U))
      (first : CommitmentHashRequest U) (commitments : List U)
      → IsBatch xs batch rate
      → Represents commitment_queue_capacity q (drop (length batch) xs)
      → IsMoved (length batch) ms (record s { commitment_queue = q }) s2
      → s.hashing_account.ordering + length batch ≤ mt_commitment_count
      → get_elem? batch 0 ≡ some first
      → padded zero_bytes max_ht_commitments batch ≡ commitments
      → zoom
          (λ s. s.hashing_account)
          (λ a s. record s { hashing_account = a })
          (update (λ a. reset h a rate first.fee_version commitments))
          s2
        ≡ (s', ok tt)
      → IsBatchTaken xs ms s s'
  reset_last s s2 s' batch rate xs ms q first commitments b left moved room at c p =
      let f : CommitmentHashingAccount F U → Result ProgramError (CommitmentHashingAccount F U) =
        λ a. reset h a rate first.fee_version commitments in
      let a = (update f s2.hashing_account).0 in
      let e : update f s2.hashing_account ≡ (a, ok tt) = ap (λ r. (a, r)) (ap (λ x. x.1) p) in
      let same : record s2 { hashing_account = a } ≡ s' = ap (λ x. x.0) p in
      subst (IsBatchTaken xs ms s) same (record {
        batch = batch;
        rate = rate;
        is_batch = b;
        held = record {
          commitments =
              subst (λ x. Represents commitment_queue_capacity x (drop (length batch) xs))
                (sym moved.commitments) left;
          metadata = moved.left;
        };
        stored = moved.stored;
        room = room;
        first = first;
        at_first = at;
        account =
            subst (λ x. reset h s.hashing_account rate first.fee_version x ≡ ok a) (sym c)
              (subst (λ x. reset h x rate first.fee_version commitments ≡ ok a) moved.account
                (update-eq-ok f s2.hashing_account a e));
      })

  init_commitment_hash_inner-IsBatchTaken :
      (s s' : BatchAccounts F U M) (xs : List (CommitmentHashRequest U)) (ms : List M)
      → Hold s xs ms
      → init_commitment_hash_inner h zero_bytes s ≡ (s', ok tt)
      → IsBatchTaken xs ms s s'
  unfolding init_commitment_hash_inner
  init_commitment_hash_inner-IsBatchTaken s s' xs ms held p =
      let q = s.commitment_queue in
      let (u, _, p) =
        lift-eq-ok
          (guard (not s.hashing_account.is_active) (from_elusiv computation_is_not_yet_finished)) s
          _ p in
      let (u, _, p) =
        lift-eq-ok (guard s.hashing_account.is_setup (from_elusiv computation_is_not_yet_finished))
          s _ p in
      let (found, e, p) = lift-eq-ok (unwrap (next_batch commitment_queue_capacity q)) s _ p in
      let (r, f, p) = lift-eq-ok found s _ p in
      let (batch, rate) = r in
      let n = length batch in
      let known : next_batch commitment_queue_capacity q ≡ some (ok (batch, rate)) =
        unwrap-eq-ok (next_batch commitment_queue_capacity q) e ∙ ap some f in
      let (o, ends, is_batch) = next_batch_lem commitment_queue_capacity q xs held.commitments in
      let same : some o ≡ some (ok (batch, rate)) = sym ends ∙ known in
      let (taken, left) =
        removed q xs n held.commitments (batch_inside q xs batch rate held.commitments known) in
      let (q', u, g, p) =
        zoom-eq-ok (λ q s. record s { commitment_queue = q }) (remove commitment_queue_capacity q n)
          s _ p in
      let s1 : BatchAccounts F U M = record s { commitment_queue = q' } in
      let (s2, u, moved, p) = and_then-eq-ok (move_metadata n s1) _ p in
      let (first, at, p) = lift-eq-ok (unwrap (get_elem? batch 0)) s2 _ p in
      let (u, fits, p) =
        lift-eq-ok
          (guard (leb (s.hashing_account.ordering + n) mt_commitment_count)
            (from_elusiv no_room_for_commitment))
          s2 _ p in
      let (commitments, c, p) =
        lift-eq-ok
          (if leb n max_ht_commitments
            then ok (padded zero_bytes max_ht_commitments batch)
            else panic)
          s2 _ p in
      reset_last s s2 s' batch rate xs ms q' first commitments (is_batch batch rate (cc))
        (subst (λ x. Represents commitment_queue_capacity x (drop n xs)) (ap (λ x. x.0) g) left)
        (move_metadata-IsMoved n s1 s2 ms held.metadata moved)
        (leb→le _ _ (
          guard-eq-ok (leb (s.hashing_account.ordering + n) mt_commitment_count)
            (from_elusiv no_room_for_commitment) fits))
        (unwrap-eq-ok (get_elem? batch 0) at) (padded_of zero_bytes batch commitments c) p

  -- While the queues hold the commitments `xs` and the metadata `ms`, an init_commitment_hash that must not
  -- fail and returns has taken a batch from the front of the queue, for which the tree has room, stored as
  -- many metadata in their order, and reset the hashing account to the batch with the rate of the batch
  -- and the fee version of its first request.
  pub init_commitment_hash-IsBatchTaken :
      (s s' : BatchAccounts F U M) (xs : List (CommitmentHashRequest U)) (ms : List M)
      → Hold s xs ms
      → init_commitment_hash h zero_bytes false s ≡ (s', ok tt)
      → IsBatchTaken xs ms s s'
  unfolding init_commitment_hash
  init_commitment_hash-IsBatchTaken s s' xs ms held p =
      init_commitment_hash_inner-IsBatchTaken s s' xs ms held
        (pass_over_not (init_commitment_hash_inner h zero_bytes) s s' p)
