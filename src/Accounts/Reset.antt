-- ===== src/Accounts/Reset.antt =====
-- When the active tree is closed, and what is left then.
use elusiv.Base.{
  ◌==◌, leb→le, ==_iff, Bool-cases, guard, ok_or, unwrap, >>=-eq-ok, guard-eq-ok, ok_injective,
  ok_or-eq-ok, unwrap-eq-ok, ProgramError, ok, u32_mod, checked_add, ℕ, ◌+◌, ◌^◌, ◌≤◌, ◌≡◌, sym, ap,
  ◌∙◌, ◌⊎◌, inl, inr, true, some, List, arith,
}
use elusiv.Queue.{RingQueue}
use elusiv.Queue.Slots.{Represents}
use elusiv.Storage.{StorageAccount, mt_commitment_count, is_full, get_root, reset}
use elusiv.Nullifier.{NullifierAccount}
use elusiv.Commitment.Batch.{CommitmentHashRequest, commitment_queue_capacity, next_batch}
use elusiv.Commitment.Batch.Prefix.{IsBatch}
use elusiv.Commitment.Batch.Next.{next_batch_lem}
use elusiv.Accounts.{is_mt_full, reset_active_merkle_tree}

-- Why the tree counts as full: it is, or the next batch does not leave a place free.
pub CountsAsFull {ℓ} : {U : Type ℓ} → StorageAccount U → List (CommitmentHashRequest U) → Type ℓ
CountsAsFull s xs =
    (mt_commitment_count ≤ s.next_commitment_ptr)
    ⊎ ((batch : List (CommitmentHashRequest _)) × (rate : ℕ) × IsBatch xs batch rate
        × (mt_commitment_count ≤ s.next_commitment_ptr + 2 ^ rate))

checked_add_value : (m a b c : ℕ) → checked_add m a b ≡ some c → c ≡ a + b
checked_add_value m a b c h = ground arith

is_mt_full_lem {ℓ} :
    {U : Type ℓ} (s : StorageAccount U) (q : RingQueue (CommitmentHashRequest U))
    (xs : List (CommitmentHashRequest U))
    → Represents commitment_queue_capacity q xs
    → is_mt_full s q ≡ ok true
    → CountsAsFull s xs
unfolding is_mt_full is_full CountsAsFull
is_mt_full_lem s q xs r h = elim (Bool-cases (is_full s)) [
  | inl full ↦ inl (leb→le _ _ full)
  | inr room ↦
      let h' = rw room at h in
      let (o, e, is_batch) = next_batch_lem commitment_queue_capacity q xs r in
      let (found, f, h') = >>=-eq-ok (unwrap (next_batch commitment_queue_capacity q)) _ h' in
      let (batch, g, h') = >>=-eq-ok found _ h' in
      let known = unwrap-eq-ok {E = ProgramError} (next_batch commitment_queue_capacity q) f in
      let same : some o ≡ some found = sym e ∙ known in
      let b = is_batch batch.0 batch.1 (cc) in
      let enough = leb→le _ _ (ok_injective h') in
      inr (batch.0, batch.1, b, omega (arith, enough, b.full))
]

-- The closing of a tree that returns happens only where the tree counts as full: the next place is past
-- the last, or the next batch of the queue would at least reach it. The root of the closed tree goes to
-- the nullifier account, the trees are counted, and the tree is empty again, without roots.
pub reset_active_merkle_tree_lem :
    (empty_tree : List ℕ) (s s' : StorageAccount ℕ) (q : RingQueue (CommitmentHashRequest ℕ))
    (n n' : NullifierAccount) (index : ℕ) (xs : List (CommitmentHashRequest ℕ))
    → Represents commitment_queue_capacity q xs
    → reset_active_merkle_tree empty_tree s q n index ≡ ok (s', n')
    → CountsAsFull s xs
      × (get_root empty_tree s ≡ ok n'.root)
      × (s'.trees_count ≡ s.trees_count + 1)
      × (s'.next_commitment_ptr ≡ 0)
      × (s'.mt_roots_count ≡ 0)
unfolding reset_active_merkle_tree reset
reset_active_merkle_tree_lem empty_tree s s' q n n' index xs r h =
    let (u, g, h) = >>=-eq-ok (guard (s.trees_count == index) _) _ h in
    let this : s.trees_count ≡ index = (==_iff _ _).0 (guard-eq-ok (s.trees_count == index) _ g) in
    let (full, e, h) = >>=-eq-ok (is_mt_full s q) _ h in
    let (u, g, h) = >>=-eq-ok (guard full _) _ h in
    let is_full = guard-eq-ok full _ g in
    let (trees, f, h) = >>=-eq-ok (ok_or (checked_add u32_mod index 1) _) _ h in
    let (root, k, h) = >>=-eq-ok (get_root empty_tree s) _ h in
    let pair = ok_injective h in
    let next : trees ≡ index + 1 = checked_add_value u32_mod index 1 trees (ok_or-eq-ok _ _ f) in
    (
      is_mt_full_lem s q xs r (e ∙ ap ok is_full),
      k ∙ ap (λ p. ok p.1.root) pair,
      ap (λ p. p.0.trees_count) (sym pair) ∙ next ∙ ap (λ i. i + 1) (sym this),
      ap (λ p. p.0.next_commitment_ptr) (sym pair),
      ap (λ p. p.0.mt_roots_count) (sym pair),
    )
