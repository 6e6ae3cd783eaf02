-- ===== src/Commitment/Finalize.antt =====
-- The finalizations of a batch: the account counts them, and the last one moves the tree on.
use elusiv.Base.{
  leb, ◌==◌, if◌then◌else◌, leb→le, le→leb, ==_iff, length, get_elem?, get_elem?-set_self, guard,
  unwrap_ok, >>=-eq-ok, guard-eq-ok, ok_injective, unwrap_ok-eq-ok, ProgramError, ok, add_u32,
  write, write-eq-ok, two_pow-value, ℕ, ◌+◌, ◌-◌, ◌/◌, ◌%◌, ◌^◌, ◌≤◌, ◌<◌, ◌≡◌, refl, sym, ap, ◌∙◌,
  subst, true, false, some, List, arith,
}
use elusiv.Storage.{StorageAccount, get_root, get_node, mt_commitment_count, history_array_size}
use elusiv.Commitment.{commitments_per_batch, mt_height, commitment_hash_computation_instructions}
use elusiv.Commitment.Account.{CommitmentHashingAccount}
use elusiv.Commitment.Update.{
  insert_level, insert_above, nodes_below_level, complete_mt, update_mt, finalize_commitment_hash,
}
use elusiv.Commitment.Writes.{IsNodeUpdate, insert_level_update, insert_above_update}

module _ {κ} {U : Type κ} (empty_tree : List U) where
  root_kept :
      (s : StorageAccount U) (history : List U) (count : ℕ)
      → get_root empty_tree (record s { active_mt_root_history = history; mt_roots_count = count })
        ≡ get_root empty_tree s
  unfolding get_root get_node
  root_kept s history count = refl

module _ {ℓ κ} {F : Type ℓ} {U : Type κ} (empty_tree : List U) where
  -- The history has the root of the new tree at the place of the batch.
  pub record IsCompleted (a : CommitmentHashingAccount F U) (s s' : StorageAccount U) : Type κ where
    pub place : s'.next_commitment_ptr ≡ add_u32 a.ordering (2 ^ a.batching_rate)
    pub roots : s'.mt_roots_count ≡ add_u32 s.mt_roots_count 1
    pub root : U
    pub is_root : get_root empty_tree s' ≡ ok root
    pub recorded : get_elem? s'.active_mt_root_history (a.ordering % history_array_size) ≡ some root

  complete_mt-IsCompleted :
      (a : CommitmentHashingAccount F U) (s s' : StorageAccount U)
      → complete_mt empty_tree a s ≡ ok s'
      → IsCompleted a s s'
  unfolding complete_mt
  complete_mt-IsCompleted a s s' h =
      let (t, e, h) = >>=-eq-ok (insert_above (mt_height - a.batching_rate) a s 0) _ h in
      let (w, width, h) = >>=-eq-ok (commitments_per_batch a.batching_rate) _ h in
      let filled = record t { next_commitment_ptr = add_u32 a.ordering w } in
      let (root, f, h) =
        >>=-eq-ok (unwrap_ok {E = ProgramError} (get_root empty_tree filled)) _ h in
      let (history, g, h) =
        >>=-eq-ok (write filled.active_mt_root_history (a.ordering % history_array_size) root) _
          h in
      let (inside, eq) =
        write-eq-ok {E = ProgramError} filled.active_mt_root_history
          (a.ordering % history_array_size) root g in
      let u = insert_above_update (mt_height - a.batching_rate) a s t 0 e in
      let w_is = two_pow-value a.batching_rate w width in
      subst (IsCompleted a s) (ok_injective h) (record {
        place = ap (add_u32 a.ordering) w_is;
        roots = ap (λ k. add_u32 k 1) u.roots;
        root = root;
        is_root =
            root_kept empty_tree filled history (add_u32 filled.mt_roots_count 1)
            ∙ unwrap_ok-eq-ok {E = ProgramError} {F = ProgramError} (get_root empty_tree filled) f;
        recorded =
            ap (λ xs. get_elem? xs (a.ordering % history_array_size)) eq
            ∙ get_elem?-set_self filled.active_mt_root_history (a.ordering % history_array_size)
                root inside;
      })

  -- What a finalization that returns has checked, and what it leaves, by the number of calls before.
  pub record IsFinalized (a : CommitmentHashingAccount F U) (s : StorageAccount U)
      (a' : CommitmentHashingAccount F U) (s' : StorageAccount U) : Type κ where
    pub was_active : a.is_active ≡ true
    pub room : s.next_commitment_ptr + 2 ^ a.batching_rate ≤ mt_commitment_count
    pub counted : a'.finalization_ix ≡ add_u32 a.finalization_ix 1
    pub not_last :
        a.finalization_ix < a.batching_rate
        → (a'.is_active ≡ true)
          × (s'.next_commitment_ptr ≡ s.next_commitment_ptr)
          × (s'.active_mt_root_history ≡ s.active_mt_root_history)
    pub last :
        a.finalization_ix ≡ a.batching_rate
        → (a'.is_active ≡ false) × (a'.is_setup ≡ false) × IsCompleted a s s'
    pub no_more : a.finalization_ix ≤ a.batching_rate

  update_mt_parts :
      (a : CommitmentHashingAccount F U) (s s' : StorageAccount U) (ix : ℕ)
      → ix ≤ a.batching_rate
      → update_mt empty_tree a s ix ≡ ok s'
      → (t : StorageAccount U) × IsNodeUpdate s t
        × ((if ix == a.batching_rate then complete_mt empty_tree a t else ok t) ≡ ok s')
  unfolding update_mt
  update_mt_parts a s s' ix fits h =
      let ht_level = a.batching_rate - ix in
      let below = nodes_below_level ht_level (a.batching_rate - ht_level) in
      let o = a.ordering / 2 ^ (a.batching_rate - ht_level) in
      let l = mt_height - a.batching_rate + ht_level in
      let q = rw (le→leb ix a.batching_rate fits) at h in
      let (t, e, q) = >>=-eq-ok (insert_level (2 ^ ht_level) a s below o l 0) _ q in
      (t, insert_level_update (2 ^ ht_level) a s t below o l 0 e, q)

  finalize_parts :
      (a a' : CommitmentHashingAccount F U) (s s' : StorageAccount U)
      → finalize_commitment_hash empty_tree a s ≡ ok (a', s')
      → (a.is_active ≡ true)
        × (a.finalization_ix ≤ a.batching_rate)
        × (s.next_commitment_ptr + 2 ^ a.batching_rate ≤ mt_commitment_count)
        × (update_mt empty_tree a s a.finalization_ix ≡ ok s')
        × (a' ≡ record a {
          finalization_ix = add_u32 a.finalization_ix 1;
          is_active = if a.finalization_ix == a.batching_rate then false else a.is_active;
          is_setup = if a.finalization_ix == a.batching_rate then false else a.is_setup;
        })
  unfolding finalize_commitment_hash
  finalize_parts a a' s s' h =
      let (u, active, h) = >>=-eq-ok (guard a.is_active _) _ h in
      let (u, more, h) = >>=-eq-ok (guard (leb a.finalization_ix a.batching_rate) _) _ h in
      let (instructions, x, h) =
        >>=-eq-ok (commitment_hash_computation_instructions a.batching_rate) _ h in
      let (u, x, h) = >>=-eq-ok (guard (leb (length instructions) a.instruction) _) _ h in
      let (w, width, h) = >>=-eq-ok (commitments_per_batch a.batching_rate) _ h in
      let (u, room, h) =
        >>=-eq-ok (guard (leb (s.next_commitment_ptr + w) mt_commitment_count) _) _ h in
      let (t, e, h) = >>=-eq-ok (update_mt empty_tree a s a.finalization_ix) _ h in
      let fits =
        leb→le _ _ (guard-eq-ok (leb (s.next_commitment_ptr + w) mt_commitment_count) _ room) in
      let w_is = two_pow-value a.batching_rate w width in
      let pair = ok_injective h in
      (
        guard-eq-ok a.is_active _ active,
        leb→le _ _ (guard-eq-ok (leb a.finalization_ix a.batching_rate) _ more),
        omega (arith, fits, w_is),
        e ∙ ap ok (ap (λ p. p.1) pair),
        sym (ap (λ p. p.0) pair),
      )

  -- A finalization that returns found the account active, at most batching_rate calls before it, and
  -- room for the batch. It counts itself. Before the last one it leaves the account active, and the
  -- next place and the history of roots alone; the last one ends the computation, puts the next place
  -- behind the batch, and writes the root of the tree into the history.
  pub finalize_commitment_hash-IsFinalized :
      (a a' : CommitmentHashingAccount F U) (s s' : StorageAccount U)
      → finalize_commitment_hash empty_tree a s ≡ ok (a', s')
      → IsFinalized a s a' s'
  finalize_commitment_hash-IsFinalized a a' s s' h =
      let (active, more, room, e, eq) = finalize_parts a a' s s' h in
      let (t, u, q) = update_mt_parts a s s' a.finalization_ix more e in
      record {
        was_active = active;
        room = room;
        counted = ap (λ k. k.finalization_ix) eq;
        no_more = more;
        not_last = λ l.
            let b : (a.finalization_ix == a.batching_rate) ≡ false = ground arith in
            let q' = rw b at q in
            let same : t ≡ s' = ok_injective q' in
            let on : (if a.finalization_ix == a.batching_rate then false else a.is_active) ≡ true =
              rw b active in
            (
              ap (λ k. k.is_active) eq ∙ on,
              ap (λ k. k.next_commitment_ptr) (sym same) ∙ u.place,
              ap (λ k. k.active_mt_root_history) (sym same) ∙ u.history,
            );
        last = λ l.
            let b : (a.finalization_ix == a.batching_rate) ≡ true = (==_iff _ _).1 l in
            let q' = rw b at q in
            let c = complete_mt-IsCompleted a t s' q' in
            let off : (if a.finalization_ix == a.batching_rate then false else a.is_active)
                ≡ false =
              rw b refl in
            let unset : (if a.finalization_ix == a.batching_rate then false else a.is_setup)
                ≡ false =
              rw b refl in
            (
              ap (λ k. k.is_active) eq ∙ off,
              ap (λ k. k.is_setup) eq ∙ unset,
              record {
                place = c.place;
                roots = c.roots ∙ ap (λ k. add_u32 k 1) u.roots;
                root = c.root;
                is_root = c.is_root;
                recorded = c.recorded;
              },
            );
      }
