-- ===== src/Commitment/Writes.antt =====
-- The writes of a finalization change nodes of the tree, and nothing else of the storage account.
use elusiv.Base.{
  unwrap_ok, >>=-eq-ok, ok_injective, unwrap_ok-eq-ok, ProgramError, ok, read, ℕ, zero, suc, ◌+◌,
  ◌-◌, ◌/◌, ◌^◌, ◌≡◌, refl, sym, ◌∙◌, subst,
}
use elusiv.Storage.{StorageAccount, set_node}
use elusiv.Storage.Nodes.{set_node_parts}
use elusiv.Commitment.{mt_height}
use elusiv.Commitment.Account.{CommitmentHashingAccount}
use elusiv.Commitment.Update.{insert_level, insert_above}

module _ {ℓ} {U : Type ℓ} where
  -- Only nodes of the tree have changed.
  pub record IsNodeUpdate (s s' : StorageAccount U) : Type ℓ where
    pub place : s'.next_commitment_ptr ≡ s.next_commitment_ptr
    pub history : s'.active_mt_root_history ≡ s.active_mt_root_history
    pub roots : s'.mt_roots_count ≡ s.mt_roots_count

  IsNodeUpdate-refl : (s : StorageAccount U) → IsNodeUpdate s s
  IsNodeUpdate-refl s = record { place = refl; history = refl; roots = refl }

  IsNodeUpdate-trans :
      (s t u : StorageAccount U) → IsNodeUpdate s t → IsNodeUpdate t u → IsNodeUpdate s u
  IsNodeUpdate-trans s t u f g = record {
    place = g.place ∙ f.place;
    history = g.history ∙ f.history;
    roots = g.roots ∙ f.roots;
  }

  set_node_update :
      (s s' : StorageAccount U) (v : U) (i l : ℕ)
      → unwrap_ok {E = ProgramError} {F = ProgramError} (set_node s v i l) ≡ ok s'
      → IsNodeUpdate s s'
  set_node_update s s' v i l h =
      let e = unwrap_ok-eq-ok {E = ProgramError} {F = ProgramError} (set_node s v i l) h in
      let (fine, p, c, x, y, eq) = set_node_parts s s' v i l e in
      subst (IsNodeUpdate s) (sym eq) (record { place = refl; history = refl; roots = refl })

module _ {ℓ κ} {F : Type ℓ} {U : Type κ} where
  pub insert_level_update :
      (count : ℕ) (a : CommitmentHashingAccount F U) (s s' : StorageAccount U) (below o l i : ℕ)
      → insert_level count a s below o l i ≡ ok s'
      → IsNodeUpdate s s'
  unfolding insert_level
  insert_level_update zero a s s' below o l i h =
      subst (IsNodeUpdate s) (ok_injective h) (IsNodeUpdate-refl s)
  insert_level_update (suc count) a s s' below o l i h =
      let (v, e, h) = >>=-eq-ok (read a.hash_tree (below + i)) _ h in
      let (t, e, h) = >>=-eq-ok (unwrap_ok {E = ProgramError} (set_node s v (o + i) l)) _ h in
      IsNodeUpdate-trans s t s' (set_node_update s t v (o + i) l e)
        (insert_level_update count a t s' below o l (suc i) h)

  pub insert_above_update :
      (count : ℕ) (a : CommitmentHashingAccount F U) (s s' : StorageAccount U) (i : ℕ)
      → insert_above count a s i ≡ ok s'
      → IsNodeUpdate s s'
  unfolding insert_above
  insert_above_update zero a s s' i h =
      subst (IsNodeUpdate s) (ok_injective h) (IsNodeUpdate-refl s)
  insert_above_update (suc count) a s s' i h =
      let place = a.ordering / 2 ^ (a.batching_rate + i + 1) in
      let level = mt_height - a.batching_rate - i - 1 in
      let (v, e, h) = >>=-eq-ok (read a.above_hashes i) _ h in
      let (t, e, h) = >>=-eq-ok (unwrap_ok {E = ProgramError} (set_node s v place level)) _ h in
      IsNodeUpdate-trans s t s' (set_node_update s t v place level e)
        (insert_above_update count a t s' (suc i) h)
