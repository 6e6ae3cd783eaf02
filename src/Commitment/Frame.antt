-- ===== src/Commitment/Frame.antt =====
-- What the computation of the hashes leaves alone: the commitments, the siblings and the account's mode.
use elusiv.Base.{
  ltb, leb, ◌==◌, Bool-cases, length, get_elem?, get_elem?-set_ne, guard, >>=-eq-ok, ok_injective,
  ProgramError, ok, add_u32, read, write, two_pow, write-eq-ok, two_pow-value, ℕ, zero, suc, ◌+◌,
  ◌-◌, ◌/◌, ◌%◌, ◌^◌, ◌<◌, ◌≡◌, refl, sym, ap, ◌∙◌, subst, inl, inr, arith,
}
use elusiv.Poseidon.{HashingState, Hasher, result}
use elusiv.Commitment.{
  hash_count_per_batch, commitment_hash_computation_instructions,
  commitment_hash_computation_rounds,
}
use elusiv.Commitment.Account.{
  CommitmentHashingAccount, next_hashing_state, save_finished_hash, compute_round, compute_rounds,
  compute_commitment_hash_partial,
}
use elusiv.Commitment.Calls.{compute_calls}

module _ {ℓ κ} {F : Type ℓ} {U : Type κ} where
  pub record IsFrame (a a' : CommitmentHashingAccount F U) : Type κ where
    pub rate : a'.batching_rate ≡ a.batching_rate
    pub active : a'.is_active ≡ a.is_active
    pub finalization : a'.finalization_ix ≡ a.finalization_ix
    pub place : a'.ordering ≡ a.ordering
    pub same_siblings : a'.siblings ≡ a.siblings
    pub leaves :
        (i : ℕ) → i < 2 ^ a.batching_rate → get_elem? a'.hash_tree i ≡ get_elem? a.hash_tree i

  IsFrame-refl : (a : CommitmentHashingAccount F U) → IsFrame a a
  IsFrame-refl a = record {
    rate = refl;
    active = refl;
    finalization = refl;
    place = refl;
    same_siblings = refl;
    leaves = λ i h. refl;
  }

  IsFrame-trans : (a b c : CommitmentHashingAccount F U) → IsFrame a b → IsFrame b c → IsFrame a c
  IsFrame-trans a b c f g = record {
    rate = g.rate ∙ f.rate;
    active = g.active ∙ f.active;
    finalization = g.finalization ∙ f.finalization;
    place = g.place ∙ f.place;
    same_siblings = g.same_siblings ∙ f.same_siblings;
    leaves = λ i h.
        let inside : i < 2 ^ b.batching_rate = subst (λ k. i < 2 ^ k) (sym f.rate) h in
        g.leaves i inside ∙ f.leaves i h;
  }

module _ {ℓ κ} {F : Type ℓ} {U : Type κ} (h : Hasher F U) where
  save-IsFrame :
      (a a' : CommitmentHashingAccount F U) (i : ℕ) (s : HashingState F)
      → save_finished_hash h a i s ≡ ok a'
      → IsFrame a a'
  unfolding save_finished_hash
  save-IsFrame a a' i s e =
      let (w, width, e) = >>=-eq-ok (two_pow a.batching_rate) _ e in
      let v = h.to_u256 (result h s) in
      let w_is = two_pow-value a.batching_rate w width in
      elim (Bool-cases (ltb i (w - 1))) [
        | inl b ↦
            let q = rw b at e in
            let (tree, g, q) = >>=-eq-ok (write a.hash_tree (w + i) v) _ q in
            let (inside, eq) = write-eq-ok {E = ProgramError} a.hash_tree (w + i) v g in
            subst (IsFrame a) (ok_injective q) (record {
              rate = refl;
              active = refl;
              finalization = refl;
              place = refl;
              same_siblings = refl;
              leaves = λ j l.
                  ap (λ t. get_elem? t j) eq
                  ∙ get_elem?-set_ne a.hash_tree (w + i) j v (λ same. omega (arith, w_is));
            })
        | inr b ↦
            let q = rw b at e in
            let (above, g, q) = >>=-eq-ok (write a.above_hashes (i - (w - 1)) v) _ q in
            subst (IsFrame a) (ok_injective q) (record {
              rate = refl;
              active = refl;
              finalization = refl;
              place = refl;
              same_siblings = refl;
              leaves = λ j l. refl;
            })
      ]

  round-IsFrame :
      (a : CommitmentHashingAccount F U) (s : HashingState F) (round : ℕ)
      (p : CommitmentHashingAccount F U × HashingState F)
      → compute_round h a s round ≡ ok p
      → IsFrame a p.0
  unfolding compute_round
  round-IsFrame a s round p e = elim (Bool-cases (round % 65 == 64)) [
    | inr b ↦ let q = rw b at e in subst (λ x. IsFrame a x.0) (ok_injective q) (IsFrame-refl a)
    | inl b ↦
        let q = rw b at e in
        let (a', g, q) =
          >>=-eq-ok (save_finished_hash h a (round / 65) (h.hash_round (round % 65) s)) _ q in
        let (count, c, q) = >>=-eq-ok (hash_count_per_batch a.batching_rate) _ q in
        let frame = save-IsFrame a a' (round / 65) (h.hash_round (round % 65) s) g in
        elim (Bool-cases (ltb (round / 65) (count - 1))) [
          | inl more ↦
              let q' = rw more at q in
              let (next, n, q') = >>=-eq-ok (next_hashing_state h a' (round / 65 + 1)) _ q' in
              subst (λ x. IsFrame a x.0) (ok_injective q') frame
          | inr last ↦ let q' = rw last at q in subst (λ x. IsFrame a x.0) (ok_injective q') frame
        ]
  ]

  rounds-IsFrame :
      (count : ℕ) (a : CommitmentHashingAccount F U) (s : HashingState F) (round : ℕ)
      (p : CommitmentHashingAccount F U × HashingState F)
      → compute_rounds h count a s round ≡ ok p
      → IsFrame a p.0
  unfolding compute_rounds
  rounds-IsFrame zero a s round p e = subst (λ x. IsFrame a x.0) (ok_injective e) (IsFrame-refl a)
  rounds-IsFrame (suc count) a s round p e =
      let (q, g, e) = >>=-eq-ok (compute_round h a s round) _ e in
      IsFrame-trans a q.0 p.0 (round-IsFrame a s round q g)
        (rounds-IsFrame count q.0 q.1 (suc round) p e)

  -- A call that returns keeps the commitments, the siblings, and what tells the account's mode.
  pub call-IsFrame :
      (a a' : CommitmentHashingAccount F U)
      → compute_commitment_hash_partial h a ≡ ok a'
      → IsFrame a a'
  unfolding compute_commitment_hash_partial
  call-IsFrame a a' e =
      let (instructions, x, e) =
        >>=-eq-ok (commitment_hash_computation_instructions a.batching_rate) _ e in
      let (u, x, e) = >>=-eq-ok (guard (ltb a.instruction (length instructions)) _) _ e in
      let (rounds, x, e) = >>=-eq-ok (read instructions a.instruction) _ e in
      let (total, x, e) = >>=-eq-ok (commitment_hash_computation_rounds a.batching_rate) _ e in
      let (u, x, e) = >>=-eq-ok (guard (leb (add_u32 a.round rounds) total) _) _ e in
      let (p, g, e) =
        >>=-eq-ok (compute_rounds h (add_u32 a.round rounds - a.round) a a.state a.round) _ e in
      let f = rounds-IsFrame (add_u32 a.round rounds - a.round) a a.state a.round p g in
      subst (IsFrame a) (ok_injective e) (record {
        rate = f.rate;
        active = f.active;
        finalization = f.finalization;
        place = f.place;
        same_siblings = f.same_siblings;
        leaves = f.leaves;
      })

  pub calls-IsFrame :
      (n : ℕ) (a a' : CommitmentHashingAccount F U) → compute_calls h n a ≡ ok a' → IsFrame a a'
  unfolding compute_calls
  calls-IsFrame zero a a' e = subst (IsFrame a) (ok_injective e) (IsFrame-refl a)
  calls-IsFrame (suc n) a a' e =
      let (b, g, e) = >>=-eq-ok (compute_commitment_hash_partial h a) _ e in
      IsFrame-trans a b a' (call-IsFrame a b g) (calls-IsFrame n b a' e)
