-- ===== src/Commitment/BaseHashing/Closing.antt =====
-- What the closing of the account of a base commitment moves.
use elusiv.Base.{
  leb, ◌==◌, leb→le, ==_iff, guard, ok_or, from_elusiv, math_err, >>=-eq-ok, guard-eq-ok,
  ok_injective, ok_or-eq-ok, invalid_account, computation_is_not_yet_started,
  computation_is_not_yet_finished, invalid_fee_version, account_not_rent_exempt, ok, u64_mod,
  add_u64, mul_u64, checked_add, checked_sub, ℕ, ◌+◌, ◌≤◌, ◌≡◌, refl, sym, ap, ◌∙◌, Bool, true,
  false, some, arith,
}
use elusiv.Poseidon.{Hasher, result}
use elusiv.Fee.{ProgramFee, hash_tx_compensation, base_commitment_hash_computation_fee}
use elusiv.Commitment.Processor.{enqueue_commitment}
use elusiv.Commitment.BaseHashing.{
  BaseFinalization, transfer_lamports_from_pda, transfer_lamports_from_pda_checked,
  finalize_base_commitment_hash,
}

transfer_lamports_from_pda_lem :
    (pda recipient lamports pda' recipient' : ℕ)
    → transfer_lamports_from_pda pda recipient lamports ≡ ok (pda', recipient')
    → (pda' + lamports ≡ pda) × (recipient' ≡ recipient + lamports)
unfolding transfer_lamports_from_pda
transfer_lamports_from_pda_lem pda recipient lamports pda' recipient' h =
    let (a, e, h) = >>=-eq-ok (ok_or (checked_sub pda lamports) math_err) _ h in
    let (b, f, h) = >>=-eq-ok (ok_or (checked_add u64_mod recipient lamports) math_err) _ h in
    let down = ok_or-eq-ok (checked_sub pda lamports) math_err e in
    let up = ok_or-eq-ok (checked_add u64_mod recipient lamports) math_err f in
    let same = ok_injective h in
    let first : a ≡ pda' = ap (λ p. p.0) same in
    let second : b ≡ recipient' = ap (λ p. p.1) same in (ground arith, ground arith)

transfer_lamports_from_pda_checked_lem :
    (rent pda recipient lamports pda' recipient' : ℕ)
    → transfer_lamports_from_pda_checked rent pda recipient lamports ≡ ok (pda', recipient')
    → (pda' + lamports ≡ pda) × (recipient' ≡ recipient + lamports) × (rent ≤ pda')
unfolding transfer_lamports_from_pda_checked
transfer_lamports_from_pda_checked_lem rent pda recipient lamports pda' recipient' h =
    let (rest, e, h) = >>=-eq-ok (ok_or (checked_sub pda lamports) math_err) _ h in
    let (u, g, h) = >>=-eq-ok (guard (leb rent rest) account_not_rent_exempt) _ h in
    let left : checked_sub pda lamports ≡ some rest =
      ok_or-eq-ok (checked_sub pda lamports) math_err e in
    let (down, up) = transfer_lamports_from_pda_lem pda recipient lamports pda' recipient' h in
    let enough : rent ≤ rest = leb→le _ _ (guard-eq-ok (leb rent rest) _ g) in
    let value : rest + lamports ≡ pda = ground arith in (down, up, omega arith)

module _ {ℓ κ μ} {F : Type ℓ} {U : Type κ} {M : Type μ} (h : Hasher F U)
    (same_key : U → U → Bool) where
  -- What a finalization that returns has done.
  pub record IsClosed (s s' : BaseFinalization F U M) (rent_lamports fee_version compensation : ℕ)
      : Type (ℓ ⊔ κ ⊔ μ) where
    pub was_active : s.base_account.is_active ≡ true
    pub inactive : s'.base_account.is_active ≡ false
    pub emptied : s'.base_account_lamports ≡ 0
    pub kept_rent : rent_lamports ≤ s'.pool_lamports
    pub paid : s'.pool_lamports + compensation ≡ s.pool_lamports
    pub received :
        s'.fee_payer_lamports ≡ s.fee_payer_lamports + compensation + s.base_account_lamports
    pub enqueued :
        enqueue_commitment
          (h.to_u256 (result h s.base_account.state))
          s.base_account.metadata
          fee_version
          s.base_account.min_batching_rate
          s.accounts
        ≡ (s'.accounts, ok tt)

  -- A finalization that returns found the account active and of the fee version, and its fee payer the one
  -- given. It has enqueued the hash with the metadata and the account's rate, moved the compensation from
  -- the pool, which keeps its rent, and all lamports of the account to the fee payer, and ended the
  -- computation.
  pub finalize_base_commitment_hash-IsClosed :
      (fee : ProgramFee) (rent_lamports : ℕ) (payer : U) (s s' : BaseFinalization F U M)
      (fee_version : ℕ)
      → finalize_base_commitment_hash h same_key fee rent_lamports payer s fee_version ≡ ok s'
      → (compensation : ℕ) × (base_commitment_hash_computation_fee fee ≡ ok compensation)
        × (s.base_account.fee_version ≡ fee_version)
        × (same_key s.base_account.fee_payer payer ≡ true)
        × IsClosed s s' rent_lamports fee_version compensation
  unfolding finalize_base_commitment_hash
  finalize_base_commitment_hash-IsClosed fee rent_lamports payer s s' fee_version e =
      let a = s.base_account in
      let (u, g1, e) =
        >>=-eq-ok (guard (a.fee_version == fee_version) (from_elusiv invalid_fee_version)) _ e in
      let (u, g2, e) =
        >>=-eq-ok (guard a.is_active (from_elusiv computation_is_not_yet_started)) _ e in
      let (u, g3, e) =
        >>=-eq-ok (guard (same_key a.fee_payer payer) (from_elusiv invalid_account)) _ e in
      let (u, g4, e) =
        >>=-eq-ok (guard (a.instruction == 2) (from_elusiv computation_is_not_yet_finished)) _ e in
      let compensation = add_u64 (mul_u64 2 (hash_tx_compensation fee)) fee.lamports_per_tx in
      let (paid, p, e) =
        >>=-eq-ok
          (transfer_lamports_from_pda_checked rent_lamports s.pool_lamports s.fee_payer_lamports
            compensation)
          _ e in
      let out =
        enqueue_commitment (h.to_u256 (result h a.state)) a.metadata fee_version a.min_batching_rate
          s.accounts in
      let (done, o, e) = >>=-eq-ok out.1 _ e in
      let (closed, l, e) =
        >>=-eq-ok
          (transfer_lamports_from_pda s.base_account_lamports paid.1 s.base_account_lamports) _ e in
      let eq = ok_injective e in
      let (less, more, rent) =
        transfer_lamports_from_pda_checked_lem rent_lamports s.pool_lamports s.fee_payer_lamports
          compensation paid.0 paid.1 p in
      let (drained, all) =
        transfer_lamports_from_pda_lem s.base_account_lamports paid.1 s.base_account_lamports
          closed.0 closed.1 l in
      let pool : paid.0 ≡ s'.pool_lamports = ap (λ k. k.pool_lamports) eq in
      let gone : closed.0 ≡ s'.base_account_lamports = ap (λ k. k.base_account_lamports) eq in
      let got : closed.1 ≡ s'.fee_payer_lamports = ap (λ k. k.fee_payer_lamports) eq in
      let accounts : out.0 ≡ s'.accounts = ap (λ k. k.accounts) eq in
      (
        compensation,
        refl,
        (==_iff _ _).0 (guard-eq-ok _ _ g1),
        guard-eq-ok _ _ g3,
        record {
          was_active = guard-eq-ok _ _ g2;
          inactive = ap (λ k. k.base_account.is_active) (sym eq);
          emptied = omega (arith, drained, gone);
          kept_rent = omega (arith, rent, pool);
          paid = omega (arith, less, pool);
          received = omega (arith, more, all, got);
          enqueued = ap (λ x. (x, out.1)) accounts ∙ ap (λ r. (s'.accounts, r)) o;
        },
      )
