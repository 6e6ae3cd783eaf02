-- ===== src/Proof/Fees/Covered.antt =====
-- The fee of a request covers what its verification costs.
use elusiv.Base.{
  leb, ◌==◌, leb→le, ◌>>=◌, guard, ok_or, map_err, from_elusiv, from_token, >>=-eq-ok, guard-eq-ok,
  ok_injective, ok_or-eq-ok, invalid_account, invalid_account_state, invalid_fee,
  invalid_fee_version, underflow, Result, ok, err, panic, checked_sub, ℕ, ◌+◌, ◌≤◌, ◌≡◌, refl,
  subst, true, some, arith,
}
use elusiv.Token.{Token, add, sub, amount, new, enforce_token_equality}
use elusiv.Token.Amounts.{add_lem, new_lem}
use elusiv.Fee.{
  GovernorAccount, ProgramFee, calc, proof_verification_computation_fee,
  commitment_hash_computation_fee,
}
use elusiv.Transfers.{
  Ledger, Environment, TokenPrice, new_token_price, verify_program_token_account,
  verify_token_account,
}
use elusiv.Proof.{
  fee_transferred, join_split_inputs, request_fee_version, VerificationAccount,
  VerificationAccountData, JoinSplitPublicInputs,
}
use elusiv.Proof.Fees.{
  FeeAccounts, VerificationFees, into_token, verification_fees, recipient_rent, transfer_fees,
  is_initialized, init_verification_transfer_fee,
}

taken : (a b c : ℕ) → checked_sub a b ≡ some c → a ≡ c + b
taken a b c h = ground arith

sub_amount : (x y z : Token) → sub x y ≡ ok z → amount x ≡ amount z + amount y
unfolding sub
sub_amount x y z h =
    let (id, e, h) = >>=-eq-ok (enforce_token_equality x y) _ h in
    let (n, f, h) = >>=-eq-ok (ok_or (checked_sub (amount x) (amount y)) underflow) _ h in
    let (_, a) = new_lem id n z h in
    rw a
      (taken (amount x) (amount y) n (ok_or-eq-ok (checked_sub (amount x) (amount y)) underflow f))

pub map_err-eq-ok {ℓ} :
    {E F : Type 0} {A : Type ℓ} (f : E → F) (r : Result E A) {a : A} → map_err f r ≡ ok a → r ≡ ok a
map_err-eq-ok f (ok b) h = cc
map_err-eq-ok f (err e) h = cc
map_err-eq-ok f panic h = cc

due_covered :
    (hash_fee verification_fee network_fee subvention x y due : Token) (joined_fee : ℕ)
    → add hash_fee verification_fee ≡ ok x
    → add x network_fee ≡ ok y
    → sub y subvention ≡ ok due
    → leb (amount due) joined_fee ≡ true
    → amount hash_fee + amount verification_fee + amount network_fee
      ≤ joined_fee + amount subvention
due_covered hash_fee verification_fee network_fee subvention x y due joined_fee e f g p =
    let le = leb→le (amount due) joined_fee p in
    let (_, _, sum, _) = add_lem hash_fee verification_fee x e in
    let (_, _, total, _) = add_lem x network_fee y f in
    let left = sub_amount y subvention due g in omega arith

verification_fees_covered :
    (price : TokenPrice) (fee : ProgramFee) (rate tx_count token_id joined_amount joined_fee : ℕ)
    (fees : VerificationFees)
    → verification_fees price fee rate tx_count token_id joined_amount joined_fee ≡ ok fees
    → amount fees.hash_fee_token + amount fees.verification_fee + amount fees.network_fee
      ≤ joined_fee + amount fees.subvention
unfolding verification_fees
verification_fees_covered price fee rate tx_count token_id joined_amount joined_fee fees h =
    let (subvention, _, h) = >>=-eq-ok (into_token price fee.proof_subvention token_id) _ h in
    let (verification_fee, _, h) =
      >>=-eq-ok
        (proof_verification_computation_fee fee tx_count >>= λ computation_fee.
          into_token price computation_fee token_id)
        _ h in
    let (hash_fee, _, h) = >>=-eq-ok (commitment_hash_computation_fee fee rate) _ h in
    let (hash_fee_token, _, h) = >>=-eq-ok (into_token price hash_fee token_id) _ h in
    let (network_fee, _, h) =
      >>=-eq-ok (map_err from_token (new token_id (calc fee.proof_network_fee joined_amount))) _
        h in
    let (x, e, h) = >>=-eq-ok (map_err from_token (add hash_fee_token verification_fee)) _ h in
    let (y, f, h) = >>=-eq-ok (map_err from_token (add x network_fee)) _ h in
    let (due, g, h) = >>=-eq-ok (map_err from_token (sub y subvention)) _ h in
    let (u, p, h) = >>=-eq-ok (guard (leb (amount due) joined_fee) (from_elusiv invalid_fee)) _ h in
    subst
      (λ q.
        amount q.hash_fee_token + amount q.verification_fee + amount q.network_fee
        ≤ joined_fee + amount q.subvention)
      (ok_injective h)
      (due_covered hash_fee_token verification_fee network_fee subvention x y due joined_fee
        (map_err-eq-ok from_token (add hash_fee_token verification_fee) e)
        (map_err-eq-ok from_token (add x network_fee) f)
        (map_err-eq-ok from_token (sub y subvention) g)
        (guard-eq-ok (leb (amount due) joined_fee) (from_elusiv invalid_fee) p))

-- What the pool will pay for the verification is at most the fee of the request and the subvention.
pub record IsCovered (j : JoinSplitPublicInputs) (d : VerificationAccountData) : Type 0 where
  pub covered :
      d.commitment_hash_fee_token + d.proof_verification_fee + d.network_fee ≤ j.fee + d.subvention

pub record IsCharged {P C : Type 0} (s : VerificationAccount P C) : Type 0 where
  pub state : s.state ≡ fee_transferred
  pub enough : IsCovered (join_split_inputs s.request) s.other_data

pub charged :
    {T P C : Type 0} (env : Environment T) (a : FeeAccounts) (governor : GovernorAccount)
    (s s' : VerificationAccount P C) (l l' : Ledger T)
    → init_verification_transfer_fee env a governor s l ≡ ok (s', l')
    → IsCharged s'
unfolding init_verification_transfer_fee
charged env a governor s s' l l' h =
    let j = join_split_inputs s.request in
    let (u, _, h) =
      >>=-eq-ok (guard (is_initialized s.state) (from_elusiv invalid_account_state)) _ h in
    let (u, _, h) =
      >>=-eq-ok (guard (s.other_data.fee_payer == a.fee_payer) (from_elusiv invalid_account)) _ h in
    let (u, _, h) =
      >>=-eq-ok
        (guard (request_fee_version s.request == governor.fee_version)
          (from_elusiv invalid_fee_version))
        _ h in
    let (price, _, h) =
      >>=-eq-ok (new_token_price env a.sol_usd_price_account a.token_usd_price_account j.token_id) _
        h in
    let (fees, e, h) =
      >>=-eq-ok
        (verification_fees price governor.program_fee governor.commitment_batching_rate
          s.prepare_inputs_instructions_count j.token_id j.amount j.fee)
        _ h in
    let (u, _, h) =
      >>=-eq-ok (verify_program_token_account env a.pool a.pool_account j.token_id) _ h in
    let (u, _, h) =
      >>=-eq-ok
        (verify_program_token_account env a.fee_collector a.fee_collector_account j.token_id) _ h in
    let (rent, _, h) = >>=-eq-ok (recipient_rent env price j.token_id s.request) _ h in
    let (m, _, h) = >>=-eq-ok (transfer_fees env a fees rent.0 l) _ h in
    let (valid, _, h) =
      >>=-eq-ok (verify_token_account env m a.fee_payer_token_account j.token_id) _ h in
    let (u, _, h) = >>=-eq-ok (guard valid (from_elusiv invalid_account)) _ h in
    let c =
      verification_fees_covered price governor.program_fee governor.commitment_batching_rate
        s.prepare_inputs_instructions_count j.token_id j.amount j.fee fees e in
    let same = ok_injective h in
    subst (λ x. IsCharged x.0) same (record { state = refl; enough = record { covered = c } })

-- After init_verification_transfer_fee has returned, the hashing fee, the verification fee and the network
-- fee that the account keeps are together at most the fee of the request and the subvention.
pub init_verification_transfer_fee-IsCovered :
    {T P C : Type 0} (env : Environment T) (a : FeeAccounts) (governor : GovernorAccount)
    (s s' : VerificationAccount P C) (l l' : Ledger T)
    → init_verification_transfer_fee env a governor s l ≡ ok (s', l')
    → IsCovered (join_split_inputs s'.request) s'.other_data
init_verification_transfer_fee-IsCovered env a governor s s' l l' h =
    (charged env a governor s s' l l' h).enough
