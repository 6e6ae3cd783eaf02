-- ===== src/Proof/Payout/Pool.antt =====
-- What the pool pays in the last instruction of a verification of lamports.
use elusiv.Base.{
  ltb, ◌==◌, if◌then◌else◌, Bool-cases, guard, ok_or, unwrap, map_err, from_elusiv, from_token,
  >>=-eq-ok, ok_injective, ok_or-eq-ok, >>=-ok, invalid_amount, invalid_account, invalid_recipient,
  ProgramError, ok, checked_sub, ℕ, ◌+◌, ◌≡◌, refl, subst, ◌≢◌, inl, inr, Bool, true, false, some,
  List, arith,
}
use elusiv.Token.{add_lamports}
use elusiv.Transfers.{Ledger, Environment, close_account, transfer_lamports_from_pda_checked}
use elusiv.Transfers.Drawn.{
  IsDrawn, IsDrawn-then, transfer_lamports_from_pda_checked-IsDrawn, close_account-IsDrawn,
}
use elusiv.Proof.{SendPublicInputs, ProofRequest, send, migrate, VerificationAccountData}
use elusiv.Proof.Sysvar.{InstructionsSysvar}
use elusiv.Proof.Fees.Covered.{map_err-eq-ok}
use elusiv.Proof.Payout.{
  PayoutAccounts, TransferInstructions, close_verification_pdas, enforce_last_transfer,
  pay_recipient_lamports, pay_amount, pay_optional_fee, collect_lamports, pay_request_lamports,
  pay_lamports_out,
}

-- A send with `solana_pay_transfer` takes the optional fee beside the whole amount.
unfoldable pub sent : ProofRequest → ℕ
sent (migrate q) = 0
sent (send q) =
    let j = q.join_split in
    if j.amount == 0
    then 0
    else if q.solana_pay_transfer
    then j.amount + j.optional_fee.amount
    else j.amount

-- The pool is none of the other accounts.
pub record IsApart (accounts : PayoutAccounts) : Type 0 where
  pub of_fee_payer : accounts.pool ≢ accounts.original_fee_payer
  pub of_recipient : accounts.pool ≢ accounts.recipient
  pub of_fee_collector : accounts.pool ≢ accounts.fee_collector
  pub of_optional_fee_collector : accounts.pool ≢ accounts.optional_fee_collector
  pub of_verification_account : accounts.pool ≢ accounts.verification_account
  pub of_duplicate_account : accounts.pool ≢ accounts.nullifier_duplicate_account

-- The fees of a verification that is paid for.
abbrev pub fees_of : VerificationAccountData → ℕ
fees_of d = d.commitment_hash_fee_token + d.proof_verification_fee + d.network_fee

sent_parts :
    (solana_pay : Bool) (whole fee left : ℕ)
    → checked_sub whole fee ≡ some left
    → (if solana_pay then whole else left) + fee ≡ (if solana_pay then whole + fee else whole)
sent_parts true whole fee left h = refl
sent_parts false whole fee left h = ground arith

added_fees : (a b sum : ℕ) → add_lamports a b ≡ ok sum → sum ≡ a + b
unfolding add_lamports
added_fees a b sum h = ground arith

four-IsDrawn :
    {T : Type 0} (pool : ℕ) (l l1 l2 l3 l' : Ledger T) (s fees network x y : ℕ)
    → fees ≡ x + y
    → IsDrawn pool l l1 s
    → IsDrawn pool l1 l2 fees
    → IsDrawn pool l2 l3 network
    → IsDrawn pool l3 l' 0
    → IsDrawn pool l l' (s + (x + y + network))
four-IsDrawn pool l l1 l2 l3 l' s fees network x y e a b c z =
    let a = a.drawn in
    let b = b.drawn in let c = c.drawn in let z = z.drawn in record { drawn = omega arith }

module _ {T : Type 0} (env : Environment T) (sysvar : InstructionsSysvar)
    (duplicate_address : List ℕ → ℕ) (instructions : TransferInstructions)
    (accounts : PayoutAccounts) (apart : IsApart accounts) where
  pay_optional_fee-IsDrawn :
      (q : SendPublicInputs) (l l' : Ledger T)
      → pay_optional_fee env sysvar duplicate_address instructions accounts q l ≡ ok l'
      → IsDrawn accounts.pool l l' (q.join_split.optional_fee.amount)
  unfolding pay_optional_fee
  pay_optional_fee-IsDrawn q l l' h = elim (Bool-cases (ltb 0 (q.join_split.optional_fee.amount))) [
    | inl p ↦
        let h = rw p at h in
        let (u, _, h) =
          >>=-eq-ok
            (guard (accounts.optional_fee_collector == q.join_split.optional_fee.collector)
              (from_elusiv invalid_account))
            _ h in
        transfer_lamports_from_pda_checked-IsDrawn accounts.pool env accounts.optional_fee_collector
          (q.join_split.optional_fee.amount) l l' apart.of_optional_fee_collector h
    | inr p ↦
        let h = rw p at h in
        let none_due : q.join_split.optional_fee.amount ≡ 0 = ground arith in
        subst (λ x. IsDrawn accounts.pool l x (q.join_split.optional_fee.amount)) (ok_injective h)
          (record { drawn = rw none_due (omega arith) })
  ]

  pay_amount-IsDrawn :
      (q : SendPublicInputs) (left : ℕ) (l l' : Ledger T)
      → pay_amount env sysvar duplicate_address instructions accounts q left l ≡ ok l'
      → IsDrawn accounts.pool l l' (if q.solana_pay_transfer then q.join_split.amount else left)
  unfolding pay_amount
  pay_amount-IsDrawn q left l l' h = elim (Bool-cases q.solana_pay_transfer) [
    | inr p ↦ rw p (
        transfer_lamports_from_pda_checked-IsDrawn accounts.pool env accounts.recipient left l l'
          apart.of_recipient (rw p at h))
    | inl p ↦
        let h = rw p at h in
        let (m, e, h) =
          >>=-eq-ok
            (transfer_lamports_from_pda_checked env accounts.pool accounts.original_fee_payer
              (q.join_split.amount) l)
            _ h in
        let (u, _, h) =
          >>=-eq-ok
            (enforce_last_transfer env sysvar duplicate_address instructions accounts
              (instructions.of_lamports accounts.original_fee_payer accounts.recipient left))
            _ h in
        let paid =
          transfer_lamports_from_pda_checked-IsDrawn accounts.pool env accounts.original_fee_payer
            (q.join_split.amount) l m apart.of_fee_payer e in
        rw p (subst (λ x. IsDrawn accounts.pool l x (q.join_split.amount)) (ok_injective h) paid)
  ]

  pay_recipient_lamports-IsDrawn :
      (d : VerificationAccountData) (q : SendPublicInputs) (l l' : Ledger T)
      → (q.join_split.amount == 0) ≡ false
      → pay_recipient_lamports env sysvar duplicate_address instructions accounts d q l ≡ ok l'
      → IsDrawn accounts.pool l l' (sent (send q))
  unfolding pay_recipient_lamports sent
  pay_recipient_lamports-IsDrawn d q l l' nonzero h =
      let fee = q.join_split.optional_fee.amount in
      let (wallet, _, h) = >>=-eq-ok (unwrap {E = ProgramError} d.recipient_wallet) _ h in
      let (u, _, h) =
        >>=-eq-ok (guard (accounts.recipient == wallet) (from_elusiv invalid_recipient)) _ h in
      let (left, e, h) =
        >>=-eq-ok (ok_or (checked_sub (q.join_split.amount) fee) (from_elusiv invalid_amount)) _
          h in
      let (m, f, h) =
        >>=-eq-ok (pay_amount env sysvar duplicate_address instructions accounts q left l) _ h in
      let less =
        ok_or-eq-ok (checked_sub (q.join_split.amount) fee) (from_elusiv invalid_amount) e in
      let both =
        IsDrawn-then accounts.pool l m l'
          (if q.solana_pay_transfer then q.join_split.amount else left) fee
          (pay_amount-IsDrawn q left l m f) (pay_optional_fee-IsDrawn q m l' h) in
      rw nonzero (
        subst (IsDrawn accounts.pool l l')
          (sent_parts q.solana_pay_transfer (q.join_split.amount) fee left less) both)

  pay_request_lamports-IsDrawn :
      (d : VerificationAccountData) (request : ProofRequest) (l l' : Ledger T)
      → pay_request_lamports env sysvar duplicate_address instructions accounts d request l ≡ ok l'
      → IsDrawn accounts.pool l l' (sent request)
  unfolding pay_request_lamports sent
  pay_request_lamports-IsDrawn d (migrate q) l l' h =
      subst (λ x. IsDrawn accounts.pool l x 0) (ok_injective h) (record { drawn = omega arith })
  pay_request_lamports-IsDrawn d (send q) l l' h = elim (Bool-cases (q.join_split.amount == 0)) [
    | inl p ↦
        let zero_sent : ltb 0 (q.join_split.amount) ≡ false = ground arith in
        rw p (
          subst (λ x. IsDrawn accounts.pool l x 0) (ok_injective (rw zero_sent at h))
            (record { drawn = omega arith }))
    | inr p ↦
        let some_sent : ltb 0 (q.join_split.amount) ≡ true = ground arith in
        pay_recipient_lamports-IsDrawn d q l l' p (rw some_sent at h)
  ]

  close_verification_pdas-IsDrawn :
      (beneficiary : ℕ) (skipped : Bool) (l l' : Ledger T)
      → accounts.pool ≢ beneficiary
      → close_verification_pdas beneficiary accounts.verification_account
          accounts.nullifier_duplicate_account skipped l
        ≡ ok l'
      → IsDrawn accounts.pool l l' 0
  unfolding close_verification_pdas
  close_verification_pdas-IsDrawn beneficiary true l l' other h =
      let (m, e, h) = >>=-eq-ok (close_account beneficiary accounts.verification_account l) _ h in
      let first =
        close_account-IsDrawn accounts.pool beneficiary _ l m apart.of_verification_account other
          e in
      subst (λ x. IsDrawn accounts.pool l x 0) (ok_injective h) first
  close_verification_pdas-IsDrawn beneficiary false l l' other h =
      let (m, e, h) = >>=-eq-ok (close_account beneficiary accounts.verification_account l) _ h in
      let first =
        close_account-IsDrawn accounts.pool beneficiary _ l m apart.of_verification_account other
          e in
      let second =
        close_account-IsDrawn accounts.pool beneficiary _ m l' apart.of_duplicate_account other h in
      IsDrawn-then accounts.pool l m l' 0 0 first second

  pub pay_lamports_out-IsDrawn :
      (d : VerificationAccountData) (request : ProofRequest) (l l' : Ledger T)
      → pay_lamports_out env sysvar duplicate_address instructions accounts d request l ≡ ok l'
      → IsDrawn accounts.pool l l' (sent request + fees_of d)
  unfolding pay_lamports_out add_lamports
  pay_lamports_out-IsDrawn d request l l' h =
      let (l1, e, h) =
        >>=-eq-ok
          (pay_request_lamports env sysvar duplicate_address instructions accounts d request l) _
          h in
      let (fees, f, h) =
        >>=-eq-ok
          (map_err from_token (add_lamports d.commitment_hash_fee_token d.proof_verification_fee)) _
          h in
      let (l2, g, h) =
        >>=-eq-ok
          (transfer_lamports_from_pda_checked env accounts.pool accounts.original_fee_payer fees l1)
          _ h in
      let (l3, k, h) =
        >>=-eq-ok
          (transfer_lamports_from_pda_checked env accounts.pool accounts.fee_collector d.network_fee
            l2)
          _ h in
      let a = pay_request_lamports-IsDrawn d request l l1 e in
      let b =
        transfer_lamports_from_pda_checked-IsDrawn accounts.pool env accounts.original_fee_payer
          fees l1 l2 apart.of_fee_payer g in
      let c =
        transfer_lamports_from_pda_checked-IsDrawn accounts.pool env accounts.fee_collector
          d.network_fee l2 l3 apart.of_fee_collector k in
      let z =
        close_verification_pdas-IsDrawn accounts.original_fee_payer d.skip_nullifier_pda l3 l'
          apart.of_fee_payer h in
      let summed = added_fees d.commitment_hash_fee_token d.proof_verification_fee fees (
        map_err-eq-ok from_token (add_lamports d.commitment_hash_fee_token d.proof_verification_fee)
          f) in
      four-IsDrawn accounts.pool l l1 l2 l3 l' (sent request) fees d.network_fee
        d.commitment_hash_fee_token d.proof_verification_fee summed a b c z

  pub collect_lamports-IsDrawn :
      (d : VerificationAccountData) (l l' : Ledger T)
      → collect_lamports env sysvar duplicate_address instructions accounts d l ≡ ok l'
      → IsDrawn accounts.pool l l' (d.subvention + d.commitment_hash_fee)
  unfolding collect_lamports close_verification_pdas
  collect_lamports-IsDrawn d l l' h =
      let (l1, e, h) =
        >>=-eq-ok (close_account accounts.fee_collector accounts.verification_account l) _ h in
      let (l2, f, h) =
        >>=-eq-ok
          (if d.skip_nullifier_pda
            then ok l1
            else close_account accounts.fee_collector accounts.nullifier_duplicate_account l1)
          _ h in
      let (l3, g, h) =
        >>=-eq-ok
          (transfer_lamports_from_pda_checked env accounts.pool accounts.fee_collector d.subvention
            l2)
          _ h in
      let closed : IsDrawn accounts.pool l l2 0 =
        close_verification_pdas-IsDrawn accounts.fee_collector d.skip_nullifier_pda l l2
          apart.of_fee_collector (>>=-ok _ e f) in
      let b =
        transfer_lamports_from_pda_checked-IsDrawn accounts.pool env accounts.fee_collector
          d.subvention l2 l3 apart.of_fee_collector g in
      let c =
        transfer_lamports_from_pda_checked-IsDrawn accounts.pool env accounts.fee_collector
          d.commitment_hash_fee l3 l' apart.of_fee_collector h in
      let z : 0 + (d.subvention + d.commitment_hash_fee) ≡ d.subvention + d.commitment_hash_fee =
        omega arith in
      subst (IsDrawn accounts.pool l l') z (
        IsDrawn-then accounts.pool l l2 l' 0 (d.subvention + d.commitment_hash_fee) closed
          (IsDrawn-then accounts.pool l2 l3 l' d.subvention d.commitment_hash_fee b c))
