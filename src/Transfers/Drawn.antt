-- ===== src/Transfers/Drawn.antt =====
-- What a transfer of lamports takes from the account that pays.
use elusiv.Base.{
  leb, guard, ok_or, math_err, >>=-eq-ok, ok_injective, ok_or-eq-ok, account_not_rent_exempt, ok,
  u64_mod, checked_add, checked_sub, ℕ, ◌+◌, ◌≡◌, subst, ◌≢◌, arith,
}
use elusiv.Transfers.{
  Ledger, Environment, with_value, transfer_lamports_from_pda, transfer_lamports_from_pda_checked,
  close_account,
}

module _ {T : Type 0} (pool : ℕ) where
  -- The pool has paid that much.
  pub record IsDrawn (l l' : Ledger T) (lamports : ℕ) : Type 0 where
    pub drawn : l.lamports pool ≡ l'.lamports pool + lamports

  pub transfer_lamports_from_pda-IsDrawn :
      (recipient lamports : ℕ) (l l' : Ledger T)
      → pool ≢ recipient
      → transfer_lamports_from_pda pool recipient lamports l ≡ ok l'
      → IsDrawn l l' lamports
  unfolding transfer_lamports_from_pda
  transfer_lamports_from_pda-IsDrawn recipient lamports l l' apart h =
      let (left, e, h) = >>=-eq-ok (ok_or (checked_sub (l.lamports pool) lamports) math_err) _ h in
      let paid = with_value l.lamports pool left in
      let (reached, f, h) =
        >>=-eq-ok (ok_or (checked_add u64_mod (paid recipient) lamports) math_err) _ h in
      let same : with_value paid recipient reached pool ≡ left = ground arith in
      let sub = ok_or-eq-ok (checked_sub (l.lamports pool) lamports) math_err e in
      let dif : l.lamports pool ≡ left + lamports = ground arith in
      subst (λ x. IsDrawn l x lamports) (ok_injective h) (record { drawn = rw same dif })

  -- A transfer between other accounts leaves the pool alone.
  pub transfer_lamports_from_pda_apart :
      (pda recipient lamports : ℕ) (l l' : Ledger T)
      → pool ≢ pda
      → pool ≢ recipient
      → transfer_lamports_from_pda pda recipient lamports l ≡ ok l'
      → IsDrawn l l' 0
  unfolding transfer_lamports_from_pda
  transfer_lamports_from_pda_apart pda recipient lamports l l' other apart h =
      let (left, e, h) = >>=-eq-ok (ok_or (checked_sub (l.lamports pda) lamports) math_err) _ h in
      let paid = with_value l.lamports pda left in
      let (reached, f, h) =
        >>=-eq-ok (ok_or (checked_add u64_mod (paid recipient) lamports) math_err) _ h in
      let same : with_value paid recipient reached pool ≡ l.lamports pool = ground arith in
      subst (λ x. IsDrawn l x 0) (ok_injective h) (record { drawn = rw same (omega arith) })

  pub close_account-IsDrawn :
      (payer account : ℕ) (l l' : Ledger T)
      → pool ≢ account
      → pool ≢ payer
      → close_account payer account l ≡ ok l'
      → IsDrawn l l' 0
  unfolding close_account
  close_account-IsDrawn payer account l l' =
      transfer_lamports_from_pda_apart account payer (l.lamports account) l l'

  pub IsDrawn-then :
      (l m n : Ledger T) (a b : ℕ) → IsDrawn l m a → IsDrawn m n b → IsDrawn l n (a + b)
  IsDrawn-then l m n a b p q = let x = p.drawn in let y = q.drawn in record { drawn = omega arith }

  pub transfer_lamports_from_pda_checked-IsDrawn :
      (env : Environment T) (recipient lamports : ℕ) (l l' : Ledger T)
      → pool ≢ recipient
      → transfer_lamports_from_pda_checked env pool recipient lamports l ≡ ok l'
      → IsDrawn l l' lamports
  unfolding transfer_lamports_from_pda_checked
  transfer_lamports_from_pda_checked-IsDrawn env recipient lamports l l' apart h =
      let (rent, _, h) = >>=-eq-ok (env.minimum_balance (l.data_len pool)) _ h in
      let (left, _, h) = >>=-eq-ok (ok_or (checked_sub (l.lamports pool) lamports) math_err) _ h in
      let (u, _, h) = >>=-eq-ok (guard (leb rent left) account_not_rent_exempt) _ h in
      transfer_lamports_from_pda-IsDrawn recipient lamports l l' apart h
