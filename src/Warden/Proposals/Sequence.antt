-- ===== src/Warden/Proposals/Sequence.antt =====
-- The ids of the proposals follow each other.
use elusiv.Base.{
  ◌==◌, if◌then◌else◌, ==_iff, guard, ok_or, >>=-eq-ok, guard-eq-ok, ok_injective, ok_or-eq-ok,
  ProgramError, Result, ok, u32_mod, checked_add, ℕ, ◌+◌, ◌≤◌, ◌<◌, ◌≡◌, refl, sym, ap, ◌∙◌, subst,
  ◌≢◌, Option, none, some, List, arith, ℕ_discrete,
}
use elusiv.Token.{ElusivToken}
use elusiv.Warden.Registry.{open_account}
use elusiv.Warden.Membership.{with_account_self, with_account_other, open_account_lem}
use elusiv.Warden.Proposals.{
  ApaProposal, ApaProposals, check_token_constraint, propose_apa_proposal,
}

-- The accounts with an id below the number of proposals exist, and no others.
pub record IsSequence (a : ApaProposals) : Type 0 where
  pub below :
      (id : ℕ) → id < a.number_of_proposals → (p : ApaProposal) × (a.proposal_accounts id ≡ some p)
  pub above : (id : ℕ) → a.number_of_proposals ≤ id → a.proposal_accounts id ≡ none

-- What a proposal that is accepted adds.
pub record IsProposed (a a' : ApaProposals) (proponent : ℕ) : Type 0 where
  pub counted : a'.number_of_proposals ≡ a.number_of_proposals + 1
  pub stored : ApaProposal
  pub at_number : a'.proposal_accounts a.number_of_proposals ≡ some stored
  pub by_proponent : stored.proponent ≡ proponent
  pub others :
      (id : ℕ) → id ≢ a.number_of_proposals → a'.proposal_accounts id ≡ a.proposal_accounts id

checked_next : (m a c : ℕ) → checked_add m a 1 ≡ some c → c ≡ a + 1
checked_next m a c h = ground arith

module _ (account_in_use : ProgramError) (tokens : List ElusivToken) where
  propose_parts :
      (a a' : ApaProposals) (proponent lamports mint id : ℕ)
      (authority : Result ProgramError (Option ℕ)) (now : Result ProgramError ℕ) (p : ApaProposal)
      → propose_apa_proposal account_in_use tokens a proponent lamports mint authority now id p
        ≡ ok a'
      → IsProposed a a' proponent
  unfolding propose_apa_proposal
  propose_parts a a' proponent lamports mint id authority now p h =
      let (u, g, h) = >>=-eq-ok (guard (id == a.number_of_proposals) _) _ h in
      let this : id ≡ a.number_of_proposals =
        (==_iff _ _).0 (guard-eq-ok (id == a.number_of_proposals) _ g) in
      let (time, e, h) = >>=-eq-ok now _ h in
      let q : ApaProposal = record p { timestamp = time; proponent = proponent } in
      let (u, e, h) = >>=-eq-ok (check_token_constraint tokens authority mint q) _ h in
      let (accounts, e, h) = >>=-eq-ok (open_account account_in_use a.proposal_accounts id q) _ h in
      let (fresh, eq) = open_account_lem account_in_use a.proposal_accounts accounts id q e in
      let (targets, e, h) =
        >>=-eq-ok
          (if lamports == 0
            then open_account account_in_use a.target_map_accounts p.target none
            else ok a.target_map_accounts)
          _ h in
      let (number, e, h) = >>=-eq-ok (ok_or (checked_add u32_mod a.number_of_proposals 1) _) _ h in
      let next = checked_next u32_mod a.number_of_proposals number (ok_or-eq-ok _ _ e) in
      subst (λ k. IsProposed a k proponent) (ok_injective h)
        (record {
          counted = next;
          stored = q;
          at_number =
              ap accounts (sym this)
              ∙ ap (λ k. k id) eq
              ∙ with_account_self a.proposal_accounts id q;
          by_proponent = refl;
          others = λ j ne.
              ap (λ k. k j) eq
              ∙ with_account_other a.proposal_accounts id j q (λ same. ne (same ∙ this));
        })

  -- A proposal that is accepted keeps the ids in sequence: the account with the next id is opened for the
  -- signer's proposal, and every other proposal stays as it was.
  pub propose_apa_proposal-IsSequence :
      (a a' : ApaProposals) (proponent lamports mint id : ℕ)
      (authority : Result ProgramError (Option ℕ)) (now : Result ProgramError ℕ) (p : ApaProposal)
      → IsSequence a
      → propose_apa_proposal account_in_use tokens a proponent lamports mint authority now id p
        ≡ ok a'
      → IsSequence a' × IsProposed a a' proponent
  propose_apa_proposal-IsSequence a a' proponent lamports mint id authority now p s h =
      let d = propose_parts a a' proponent lamports mint id authority now p h in
      (
        record {
          below = λ j l. elim (ℕ_discrete j a.number_of_proposals) [
            | yes new ↦ (d.stored, ap a'.proposal_accounts new ∙ d.at_number)
            | no old ↦ let (x, e) = s.below j (omega (arith, d.counted)) in (x, d.others j old ∙ e)
          ];
          above = λ j l.
              d.others j (λ same. omega (arith, d.counted)) ∙ s.above j (omega (arith, d.counted));
        },
        d,
      )
