-- ===== src/Warden/Proposals/Tests.antt =====
-- The first proposal.
use elusiv.Base.{invalid_argument, ok, ◌≡◌, refl, none, [], arith}
use elusiv.Warden.Registry.{with_account, open_account}
use elusiv.Warden.Proposals.{
  ApaProposal, ApaProposals, default_role, flag1, check_token_constraint, propose_apa_proposal,
}
use elusiv.Warden.Proposals.Sequence.{IsSequence, IsProposed, propose_apa_proposal-IsSequence}

abbrev no_proposals : ApaProposals
no_proposals = record {
  number_of_proposals = 0;
  proposal_accounts = λ id. none;
  target_map_accounts = λ target. none;
}

abbrev proposal : ApaProposal
proposal = record {
  proponent = 0;
  proponent_role = default_role;
  timestamp = 0;
  target = 4;
  level = flag1;
  token_constraint = none;
  reason = 1;
}

abbrev one_proposal : ApaProposals
one_proposal = record {
  number_of_proposals = 1;
  proposal_accounts =
      with_account (λ id. none) 0 (record proposal { proponent = 9; timestamp = 1000 });
  target_map_accounts = λ target. none;
}

propose_test :
    propose_apa_proposal invalid_argument [] no_proposals 9 1 0 (ok none) (ok 1000) 0 proposal
    ≡ ok one_proposal
unfolding propose_apa_proposal check_token_constraint open_account
propose_test = refl

no_proposals_test : IsSequence no_proposals
no_proposals_test = record { below = λ id h. absurd (omega arith); above = λ id h. refl }

propose_apa_proposal-IsSequence_example :
    IsSequence one_proposal × IsProposed no_proposals one_proposal 9
propose_apa_proposal-IsSequence_example =
    propose_apa_proposal-IsSequence invalid_argument [] no_proposals one_proposal 9 1 0 0 (ok none)
      (ok 1000) proposal no_proposals_test propose_test
