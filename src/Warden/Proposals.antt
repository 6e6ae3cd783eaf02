-- ===== src/Warden/Proposals.antt =====
-- elusiv-warden-network/src/apa.rs and src/processor/apa.rs: the proposals, each in an account of its own
-- whose seed is its id; and the registration of an operator, src/processor/operator.rs. A reason, a url
-- and an identifier are numbers.
pub mod Sequence
mod Tests
use elusiv.Base.{
  ltb, leb, ◌==◌, if◌then◌else◌, length, ◌>>=◌, ◌>>◌, guard, ok_or, map_err, from_token,
  from_warden, proposal_error, ProgramError, Result, ok, u32_mod, checked_add, ℕ, ◌-◌, Option, none,
  some, List,
}
use elusiv.Token.{ElusivToken, elusiv_token}
use elusiv.Warden.Registry.{open_account}

pub data ApaLevel : Type 0 where
  flag1 flag2 outcast : ApaLevel

pub data ApaProponentRole : Type 0 where
  default_role token_freezing_authority : ApaProponentRole

pub record ApaProposal : Type 0 where
  pub proponent : ℕ
  pub proponent_role : ApaProponentRole
  pub timestamp : ℕ
  pub target : ℕ
  pub level : ApaLevel
  pub token_constraint : Option ℕ
  pub reason : ℕ

pub record ApaProposals : Type 0 where
  pub number_of_proposals : ℕ
  pub proposal_accounts : ℕ → Option ApaProposal
  pub target_map_accounts : ℕ → Option (Option ℕ)

-- The checks of a proponent that claims to be the token's freezing authority. `freeze_authority` is what
-- the SPL token program's unpacking of the mint's data gives.
unfoldable pub check_freezing_authority :
    List ElusivToken → Result ProgramError (Option ℕ) → ℕ → ℕ → ℕ → Result ProgramError (Unit {0})
unfolding elusiv_token
check_freezing_authority tokens freeze_authority token_mint proponent token_id = do
  token ← map_err from_token (elusiv_token tokens token_id)
  guard (token_mint == token.mint) (from_warden proposal_error)
  guard (ltb 0 token_id) (from_warden proposal_error)
  authority ← freeze_authority
  key ← ok_or authority (from_warden proposal_error)
  guard (key == proponent) (from_warden proposal_error)

unfoldable pub check_token_constraint :
    List ElusivToken
    → Result ProgramError (Option ℕ)
    → ℕ
    → ApaProposal
    → Result ProgramError (Unit {0})
unfolding check_freezing_authority
check_token_constraint tokens freeze_authority token_mint p = elim p.token_constraint [
  | none ↦ ok tt
  | some id ↦
      guard (leb id (length tokens - 1)) (from_warden proposal_error) >> elim p.proponent_role [
        | default_role ↦ ok tt
        | token_freezing_authority ↦
            check_freezing_authority tokens freeze_authority token_mint p.proponent id
      ]
]

module _ (account_in_use : ProgramError) (tokens : List ElusivToken) where
  -- `target_lamports` are those of the map account of the target.
  unfoldable pub propose_apa_proposal :
      ApaProposals
      → ℕ
      → ℕ
      → ℕ
      → Result ProgramError (Option ℕ)
      → Result ProgramError ℕ
      → ℕ
      → ApaProposal
      → Result ProgramError ApaProposals
  unfolding check_token_constraint open_account
  propose_apa_proposal a proponent target_lamports token_mint freeze_authority current_timestamp
        proposal_id proposal =
      do
        guard (proposal_id == a.number_of_proposals) (from_warden proposal_error)
        now ← current_timestamp
        let p : ApaProposal = record proposal { timestamp = now; proponent = proponent }
        check_token_constraint tokens freeze_authority token_mint p
        accounts ← open_account account_in_use a.proposal_accounts proposal_id p
        targets ←
            (if target_lamports == 0
              then open_account account_in_use a.target_map_accounts p.target none
              else ok a.target_map_accounts)
        number ← ok_or (checked_add u32_mod a.number_of_proposals 1) (from_warden proposal_error)
        ok (record {
          number_of_proposals = number;
          proposal_accounts = accounts;
          target_map_accounts = targets;
        })

pub record WardenOperator : Type 0 where
  pub key : ℕ
  pub ident : ℕ
  pub url : ℕ
  pub jurisdiction : Option ℕ

-- The new account's bytes are zero, and the key stays so.
unfoldable pub register_warden_operator :
    ProgramError
    → (ℕ → Option WardenOperator)
    → ℕ
    → ℕ
    → ℕ
    → Option ℕ
    → Result ProgramError (ℕ → Option WardenOperator)
unfolding open_account
register_warden_operator account_in_use operators operator ident url jurisdiction =
    open_account account_in_use operators operator
      (record { key = 0; ident = ident; url = url; jurisdiction = jurisdiction })
