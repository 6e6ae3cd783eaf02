-- ===== src/Transfers.antt =====
-- elusiv/src/processor/utils.rs, the transfers of shared/elusiv-utils/src/lib.rs, and the checks and prices of
-- shared/elusiv-types/src/tokens.rs: lamports and tokens that move between accounts. The lamports and the
-- owner of an account are found by its key, so an account that is passed twice is one account. The programs
-- that are invoked, the rent and the conversions of the oracle's prices are parameters.
pub mod Drawn
use elusiv.Base.{
  leb, ◌==◌, if◌then◌else◌, ◌>>=◌, ◌>>◌, guard, ok_or, map_err, from_elusiv, from_token, math_err,
  invalid_account, TokenError, invalid_token_id, invalid_price_account, ProgramError,
  incorrect_program_id, account_not_rent_exempt, Result, ok, err, u64_mod, checked_add, checked_sub,
  read, ℕ, Bool, true, false, not, List,
}
use elusiv.Token.{ElusivToken, Token, lamports_token, spl_token, elusiv_token}

-- `T` is the state of the token program.
pub record Ledger (T : Type 0) : Type 0 where
  pub lamports : ℕ → ℕ
  pub owner : ℕ → ℕ
  pub data_len : ℕ → ℕ
  pub tokens : T

pub data Invocation : Type 0 where
  system_transfer : ℕ → ℕ → ℕ → Invocation
  token_transfer : ℕ → ℕ → ℕ → ℕ → Bool → Invocation
  create_associated_account : ℕ → ℕ → ℕ → ℕ → Invocation

-- `mint_of` unpacks a token account. `price` loads the prices of lamports and of a token, and converts.
pub record Environment (T : Type 0) : Type 0 where
  pub program_id : ℕ
  pub spl_token_id : ℕ
  pub system_program_id : ℕ
  pub tokens_table : List ElusivToken
  pub minimum_balance : ℕ → Result ProgramError ℕ
  pub spl_account_len : ℕ
  pub invoke : Invocation → Ledger T → Result ProgramError (Ledger T)
  pub associated_token_address : ℕ → ℕ → ℕ
  pub mint_of : Ledger T → ℕ → Result ProgramError ℕ
  pub price : ℕ → ℕ → ℕ → Result ProgramError (ℕ → Result TokenError Token)

abbrev pub with_value : (ℕ → ℕ) → ℕ → ℕ → ℕ → ℕ
with_value f key value k = if k == key then value else f k

-- `TokenPrice`: the id of the token, and the conversion of lamports.
pub record TokenPrice : Type 0 where
  pub price_token_id : ℕ
  pub convert : ℕ → Result TokenError Token

unfoldable pub lamports_into_token : TokenPrice → ℕ → ℕ → Result TokenError Token
lamports_into_token p lamports token_id =
    if token_id == p.price_token_id
    then (if p.price_token_id == 0 then ok (lamports_token lamports) else p.convert lamports)
    else err invalid_token_id

module _ {T : Type 0} where
  unfoldable pub transfer_lamports_from_pda : ℕ → ℕ → ℕ → Ledger T → Result ProgramError (Ledger T)
  transfer_lamports_from_pda pda recipient lamports l = do
    left ← ok_or (checked_sub (l.lamports pda) lamports) math_err
    let paid = with_value l.lamports pda left
    reached ← ok_or (checked_add u64_mod (paid recipient) lamports) math_err
    ok (record l { lamports = with_value paid recipient reached })

  unfoldable pub close_account : ℕ → ℕ → Ledger T → Result ProgramError (Ledger T)
  unfolding transfer_lamports_from_pda
  close_account payer account l = transfer_lamports_from_pda account payer (l.lamports account) l

module _ {T : Type 0} (env : Environment T) where
  unfoldable pub transfer_lamports_from_pda_checked :
      ℕ → ℕ → ℕ → Ledger T → Result ProgramError (Ledger T)
  unfolding transfer_lamports_from_pda
  transfer_lamports_from_pda_checked pda recipient lamports l = do
    rent ← env.minimum_balance (l.data_len pda)
    left ← ok_or (checked_sub (l.lamports pda) lamports) math_err
    guard (leb rent left) account_not_rent_exempt
    transfer_lamports_from_pda pda recipient lamports l

  unfoldable pub transfer_with_system_program :
      ℕ → ℕ → ℕ → ℕ → Ledger T → Result ProgramError (Ledger T)
  transfer_with_system_program source destination system_program lamports l = do
    guard (system_program == env.system_program_id) incorrect_program_id
    env.invoke (system_transfer source destination lamports) l

  -- With the seeds of the source's address the program signs for it.
  unfoldable pub transfer_with_token_program :
      ℕ → ℕ → ℕ → ℕ → ℕ → Bool → Ledger T → Result ProgramError (Ledger T)
  transfer_with_token_program source source_token_account destination token_program amount signed
        l =
      guard (token_program == env.spl_token_id) (from_elusiv invalid_account) >>= λ _.
      guard (l.owner source_token_account == env.spl_token_id) (from_elusiv invalid_account)
      >>= λ _.
          guard (l.owner destination == env.spl_token_id) (from_elusiv invalid_account) >>= λ _.
          env.invoke (token_transfer source_token_account destination source amount signed) l

  unfoldable pub transfer_token : ℕ → ℕ → ℕ → ℕ → Token → Ledger T → Result ProgramError (Ledger T)
  unfolding transfer_with_system_program transfer_with_token_program
  transfer_token source source_account destination token_program (lamports_token a) =
      transfer_with_system_program source destination token_program a
  transfer_token source source_account destination token_program (spl_token id a) =
      transfer_with_token_program source source_account destination token_program a false

  unfoldable pub transfer_amount_from_pda :
      ℕ → ℕ → ℕ → ℕ → Token → Ledger T → Result ProgramError (Ledger T)
  unfolding transfer_lamports_from_pda_checked transfer_with_token_program
  transfer_amount_from_pda source source_account destination token_program (lamports_token a) =
      transfer_lamports_from_pda_checked source destination a
  transfer_amount_from_pda source source_account destination token_program (spl_token id a) =
      transfer_with_token_program source source_account destination token_program a true

  unfoldable pub transfer_token_from_pda :
      ℕ → ℕ → ℕ → ℕ → Token → Ledger T → Result ProgramError (Ledger T)
  unfolding transfer_amount_from_pda
  transfer_token_from_pda source source_account destination token_program token l = do
    guard (l.owner source == env.program_id) (from_elusiv invalid_account)
    transfer_amount_from_pda source source_account destination token_program token l

  unfoldable pub token_of : ℕ → Result ProgramError ElusivToken
  unfolding elusiv_token
  token_of token_id = map_err from_token (elusiv_token env.tokens_table token_id)

  unfoldable pub create_associated_token_account :
      ℕ → ℕ → ℕ → ℕ → Ledger T → Result ProgramError (Ledger T)
  unfolding token_of
  create_associated_token_account payer wallet account token_id l = do
    token ← token_of token_id
    env.invoke (create_associated_account payer wallet account token.mint) l

  unfoldable pub verify_associated_token_account : ℕ → ℕ → ℕ → Result ProgramError Bool
  unfolding token_of
  verify_associated_token_account wallet token_account token_id =
      if token_id == 0
      then ok (wallet == token_account)
      else (token_of token_id >>= λ token.
          ok (token_account == env.associated_token_address wallet token.mint))

  unfoldable pub verify_program_token_account : ℕ → ℕ → ℕ → Result ProgramError (Unit {0})
  unfolding token_of
  verify_program_token_account owner_pda token_account token_id =
      if token_id == 0
      then guard (owner_pda == token_account) (from_elusiv invalid_account)
      else (token_of token_id >>= λ token.
          guard (env.associated_token_address owner_pda token.mint == token_account)
            (from_elusiv invalid_account))

  unfoldable pub verify_token_account : Ledger T → ℕ → ℕ → Result ProgramError Bool
  unfolding token_of
  verify_token_account l account token_id =
      if token_id == 0
      then ok (not (l.owner account == env.spl_token_id))
      else if l.owner account == env.spl_token_id
      then (do mint ← env.mint_of l account; token ← token_of token_id; ok (mint == token.mint))
      else ok false

  abbrev pub system_program_account_rent : Result ProgramError ℕ
  system_program_account_rent = env.minimum_balance 0

  abbrev pub spl_token_account_rent : Result ProgramError ℕ
  spl_token_account_rent = env.minimum_balance env.spl_account_len

  -- `TokenPrice::new`.
  unfoldable pub new_token_price : ℕ → ℕ → ℕ → Result ProgramError TokenPrice
  new_token_price sol_usd_price_account token_usd_price_account token_id =
      if token_id == 0
      then ok (record { price_token_id = 0; convert = λ lamports. ok (lamports_token lamports) })
      else (do
        sol ← read env.tokens_table 0
        token ← read env.tokens_table token_id
        guard (sol.pyth_usd_price_key == sol_usd_price_account) (from_token invalid_price_account)
        guard (token.pyth_usd_price_key == token_usd_price_account)
            (from_token invalid_price_account)
        convert ← env.price sol_usd_price_account token_usd_price_account token_id
        ok (record { price_token_id = token_id; convert = convert }))
