-- ===== src/Token.antt =====
-- shared/elusiv-types/src/tokens.rs: amounts of a token. The table `TOKENS` is generated from Token.toml,
-- and is the parameter `tokens`; the prices of the Pyth SDK are not modelled.
pub mod Amounts
mod Tests
use elusiv.Base.{
  ltb, leb, ◌==◌, if◌then◌else◌, length, get_elem?, ◌>>=◌, ◌>>◌, ok_or, unwrap, TokenError,
  mismatched_token_id, invalid_token_id, token_invalid_amount, underflow, overflow, Result, ok, err,
  panic, u64_mod, checked_add, checked_sub, ℕ, ◌-◌, ◌||◌, List,
}

pub record ElusivToken : Type 0 where
  pub mint : ℕ
  pub decimals : ℕ
  pub price_base_exp : ℕ
  pub pyth_usd_price_key : ℕ
  pub min_amount : ℕ
  pub max_amount : ℕ

-- Lamports, or an amount of the SPL token with an id.
pub data Token : Type 0 where
  lamports_token : ℕ → Token
  spl_token : ℕ → ℕ → Token

unfoldable pub token_id : Token → ℕ
token_id (lamports_token a) = 0
token_id (spl_token id a) = id

unfoldable pub amount : Token → ℕ
amount (lamports_token a) = a
amount (spl_token id a) = a

-- `SPLToken::new`, whose id is not zero.
unfoldable pub new_spl : ℕ → ℕ → Result TokenError Token
new_spl id a = if id == 0 then err invalid_token_id else ok (spl_token id a)

-- `new`: the result of `SPLToken::new` is unwrapped.
unfoldable pub new : ℕ → ℕ → Result TokenError Token
unfolding new_spl
new id a =
    if id == 0
    then ok (lamports_token a)
    else elim (new_spl id a) [ ok t ↦ ok t | err e ↦ panic | panic ↦ panic ]

unfoldable pub elusiv_token : List ElusivToken → ℕ → Result TokenError ElusivToken
elusiv_token tokens id =
    if ltb (length tokens - 1) id then err invalid_token_id else unwrap (get_elem? tokens id)

unfoldable pub new_checked : List ElusivToken → ℕ → ℕ → Result TokenError Token
unfolding new
new_checked tokens id a =
    if leb (length tokens) id
    then err invalid_token_id
    else (unwrap (get_elem? tokens id) >>= λ t.
        if ltb a t.min_amount || ltb t.max_amount a then err token_invalid_amount else new id a)

unfoldable pub enforce_token_equality : Token → Token → Result TokenError ℕ
unfolding token_id
enforce_token_equality x y =
    if token_id x == token_id y then ok (token_id x) else err mismatched_token_id

unfoldable pub add : Token → Token → Result TokenError Token
unfolding enforce_token_equality new amount
add x y = do
  id ← enforce_token_equality x y
  sum ← ok_or (checked_add u64_mod (amount x) (amount y)) overflow
  new id sum

unfoldable pub sub : Token → Token → Result TokenError Token
unfolding enforce_token_equality new amount
sub x y = do
  id ← enforce_token_equality x y
  dif ← ok_or (checked_sub (amount x) (amount y)) underflow
  new id dif

unfoldable pub into_lamports : Token → Result TokenError ℕ
into_lamports (lamports_token a) = ok a
into_lamports (spl_token id a) = err invalid_token_id

-- `Add` of `Lamports`.
unfoldable pub add_lamports : ℕ → ℕ → Result TokenError ℕ
add_lamports a b = ok_or (checked_add u64_mod a b) overflow
