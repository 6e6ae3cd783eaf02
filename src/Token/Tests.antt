-- ===== src/Token/Tests.antt =====
-- Amounts of the second of two tokens.
use elusiv.Base.{ok, ◌≡◌, refl, List, [], ◌∷◌}
use elusiv.Token.{
  ElusivToken, spl_token, token_id, amount, new_spl, new, new_checked, enforce_token_equality, add,
}

abbrev two_tokens : List ElusivToken
two_tokens =
    record {
      mint = 0;
      decimals = 9;
      price_base_exp = 9;
      pyth_usd_price_key = 0;
      min_amount = 10;
      max_amount = 100;
    }
    ∷ record {
      mint = 1;
      decimals = 6;
      price_base_exp = 6;
      pyth_usd_price_key = 1;
      min_amount = 5;
      max_amount = 50;
    }
    ∷ []

add_test : add (spl_token 1 30) (spl_token 1 12) ≡ ok (spl_token 1 42)
unfolding add enforce_token_equality new new_spl token_id amount
add_test = refl

checked_test : new_checked two_tokens 1 50 ≡ ok (spl_token 1 50)
unfolding new_checked new new_spl
checked_test = refl
