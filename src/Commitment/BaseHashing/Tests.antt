-- ===== src/Commitment/BaseHashing/Tests.antt =====
-- The hash of a base commitment, at a hasher of numbers.
use elusiv.Base.{
  from_elusiv, computation_is_already_finished, account_not_rent_exempt, ok, err, ℕ, ◌+◌, ◌*◌, ◌^◌,
  ◌≡◌, refl, true, false, Option, none, some, List, [], ◌∷◌,
}
use elusiv.Poseidon.{Hasher}
use elusiv.Commitment.BaseHashing.{
  BaseCommitmentHashRequest, BaseCommitmentHashingAccount, setup_base, compute_base_commitment_hash,
  transfer_lamports_from_pda_checked, transfer_lamports_from_pda,
}
use elusiv.Commitment.BaseHashing.Calls.{IsHashed, compute_base_commitment_hash_lem}

abbrev hasher : Hasher ℕ ℕ
hasher = record {
  zero_fr = 0;
  to_fr = λ x. x;
  to_u256 = λ x. x;
  hash_round = λ r s. record { s0 = s.s0 + s.s1 + r; s1 = s.s2; s2 = s.s0 };
}

-- An element of the field is the number that the first two limbs hold.
abbrev from_limbs : List ℕ → Option ℕ
from_limbs [] = none
from_limbs (x ∷ []) = none
from_limbs (x ∷ y ∷ rest) = some (x + y * 2 ^ 64)

abbrev request : BaseCommitmentHashRequest ℕ
request = record {
  base_commitment = 5;
  recent_commitment_index = 3;
  amount = 100;
  token_id = 1;
  commitment = 6;
  fee_version = 2;
  min_batching_rate = 1;
}

abbrev closed_account : BaseCommitmentHashingAccount ℕ ℕ ℕ
closed_account = record {
  instruction = 2;
  round = 65;
  fee_version = 0;
  fee_payer = 0;
  is_active = false;
  token_id = 0;
  state = record { s0 = 0; s1 = 0; s2 = 0 };
  min_batching_rate = 0;
  metadata = 0;
}

abbrev set_up_account : BaseCommitmentHashingAccount ℕ ℕ ℕ
set_up_account = record {
  instruction = 0;
  round = 0;
  fee_version = 2;
  fee_payer = 8;
  is_active = true;
  token_id = 1;
  state = record { s0 = 0; s1 = 5; s2 = 100 + (1 + 3 * 2 ^ 16) * 2 ^ 64 };
  min_batching_rate = 1;
  metadata = 9;
}

compute_base_commitment_hash_example :
    (a1 a2 : BaseCommitmentHashingAccount ℕ ℕ ℕ) × (compute_base_commitment_hash hasher
        set_up_account
      ≡ ok a1)
    × (compute_base_commitment_hash hasher a1 ≡ ok a2)
    × IsHashed hasher request 5 (100 + (1 + 3 * 2 ^ 16) * 2 ^ 64) a2
    × (compute_base_commitment_hash hasher a2 ≡ err (from_elusiv computation_is_already_finished))
unfolding setup_base
compute_base_commitment_hash_example =
    compute_base_commitment_hash_lem hasher (λ x. x) from_limbs closed_account set_up_account
      request 9 8 (100 + (1 + 3 * 2 ^ 16) * 2 ^ 64) refl refl

transfer_test : transfer_lamports_from_pda_checked 50 100 7 30 ≡ ok (70, 37)
unfolding transfer_lamports_from_pda_checked transfer_lamports_from_pda
transfer_test = refl

transfer_too_much_test :
    transfer_lamports_from_pda_checked 50 100 7 51 ≡ err account_not_rent_exempt
unfolding transfer_lamports_from_pda_checked transfer_lamports_from_pda
transfer_too_much_test = refl
