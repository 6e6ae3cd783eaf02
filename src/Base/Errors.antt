-- ===== src/Base/Errors.antt =====
-- elusiv/src/error.rs, the errors of shared/elusiv-types/src/tokens.rs and
-- elusiv-warden-network/src/error.rs, and the results that the programs' functions return.
-- `ProgramError` is the enum of the Solana SDK, with the variants that the programs use.
use Prim.Native.Nat.{ℕ}
use mathlib.Core.Bool.{Bool, true, false}
use mathlib.Core.Option.{Option, none, some}
use mathlib.Core.Path.{◌≡◌, refl}
use mathlib.Core.Logic.{◌⊎◌, inl, inr}

pub data ElusivError : Type 0 where
  invalid_instruction_data inputs_mismatch invalid_other_instruction invalid_amount : ElusivError
  insufficient_funds invalid_account invalid_recipient invalid_account_state : ElusivError
  non_scalar_value missing_child_account feature_not_available unsupported_token : ElusivError
  oracle_error duplicate_value missing_value invalid_merkle_root : ElusivError
  could_not_insert_nullifier no_room_for_commitment invalid_batching_rate : ElusivError
  invalid_recent_commitment_index invalid_public_inputs could_not_process_proof : ElusivError
  queue_is_empty queue_is_full invalid_queue_access : ElusivError
  unable_to_archive_nullifier_account merkle_tree_is_not_full_yet : ElusivError
  partial_computation_error computation_is_not_yet_started : ElusivError
  computation_is_not_yet_finished computation_is_already_finished : ElusivError
  invalid_fee invalid_fee_version child_account_already_exists : ElusivError
  child_accoutt_does_not_exists : ElusivError

pub data TokenError : Type 0 where
  mismatched_token_id invalid_token_id token_invalid_amount invalid_token_account : TokenError
  invalid_price_account price_error underflow overflow : TokenError

pub data WardenNetworkError : Type 0 where
  warden_invalid_instruction_data invalid_signer warden_registration_error : WardenNetworkError
  proposal_error voting_error stats_error timestamp_error : WardenNetworkError
  warden_overflow warden_underflow token_error : WardenNetworkError
  application_already_complete invalid_confirmation_message : WardenNetworkError
  signer_and_warden_id_mismatch not_in_confirmation_phase warden_already_confirmed :
      WardenNetworkError

pub data ProgramError : Type 0 where
  custom : ℕ → ProgramError
  invalid_argument missing_required_signature incorrect_program_id : ProgramError
  invalid_account_data invalid_seeds not_enough_account_keys illegal_owner : ProgramError
  account_not_rent_exempt : ProgramError

-- `panic` is an abort: an index out of range, a failed `unwrap` or `assert!`.
pub data Result {ℓ} (E : Type 0) (A : Type ℓ) : Type ℓ where
  ok : A → Result E A
  err : E → Result E A
  panic : Result E A

infixl 5 ◌>>=◌ ◌>>◌
abbrev pub ◌>>=◌ {ℓ κ} :
    {E : Type 0} {A : Type ℓ} {B : Type κ} → Result E A → (A → Result E B) → Result E B
ok a >>= f = f a
err e >>= f = err e
panic >>= f = panic

abbrev pub ◌>>◌ {ℓ} : {E : Type 0} {B : Type ℓ} → Result E (Unit {0}) → Result E B → Result E B
m >> k = m >>= λ _. k

-- `guard!`.
abbrev pub guard : {E : Type 0} → Bool → E → Result E (Unit {0})
guard true e = ok tt
guard false e = err e

-- `ok_or`.
abbrev pub ok_or {ℓ} : {E : Type 0} {A : Type ℓ} → Option A → E → Result E A
ok_or (some a) e = ok a
ok_or none e = err e

-- `unwrap`, and the read of a slice at an index.
abbrev pub unwrap {ℓ} : {E : Type 0} {A : Type ℓ} → Option A → Result E A
unwrap (some a) = ok a
unwrap none = panic

-- `unwrap` of a result.
abbrev pub unwrap_ok {ℓ} : {E F : Type 0} {A : Type ℓ} → Result E A → Result F A
unwrap_ok (ok a) = ok a
unwrap_ok (err e) = panic
unwrap_ok panic = panic

-- `?` at another error type.
abbrev pub map_err {ℓ} : {E F : Type 0} {A : Type ℓ} → (E → F) → Result E A → Result F A
map_err f (ok a) = ok a
map_err f (err e) = err (f e)
map_err f panic = panic

-- `e as u32`, the position of the variant.
abbrev pub code : ElusivError → ℕ
code invalid_instruction_data = 0
code inputs_mismatch = 1
code invalid_other_instruction = 2
code invalid_amount = 3
code insufficient_funds = 4
code invalid_account = 5
code invalid_recipient = 6
code invalid_account_state = 7
code non_scalar_value = 8
code missing_child_account = 9
code feature_not_available = 10
code unsupported_token = 11
code oracle_error = 12
code duplicate_value = 13
code missing_value = 14
code invalid_merkle_root = 15
code could_not_insert_nullifier = 16
code no_room_for_commitment = 17
code invalid_batching_rate = 18
code invalid_recent_commitment_index = 19
code invalid_public_inputs = 20
code could_not_process_proof = 21
code queue_is_empty = 22
code queue_is_full = 23
code invalid_queue_access = 24
code unable_to_archive_nullifier_account = 25
code merkle_tree_is_not_full_yet = 26
code partial_computation_error = 27
code computation_is_not_yet_started = 28
code computation_is_not_yet_finished = 29
code computation_is_already_finished = 30
code invalid_fee = 31
code invalid_fee_version = 32
code child_account_already_exists = 33
code child_accoutt_does_not_exists = 34

abbrev pub token_code : TokenError → ℕ
token_code mismatched_token_id = 100
token_code invalid_token_id = 101
token_code token_invalid_amount = 102
token_code invalid_token_account = 103
token_code invalid_price_account = 104
token_code price_error = 105
token_code underflow = 106
token_code overflow = 107

abbrev pub warden_code : WardenNetworkError → ℕ
warden_code warden_invalid_instruction_data = 0x01
warden_code invalid_signer = 0x02
warden_code warden_registration_error = 0x03
warden_code proposal_error = 0x04
warden_code voting_error = 0x05
warden_code stats_error = 0x06
warden_code timestamp_error = 0x07
warden_code warden_overflow = 0x08
warden_code warden_underflow = 0x09
warden_code token_error = 0x100
warden_code application_already_complete = 0x200
warden_code invalid_confirmation_message = 0x201
warden_code signer_and_warden_id_mismatch = 0x202
warden_code not_in_confirmation_phase = 0x203
warden_code warden_already_confirmed = 0x204

-- The three `From` implementations.
abbrev pub from_elusiv : ElusivError → ProgramError
from_elusiv e = custom (code e)

abbrev pub from_token : TokenError → ProgramError
from_token e = custom (token_code e)

abbrev pub from_warden : WardenNetworkError → ProgramError
from_warden e = custom (warden_code e)

-- `MATH_ERR` of shared/elusiv-utils/src/lib.rs.
abbrev pub math_err : ProgramError
math_err = custom 222

-- What a chain that returns a value has gone through.
pub >>=-eq-ok {ℓ κ} :
    {E : Type 0} {A : Type ℓ} {B : Type κ} (o : Result E A) (f : A → Result E B) {b : B}
    → (o >>= f) ≡ ok b
    → (a : A) × (o ≡ ok a) × (f a ≡ ok b)
>>=-eq-ok (ok a) f h = (a, refl, h)
>>=-eq-ok (err e) f h = cc
>>=-eq-ok panic f h = cc

pub guard-eq-ok : {E : Type 0} (b : Bool) (e : E) {u : Unit {0}} → guard b e ≡ ok u → b ≡ true
guard-eq-ok true e h = refl
guard-eq-ok false e h = cc

pub ok_injective {ℓ} :
    {E : Type 0} {A : Type ℓ} {a b : A} → ◌≡◌ {A = Result E A} (ok a) (ok b) → a ≡ b
ok_injective h = cc

pub ok_or-eq-ok {ℓ} :
    {E : Type 0} {A : Type ℓ} (o : Option A) (e : E) {a : A} → ok_or o e ≡ ok a → o ≡ some a
ok_or-eq-ok (some b) e h = cc
ok_or-eq-ok none e h = cc

pub >>=-ok {ℓ κ} :
    {E : Type 0} {A : Type ℓ} {B : Type κ} {o : Result E A} (f : A → Result E B) {a : A}
    {r : Result E B}
    → o ≡ ok a
    → f a ≡ r
    → (o >>= f) ≡ r
>>=-ok f e h = rw (e, ◌>>=◌) h

pub guard-ok : {E : Type 0} {b : Bool} (e : E) → b ≡ true → guard b e ≡ ok tt
guard-ok e h = rw h refl

pub ok_or-ok {ℓ} :
    {E : Type 0} {A : Type ℓ} {o : Option A} {a : A} (e : E) → o ≡ some a → ok_or o e ≡ ok a
ok_or-ok e h = rw (h, ok_or) refl

pub outcome_cases {ℓ} :
    {E : Type 0} {A : Type ℓ} (r : Result E A)
    → ((a : A) × (r ≡ ok a)) ⊎ (((e : E) × (r ≡ err e)) ⊎ (r ≡ panic))
outcome_cases (ok a) = inl (a, refl)
outcome_cases (err e) = inr (inl (e, refl))
outcome_cases panic = inr (inr refl)

pub unwrap-eq-ok {ℓ} :
    {E : Type 0} {A : Type ℓ} (o : Option A) {a : A} → unwrap {E = E} o ≡ ok a → o ≡ some a
unwrap-eq-ok (some b) h = cc
unwrap-eq-ok none h = cc

pub unwrap-ok {ℓ} :
    {E : Type 0} {A : Type ℓ} {o : Option A} {a : A} → o ≡ some a → unwrap {E = E} o ≡ ok a
unwrap-ok h = rw (h, unwrap) refl

pub >>=-congruent {ℓ κ} :
    {E : Type 0} {A : Type ℓ} {B : Type κ} (o : Result E A) (f g : A → Result E B)
    → ((a : A) → o ≡ ok a → f a ≡ g a)
    → (o >>= f) ≡ (o >>= g)
>>=-congruent (ok a) f g h = h a refl
>>=-congruent (err e) f g h = refl
>>=-congruent panic f g h = refl

pub unwrap_ok-eq-ok {ℓ} :
    {E F : Type 0} {A : Type ℓ} (r : Result E A) {a : A}
    → unwrap_ok {E = E} {F = F} r ≡ ok a
    → r ≡ ok a
unwrap_ok-eq-ok (ok b) h = cc
unwrap_ok-eq-ok (err e) h = cc
unwrap_ok-eq-ok panic h = cc
