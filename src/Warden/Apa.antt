-- ===== src/Warden/Apa.antt =====
-- elusiv-warden-network/src/network.rs, the account of the APA network, with the quotes of warden.rs and
-- the handlers of processor/apa_warden.rs. Keys and quotes are lists of bytes; the hash of the quotes is
-- a function of the Solana SDK, the parameter `hashv`.
pub mod Phases
pub mod Steps
pub mod Completion
mod Tests
use elusiv.Base.{
  ◌==◌, if◌then◌else◌, drop, take, ◌>>=◌, ◌>>◌, guard, from_warden, warden_invalid_instruction_data,
  warden_registration_error, invalid_confirmation_message, signer_and_warden_id_mismatch,
  not_in_confirmation_phase, warden_already_confirmed, ProgramError, Result, ok, err, add_u32, read,
  write, ℕ, zero, suc, ◌+◌, Bool, true, false, not, Option, none, some, List, [], ◌∷◌, ◌++◌,
}
use elusiv.Bytes.Find.{eq_bytes}
use elusiv.Warden.Registry.{open_account}

abbrev pub apa_network_size : ℕ
apa_network_size = 6

-- `user_data_bytes` of a `QuoteStart`: the exchange key.
unfoldable pub user_data_bytes : List ℕ → List ℕ
user_data_bytes start = take 32 (drop (368 + 32) start)

-- `join`.
unfoldable pub join_quote : List ℕ → List ℕ → List ℕ
join_quote start end = start ++ end

pub record ApaWardenNetwork : Type 0 where
  pub members_count : ℕ
  pub apa_key : Option ℕ
  pub members : List ℕ
  pub quote_starts : List (List ℕ)
  pub quote_ends : List (Option (List ℕ))
  pub exchange_keys : List (List ℕ)
  pub confirmations : List Bool

-- `all` with `is_some`, over the whole array.
unfoldable pub all_some : {A : Type 0} → List (Option A) → Bool
all_some [] = true
all_some (none ∷ os) = false
all_some (some a ∷ os) = all_some os

unfoldable pub is_application_phase : ApaWardenNetwork → Bool
unfolding all_some
is_application_phase n = not (all_some n.quote_ends)

-- `all` over the members from `i` on.
unfoldable pub all_confirmed : List Bool → ℕ → ℕ → Result ProgramError Bool
all_confirmed confirmations zero i = ok true
all_confirmed confirmations (suc rounds) i = do
  b ← read confirmations i
  if b then all_confirmed confirmations rounds (i + 1) else ok false

unfoldable pub is_confirmed : ApaWardenNetwork → Result ProgramError Bool
unfolding is_application_phase all_confirmed
is_confirmed n =
    if is_application_phase n then ok false else all_confirmed n.confirmations n.members_count 0

unfoldable pub is_confirmation_phase : ApaWardenNetwork → Result ProgramError Bool
unfolding is_application_phase is_confirmed
is_confirmation_phase n =
    if is_application_phase n then ok false else (do b ← is_confirmed n; ok (not b))

-- The new state, and the member's index.
unfoldable pub start_application :
    ApaWardenNetwork → ℕ → List ℕ → Result ProgramError (ApaWardenNetwork × ℕ)
unfolding is_application_phase user_data_bytes
start_application n warden_id quote_start = do
  guard (is_application_phase n) (from_warden warden_registration_error)
  members' ← write n.members n.members_count warden_id
  quote_starts' ← write n.quote_starts n.members_count quote_start
  exchange_keys' ← write n.exchange_keys n.members_count (user_data_bytes quote_start)
  ok (
    record n {
      members_count = add_u32 n.members_count 1;
      members = members';
      quote_starts = quote_starts';
      exchange_keys = exchange_keys';
    },
    n.members_count,
  )

-- `map` and `find`: the first member, from `i` on, that is the warden's id. The source names it an index.
unfoldable pub find_member : List ℕ → ℕ → ℕ → ℕ → Result ProgramError ℕ
find_member members zero i warden_id = err (from_warden warden_registration_error)
find_member members (suc rounds) i warden_id = do
  member ← read members i
  if member == warden_id then ok member else find_member members rounds (i + 1) warden_id

unfoldable pub complete_application :
    ApaWardenNetwork → ℕ → List ℕ → Result ProgramError ApaWardenNetwork
unfolding is_application_phase find_member
complete_application n warden_id quote_end = do
  guard (is_application_phase n) (from_warden warden_registration_error)
  member_index ← find_member n.members n.members_count 0 warden_id
  quote_ends' ← write n.quote_ends member_index (some quote_end)
  ok (record n { quote_ends = quote_ends' })

-- The quotes of the members from `i` on that are complete.
unfoldable pub quotes_from : ApaWardenNetwork → ℕ → ℕ → Result ProgramError (List (List ℕ))
unfolding join_quote
quotes_from n zero i = ok []
quotes_from n (suc rounds) i = do
  start ← read n.quote_starts i
  end ← read n.quote_ends i
  quotes ← quotes_from n rounds (i + 1)
  ok (elim end [ none ↦ quotes | some e ↦ join_quote start e ∷ quotes ])

unfoldable pub get_all_quotes : ApaWardenNetwork → Result ProgramError (List (List ℕ))
unfolding quotes_from
get_all_quotes n = quotes_from n n.members_count 0

module _ (hashv : List (List ℕ) → List ℕ) where
  unfoldable pub confirmation_message : ApaWardenNetwork → Result ProgramError (List ℕ)
  unfolding get_all_quotes
  confirmation_message n = do quotes ← get_all_quotes n; ok (hashv quotes)

  unfoldable pub confirm_others :
      ApaWardenNetwork → ℕ → List ℕ → List ℕ → Result ProgramError ApaWardenNetwork
  unfolding is_confirmation_phase confirmation_message
  confirm_others n member_index signer message = do
    in_phase ← is_confirmation_phase n
    guard in_phase (from_warden not_in_confirmation_phase)
    exchange_key ← read n.exchange_keys member_index
    guard (eq_bytes exchange_key signer) (from_warden signer_and_warden_id_mismatch)
    expected ← confirmation_message n
    guard (eq_bytes expected message) (from_warden invalid_confirmation_message)
    confirmed ← read n.confirmations member_index
    guard (not confirmed) (from_warden warden_already_confirmed)
    confirmations' ← write n.confirmations member_index true
    ok (record n { confirmations = confirmations' })

-- The account of a warden of the APA network.
pub record ApaWarden : Type 0 where
  pub warden_id : ℕ
  pub network_member_index : ℕ

-- `mapped_id` is the id in the warden's map account; `accounts` are the accounts of APA wardens by id.
unfoldable pub start_apa_genesis_warden_application :
    ProgramError
    → ApaWardenNetwork
    → (ℕ → Option ApaWarden)
    → ℕ
    → List ℕ
    → Result ProgramError (ApaWardenNetwork × (ℕ → Option ApaWarden))
unfolding start_application open_account
start_apa_genesis_warden_application account_in_use n accounts mapped_id quote_start = do
  (n', index) ← start_application n mapped_id quote_start
  accounts' ←
      open_account account_in_use accounts mapped_id
        (record { warden_id = mapped_id; network_member_index = index })
  ok (n', accounts')

unfoldable pub complete_apa_genesis_warden_application :
    ApaWardenNetwork → ℕ → ℕ → List ℕ → Result ProgramError ApaWardenNetwork
unfolding complete_application
complete_apa_genesis_warden_application n mapped_id provided_id quote_end = do
  guard (provided_id == mapped_id) (from_warden warden_invalid_instruction_data)
  complete_application n mapped_id quote_end

unfoldable pub confirm_apa_genesis_network :
    (List (List ℕ) → List ℕ)
    → ApaWardenNetwork
    → ApaWarden
    → List ℕ
    → List ℕ
    → Result ProgramError ApaWardenNetwork
unfolding confirm_others
confirm_apa_genesis_network hashv n w exchange_key message =
    confirm_others hashv n w.network_member_index exchange_key message
