-- ===== src/Warden/Statistics.antt =====
-- `WardenStatistics` of elusiv-warden-network/src/warden.rs, and the statistics' handlers of
-- processor/basic_warden.rs. The sysvar of the instructions is read by functions of the Solana SDK, which
-- are parameters; the clock's answer is an argument.
use elusiv.Base.{
  ltb, ◌==◌, if◌then◌else◌, Bool-cases, ◌>>=◌, ◌>>◌, guard, ok_or, from_warden, >>=-eq-ok,
  ok_injective, outcome_cases, stats_error, timestamp_error, warden_overflow, ProgramError,
  incorrect_program_id, Result, ok, err, panic, u32_mod, checked_add, checked_sub, read, ℕ, ◌<◌,
  ◌≡◌, sym, ap, ◌∙◌, inl, inr, Bool, Option, none, some, List, [], ◌∷◌, arith,
}
use elusiv.Calendar.{unix_timestamp_to_day_and_year}

pub record WardenStatistics : Type 0 where
  pub activity : List ℕ
  pub total : ℕ

pub record BasicWardenStats : Type 0 where
  pub year : ℕ
  pub last_activity_timestamp : ℕ
  pub store : WardenStatistics
  pub send : WardenStatistics
  pub migrate : WardenStatistics

-- The two sums are computed and dropped, as in the source.
unfoldable pub inc : WardenStatistics → ℕ → Result ProgramError WardenStatistics
inc s day = do
  guard (ltb day 366) (from_warden stats_error)
  sum ← ok_or (checked_add u32_mod s.total 1) (from_warden warden_overflow)
  today ← read s.activity day
  sum_today ← ok_or (checked_add u32_mod today 1) (from_warden warden_overflow)
  ok s

pub record TrackableElusivInstruction : Type 0 where
  pub instruction_id : ℕ
  pub warden_index : ℕ

abbrev pub trackable_elusiv_instructions : List TrackableElusivInstruction
trackable_elusiv_instructions =
    record { instruction_id = 2; warden_index = 0 }
    ∷ record { instruction_id = 13; warden_index = 1 }
    ∷ record { instruction_id = 14; warden_index = 3 }
    ∷ []

unfoldable pub find_trackable :
    List TrackableElusivInstruction → ℕ → Option TrackableElusivInstruction
find_trackable [] ix_byte = none
find_trackable (i ∷ is) ix_byte =
    if i.instruction_id == ix_byte then some i else find_trackable is ix_byte

-- An instruction of the transaction, as the sysvar gives it.
pub record Instruction : Type 0 where
  pub program_id : ℕ
  pub accounts : List ℕ
  pub data_bytes : List ℕ

module _ (elusiv_program_id : ℕ) (load_current_index : Result ProgramError ℕ)
    (load_instruction_at : ℕ → Result ProgramError Instruction) where
  -- The checks on the previous instruction, and the statistics after it.
  unfoldable pub track_instruction :
      Option TrackableElusivInstruction
      → Instruction
      → ℕ
      → BasicWardenStats
      → ℕ
      → Result ProgramError BasicWardenStats
  unfolding inc
  track_instruction none previous_ix warden_key stats day = err (from_warden stats_error)
  track_instruction (some ix) previous_ix warden_key stats day = do
    account ← read previous_ix.accounts ix.warden_index
    guard (account == warden_key) (from_warden stats_error)
    guard (previous_ix.program_id == elusiv_program_id) incorrect_program_id
    store' ← inc stats.store day
    ok (record stats { store = store' })

  unfoldable pub track_basic_warden_stats_inner :
      ℕ → BasicWardenStats → ℕ → Result ProgramError ℕ → Result ProgramError BasicWardenStats
  unfolding track_instruction unix_timestamp_to_day_and_year find_trackable
  track_basic_warden_stats_inner warden_key stats year current_timestamp = do
    now ← current_timestamp
    (day, y) ← ok_or (unix_timestamp_to_day_and_year now) (from_warden timestamp_error)
    guard (y == year) (from_warden stats_error)
    guard (stats.year == year) (from_warden stats_error)
    index ← load_current_index
    previous ← ok_or (checked_sub index 1) (from_warden stats_error)
    previous_ix ← load_instruction_at previous
    ix_byte ← read previous_ix.data_bytes 0
    stats' ←
        track_instruction (find_trackable trackable_elusiv_instructions ix_byte) previous_ix
          warden_key stats day
    ok (record stats' { last_activity_timestamp = now })

  -- Where the error is not passed on, the account is as it was.
  unfoldable pub track_basic_warden_stats :
      ℕ → BasicWardenStats → ℕ → Bool → Result ProgramError ℕ → Result ProgramError BasicWardenStats
  unfolding track_basic_warden_stats_inner
  track_basic_warden_stats warden_key stats year can_fail current_timestamp =
      elim (track_basic_warden_stats_inner warden_key stats year current_timestamp) [
        | ok stats' ↦ ok stats'
        | err e ↦ if can_fail then err e else ok stats
        | panic ↦ panic
      ]

  inc_lem : (s s' : WardenStatistics) (day : ℕ) → inc s day ≡ ok s' → (day < 366) × (s' ≡ s)
  unfolding inc
  inc_lem s s' day h = ground arith

  track_instruction_lem :
      (ix : Option TrackableElusivInstruction) (previous_ix : Instruction) (warden_key : ℕ)
      (stats stats' : BasicWardenStats) (day : ℕ)
      → track_instruction ix previous_ix warden_key stats day ≡ ok stats'
      → stats' ≡ stats
  unfolding track_instruction
  track_instruction_lem none previous_ix warden_key stats stats' day h = cc
  track_instruction_lem (some ix) previous_ix warden_key stats stats' day h =
      let (account, _, h) = >>=-eq-ok (read previous_ix.accounts ix.warden_index) _ h in
      let (_, _, h) = >>=-eq-ok (guard (account == warden_key) (from_warden stats_error)) _ h in
      let (_, _, h) =
        >>=-eq-ok (guard (previous_ix.program_id == elusiv_program_id) incorrect_program_id) _ h in
      let (store', e, h) = >>=-eq-ok (inc stats.store day) _ h in
      let (_, same) = inc_lem stats.store store' day e in
      sym (ok_injective h) ∙ ap (λ s. record stats { store = s }) same

  track_basic_warden_stats_inner_lem :
      (warden_key : ℕ) (stats stats' : BasicWardenStats) (year : ℕ) (clock : Result ProgramError ℕ)
      → track_basic_warden_stats_inner warden_key stats year clock ≡ ok stats'
      → (t : ℕ) × (stats' ≡ record stats { last_activity_timestamp = t })
  unfolding track_basic_warden_stats_inner
  track_basic_warden_stats_inner_lem warden_key stats stats' year clock h =
      let (now, _, h) = >>=-eq-ok clock _ h in
      let ((day, y), _, h) =
        >>=-eq-ok (ok_or (unix_timestamp_to_day_and_year now) (from_warden timestamp_error)) _ h in
      let (_, _, h) = >>=-eq-ok (guard (y == year) (from_warden stats_error)) _ h in
      let (_, _, h) = >>=-eq-ok (guard (stats.year == year) (from_warden stats_error)) _ h in
      let (index, _, h) = >>=-eq-ok load_current_index _ h in
      let (previous, _, h) =
        >>=-eq-ok (ok_or (checked_sub index 1) (from_warden stats_error)) _ h in
      let (previous_ix, _, h) = >>=-eq-ok (load_instruction_at previous) _ h in
      let (ix_byte, _, h) = >>=-eq-ok (read previous_ix.data_bytes 0) _ h in
      let ix = find_trackable trackable_elusiv_instructions ix_byte in
      let (counted, e, h) = >>=-eq-ok (track_instruction ix previous_ix warden_key stats day) _ h in
      let same = track_instruction_lem ix previous_ix warden_key stats counted day e in
      (
        now,
        sym (ok_injective h)
            ∙ ap {A = BasicWardenStats} (λ s. record s { last_activity_timestamp = now }) same,
      )

  -- Whatever the instruction, the flag and the answers of the SDK: where the handler returns, the account
  -- is the one given, up to the timestamp of its last activity. Nothing is counted.
  pub track_basic_warden_stats_lem :
      (warden_key : ℕ) (stats stats' : BasicWardenStats) (year : ℕ) (can_fail : Bool)
      (clock : Result ProgramError ℕ)
      → track_basic_warden_stats warden_key stats year can_fail clock ≡ ok stats'
      → (t : ℕ) × (stats' ≡ record stats { last_activity_timestamp = t })
  unfolding track_basic_warden_stats
  track_basic_warden_stats_lem warden_key stats stats' year can_fail clock h =
      elim (outcome_cases (track_basic_warden_stats_inner warden_key stats year clock)) [
        | inl (counted, e) ↦
            let same : stats' ≡ counted = let q = rw (e, track_basic_warden_stats) at h in cc in
            rw same (track_basic_warden_stats_inner_lem warden_key stats counted year clock e)
        | inr (inl (x, e)) ↦ elim (Bool-cases can_fail) [
          | inl y ↦ let q = rw (e, track_basic_warden_stats, y) at h in cc
          | inr n ↦ (
            stats.last_activity_timestamp,
            let q = rw (e, track_basic_warden_stats, n) at h in sym (ok_injective q),
          )
        ]
        | inr (inr e) ↦ let q = rw (e, track_basic_warden_stats) at h in cc
      ]
