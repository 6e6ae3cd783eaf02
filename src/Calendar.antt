-- ===== src/Calendar.antt =====
-- elusiv-warden-network/src/processor/utils.rs: the day and the year of a unix timestamp.
pub mod Gregorian
mod Tests
use elusiv.Base.{
  ltb, leb, ◌==◌, if◌then◌else◌, u16_mod, u32_mod, ℕ, zero, suc, ◌+◌, ◌-◌, ◌*◌, ◌/◌, ◌%◌, ◌&&◌,
  Option, none, some,
}

abbrev pub two_k_epoch : ℕ
two_k_epoch = 946_684_800

abbrev pub two_k_100_epoch : ℕ
two_k_100_epoch = 4_102_444_800

abbrev pub days_per_quadrennial : ℕ
days_per_quadrennial = 365 * 4 + 1

-- The `for` loop over the years, with the rounds left: the days that remain, and the year.
unfoldable pub count_years : ℕ → ℕ → ℕ → ℕ → ℕ × ℕ
count_years zero y days year = (days, year)
count_years (suc rounds) y days year =
    let d = 365 + (if y % 4 == 0 then 1 else 0) in
    let rest = count_years rounds (y + 1) (days - d) (year + 1) in
    if leb d days then rest else (days, year)

unfoldable pub unix_timestamp_to_day_and_year : ℕ → Option (ℕ × ℕ)
unfolding count_years
unix_timestamp_to_day_and_year timestamp =
    if leb two_k_epoch timestamp && ltb timestamp two_k_100_epoch
    then (let days_since_2k = (timestamp - two_k_epoch) / 86_400 in
        let years = days_since_2k / days_per_quadrennial * 4 in
        let (days, year) = count_years 3 years (days_since_2k % days_per_quadrennial) years in
        some ((days % u32_mod + 1) % u32_mod, (2000 + year % u16_mod) % u16_mod))
    else none
