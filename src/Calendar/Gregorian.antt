-- ===== src/Calendar/Gregorian.antt =====
-- The Gregorian calendar from the year 2000 on, and what the conversion of a timestamp means in it.
use elusiv.Base.{
  ltb, leb, ◌==◌, if◌then◌else◌, lt→ltb, le→leb, Bool-cases, u16_mod, u32_mod, ℕ, zero, suc, ◌+◌,
  ◌-◌, ◌*◌, ◌/◌, ◌%◌, ◌≤◌, ◌<◌, ◌≡◌, refl, inl, inr, Bool, true, not, ◌&&◌, ◌||◌, some, arith,
}
use elusiv.Calendar.{
  two_k_epoch, two_k_100_epoch, days_per_quadrennial, count_years, unix_timestamp_to_day_and_year,
}

unfoldable pub is_leap : ℕ → Bool
is_leap y = y % 4 == 0 && (not (y % 100 == 0) || y % 400 == 0)

unfoldable pub days_in_year : ℕ → ℕ
unfolding is_leap
days_in_year y = if is_leap y then 366 else 365

-- The days from the start of 2000 to the start of the year `2000 + n`.
unfoldable pub days_before : ℕ → ℕ
unfolding days_in_year
days_before zero = 0
days_before (suc n) = days_before n + days_in_year (2000 + n)

days_in_year_lem : (n : ℕ) → n < 100 → days_in_year (2000 + n) ≡ 365 + (if n % 4 == 0 then 1 else 0)
unfolding days_in_year is_leap
days_in_year_lem n h = ground arith

days_before_lem : (n : ℕ) → n ≤ 100 → days_before n ≡ 365 * n + (n + 3) / 4
unfolding days_before
days_before_lem zero h = refl
days_before_lem (suc n) h = ground (arith, days_before_lem n, days_in_year_lem n)

-- The day number `n` falls on the day `days` of the year `2000 + year`, of the quadrennial `q`.
abbrev Placed : ℕ → ℕ → ℕ × ℕ → Type 0
Placed n q (days, year) =
    (days + (365 * year + (year + 3) / 4) ≡ n)
    × (days < 365 + (if year % 4 == 0 then 1 else 0))
    × (year < 4 * q + 4)

count_years_lem :
    (rounds y days n q : ℕ)
    → y + rounds ≡ 4 * q + 3
    → rounds ≤ 3
    → days + (365 * y + (y + 3) / 4) ≡ n
    → n < 365 * (4 * q + 4) + (q + 1)
    → Placed n q (count_years rounds y days y)
unfolding count_years
count_years_lem zero y days n q e r i h = (i, ground arith, omega arith)
count_years_lem (suc rounds) y days n q e r i h =
    elim (Bool-cases (leb (365 + (if y % 4 == 0 then 1 else 0)) days)) [
      | inl more ↦
          rw more
            (count_years_lem rounds (y + 1) _ n q (omega arith) (omega arith) (ground arith) h)
      | inr less ↦ rw less (i, ground arith, omega arith)
    ]

-- What a date means: its year is of the century, its day of the year, and the timestamp falls on it.
unfoldable pub FallsOn : ℕ → ℕ × ℕ → Type 0
unfolding days_before days_in_year
FallsOn timestamp (day, year) =
    (n : ℕ) × (year ≡ 2000 + n)
    × (n < 100)
    × (1 ≤ day)
    × (day ≤ days_in_year year)
    × (two_k_epoch + 86_400 * (days_before n + day - 1) ≤ timestamp)
    × (timestamp < two_k_epoch + 86_400 * (days_before n + day))

Placed-FallsOn :
    (timestamp q : ℕ) (date : ℕ × ℕ)
    → two_k_epoch ≤ timestamp
    → timestamp < two_k_100_epoch
    → Placed ((timestamp - two_k_epoch) / 86_400) q date
    → FallsOn timestamp ((date.0 % u32_mod + 1) % u32_mod, (2000 + date.1 % u16_mod) % u16_mod)
unfolding FallsOn
Placed-FallsOn timestamp q (days, year) low high (i, b, y) =
    let small : year < 100 = omega arith in
    let before : days_before year ≡ 365 * year + (year + 3) / 4 =
      days_before_lem year (omega arith) in
    let e : (days % u32_mod + 1) % u32_mod ≡ days + 1 = ground arith in
    let f : (2000 + year % u16_mod) % u16_mod ≡ 2000 + year = omega arith in
    let len : days_in_year (2000 + year) ≡ 365 + (if year % 4 == 0 then 1 else 0) =
      days_in_year_lem year small in
    rw (e, f)
      (
        year,
        refl,
        small,
        omega arith,
        rw len (omega arith),
        rw before (omega arith),
        rw before (omega arith),
      )

-- In the years 2000 to 2099, the conversion returns the day and the year on which the timestamp falls.
pub unix_timestamp_to_day_and_year_lem :
    (timestamp : ℕ)
    → two_k_epoch ≤ timestamp
    → timestamp < two_k_100_epoch
    → (date : ℕ × ℕ) × (unix_timestamp_to_day_and_year timestamp ≡ some date)
      × FallsOn timestamp date
unfolding unix_timestamp_to_day_and_year
unix_timestamp_to_day_and_year_lem timestamp low high =
    let d = (timestamp - two_k_epoch) / 86_400 in
    let q = d / days_per_quadrennial in
    let r = d % days_per_quadrennial in
    let placed =
      count_years_lem 3 (q * 4) r d q (omega arith) (omega arith) (omega arith) (omega arith) in
    let in_range : (leb two_k_epoch timestamp && ltb timestamp two_k_100_epoch) ≡ true =
      rw (le→leb two_k_epoch timestamp low, lt→ltb timestamp two_k_100_epoch high) refl in
    (
      _,
      rw in_range refl,
      Placed-FallsOn timestamp q (count_years 3 (q * 4) r (q * 4)) low high placed,
    )
