-- ===== src/Calendar/Tests.antt =====
-- A run of the conversion of timestamps: the date that the source's test names.
use elusiv.Base.{ℕ, ◌≡◌, refl, some, arith}
use elusiv.Calendar.{unix_timestamp_to_day_and_year}
use elusiv.Calendar.Gregorian.{FallsOn, unix_timestamp_to_day_and_year_lem}

unix_timestamp_example :
    (date : ℕ × ℕ) × (unix_timestamp_to_day_and_year 1_671_713_372 ≡ some date)
    × FallsOn 1_671_713_372 date
unix_timestamp_example =
    unix_timestamp_to_day_and_year_lem 1_671_713_372 (omega arith) (omega arith)

day_and_year_test : unix_timestamp_to_day_and_year 1_671_713_372 ≡ some (356, 2022)
unfolding unix_timestamp_to_day_and_year
day_and_year_test = refl
