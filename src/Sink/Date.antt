-- ===== src/Sink/Date.antt =====
-- The UTC date in the name of a rolled file: `ymd_from_secs` of crates/obs-core/src/sink/writer.rs.
pub mod Calendar
mod Tests
use obs.Prelude.{ℕ, ◌+◌, ◌-◌, ◌*◌, ◌/◌, ◌%◌, ◌^◌, leb, ltb, if◌then◌else◌}

-- The numbers are not negative, so that the quotient of i64 is the one of ℕ.
unfoldable pub year_of_era : ℕ → ℕ
year_of_era doe = (doe - doe / 1460 + doe / 36524 - doe / 146096) / 365

unfoldable pub days_before : ℕ → ℕ
days_before yoe = 365 * yoe + yoe / 4 - yoe / 100

unfoldable pub month_of : ℕ → ℕ
month_of doy = let mp = (5 * doy + 2) / 153 in if ltb mp 10 then mp + 3 else mp - 9

unfoldable pub day_of : ℕ → ℕ
day_of doy = doy - (153 * ((5 * doy + 2) / 153) + 2) / 5 + 1

-- The day `doy` of a year that begins in March, as a date.
unfoldable pub date_of : ℕ → ℕ → ℕ × ℕ × ℕ
unfolding month_of day_of
date_of y_internal doy =
    (if leb (month_of doy) 2 then y_internal + 1 else y_internal, month_of doy, day_of doy)

-- The day `doe` of an era.
unfoldable pub ymd_of_era : ℕ → ℕ → ℕ × ℕ × ℕ
unfolding year_of_era days_before date_of
ymd_of_era era doe = let yoe = year_of_era doe in date_of (yoe + era * 400) (doe - days_before yoe)

-- The year is cut to a u32.
unfoldable pub ymd_from_days : ℕ → ℕ × ℕ × ℕ
unfolding ymd_of_era
ymd_from_days days =
    let z = days + 719468 in
    let (y, m, d) = ymd_of_era (z / 146097) (z % 146097) in (y % 2 ^ 32, m, d)

unfoldable pub ymd_from_secs : ℕ → ℕ × ℕ × ℕ
unfolding ymd_from_days
ymd_from_secs secs = ymd_from_days (secs / 86400)
