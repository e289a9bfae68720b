-- ===== src/Sink/Date/Tests.antt =====
-- Dates at concrete inputs.
use obs.Prelude.{◌/◌, ◌≡◌, refl, arith}
use obs.Sink.Date.{ymd_from_secs}
use obs.Sink.Date.Calendar.{calendar, ymd_from_secs-calendar}

ymd_from_secs-calendar_example : ymd_from_secs 1700000000 ≡ calendar (1700000000 / 86400)
ymd_from_secs-calendar_example = ymd_from_secs-calendar 1700000000 (omega arith)

leap_day : ymd_from_secs 951782400 ≡ (2000, 2, 29)
unfolding ymd_from_secs
leap_day = refl
