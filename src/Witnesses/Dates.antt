-- ===== src/Witnesses/Dates.antt =====
-- Tests of the calendar: src/modules/tenant-stays/stay-time.ts.
use hotello_backend.Common.{◌≡◌, refl, ◌+◌, ◌-◌, ◌/◌, arith, [], ◌∷◌}
use hotello_backend.Calendar.{iso_date, parse_date, days_left}
use hotello_backend.Calendar.RoundTrip.{days_left-iso_date}

-- 1970-01-01 is day 719468, and 2024-02-29 is followed by 2024-03-01
epoch_test : iso_date 0 ≡ b'1' ∷ b'9' ∷ b'7' ∷ b'0' ∷ b'-' ∷ b'0' ∷ b'1' ∷ b'-' ∷ b'0' ∷ b'1' ∷ []
unfolding iso_date
epoch_test = refl

leap_test : parse_date (iso_date 1_709_164_800_000) + 1 ≡ parse_date (iso_date 1_709_251_200_000)
unfolding iso_date parse_date
leap_test = refl

-- 28 February 2024 and two days later
days_left-iso_date_example :
    days_left (iso_date 1_709_121_600_000) (iso_date 1_709_294_400_000)
    ≡ 1_709_294_400_000 / 86_400_000 - 1_709_121_600_000 / 86_400_000
days_left-iso_date_example =
    days_left-iso_date 1_709_121_600_000 1_709_294_400_000 (omega arith) (omega arith)
