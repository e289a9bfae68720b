-- ===== src/Sink/Date/Calendar.antt =====
-- The days of the Gregorian calendar, one after the other.
use obs.Prelude.{
  ℕ, zero, suc, ◌+◌, ◌-◌, ◌*◌, ◌/◌, ◌%◌, ◌^◌, ◌≡◌, ◌≢◌, ◌⊎◌, Bool-cases, ltb→lt, ltb→le, inl, inr,
  ◌≤◌, ◌<◌, refl, ap, ◌∙◌, Bool, ◌&&◌, ◌||◌, ◌==◌, ltb, not, if◌then◌else◌, arith,
}
use obs.Sink.Date.{
  year_of_era, days_before, month_of, day_of, date_of, ymd_of_era, ymd_from_days, ymd_from_secs,
}

unfoldable pub is_leap : ℕ → Bool
is_leap y = (y % 4 == 0) && (not (y % 100 == 0) || (y % 400 == 0))

unfoldable pub days_in_month : ℕ → ℕ → ℕ
unfolding is_leap
days_in_month y m =
    if m == 2
    then (if is_leap y then 29 else 28)
    else if (m == 4) || (m == 6) || (m == 9) || (m == 11)
    then 30
    else 31

unfoldable pub next_day : ℕ × ℕ × ℕ → ℕ × ℕ × ℕ
unfolding days_in_month
next_day (y, m, d) =
    if ltb d (days_in_month y m)
    then (y, m, d + 1)
    else if ltb m 12
    then (y, m + 1, 1)
    else (y + 1, 1, 1)

-- The days from 1 January 1970 on.
unfoldable pub calendar : ℕ → ℕ × ℕ × ℕ
unfolding next_day
calendar zero = (1970, 1, 1)
calendar (suc n) = next_day (calendar n)

year_low : (doe : ℕ) → doe < 146097 → days_before (year_of_era doe) ≤ doe
unfolding year_of_era days_before
year_low doe h = omega arith

year_high :
    (doe : ℕ) → doe < 146097 → (year_of_era doe ≢ 399) → doe < days_before (year_of_era doe + 1)
unfolding year_of_era days_before
year_high doe h n = omega arith

date_step :
    (y doy : ℕ)
    → doy < 365
    → (337 ≤ doy → doy < 364 + (if is_leap (y + 1) then 1 else 0))
    → date_of y (suc doy) ≡ next_day (date_of y doy)
unfolding date_of month_of day_of next_day days_in_month
date_step y doy h feb = ground arith

date_turn :
    (y doy : ℕ)
    → doy ≡ 364 + (if is_leap (y + 1) then 1 else 0)
    → date_of (suc y) 0 ≡ next_day (date_of y doy)
unfolding date_of month_of day_of next_day days_in_month
date_turn y doy h = ground (arith, h)

-- The days of the year of an era that begins in March.
abbrev length_of : ℕ → ℕ
length_of y = 365 + (if is_leap (y + 1) then 1 else 0)

leap_of_era : (y era : ℕ) → is_leap (y + era * 400 + 1) ≡ is_leap (y + 1)
unfolding is_leap
leap_of_era y era = ground arith

year_length : (y : ℕ) → y < 399 → days_before (y + 1) ≡ days_before y + length_of y
unfolding days_before is_leap
year_length y h = ground arith

year_same :
    (doe : ℕ)
    → suc doe < 146097
    → ((suc doe < days_before (year_of_era doe + 1)) ⊎ (year_of_era doe ≡ 399))
    → year_of_era (suc doe) ≡ year_of_era doe
unfolding year_of_era days_before
year_same doe h s = omega arith

year_turn :
    (doe : ℕ)
    → suc doe < 146097
    → days_before (year_of_era doe + 1) ≤ suc doe
    → (year_of_era doe ≢ 399)
    → year_of_era (suc doe) ≡ suc (year_of_era doe)
unfolding year_of_era days_before
year_turn doe h s n = omega arith

year_cases :
    (doe : ℕ)
    → ((suc doe < days_before (year_of_era doe + 1)) ⊎ (year_of_era doe ≡ 399))
      ⊎ ((days_before (year_of_era doe + 1) ≤ suc doe) × (year_of_era doe ≢ 399))
year_cases doe = elim (Bool-cases (ltb (suc doe) (days_before (year_of_era doe + 1)))) [
  | inl e ↦ inl (inl (ltb→lt _ _ e))
  | inr e ↦ elim (Bool-cases (year_of_era doe == 399)) [
    | inl t ↦ inl (inr (ground (arith, t)))
    | inr t ↦ inr (ltb→le _ _ e, λ same. absurd (ground (arith, t, same)))
  ]
]

day_low :
    (doe y : ℕ)
    → suc doe < 146097
    → y ≤ 399
    → days_before y ≤ doe
    → ((suc doe < days_before (y + 1)) ⊎ (y ≡ 399))
    → doe - days_before y < 364 + (if is_leap (y + 1) then 1 else 0)
unfolding days_before is_leap
day_low doe y h top low s = ground arith

day_last :
    (doe y : ℕ)
    → y < 399
    → days_before (y + 1) ≤ suc doe
    → doe < days_before (y + 1)
    → doe - days_before y ≡ 364 + (if is_leap (y + 1) then 1 else 0)
day_last doe y h low high = omega (arith, year_length y h, low, high)

year_top : (doe : ℕ) → doe < 146097 → year_of_era doe ≤ 399
unfolding year_of_era
year_top doe h = omega arith

first_day :
    (doe y : ℕ)
    → days_before (y + 1) ≤ suc doe
    → doe < days_before (y + 1)
    → suc doe - days_before (suc y) ≡ 0
unfolding days_before
first_day doe y low high = omega (arith, low, high)

suc_plus : (a b : ℕ) → suc a + b ≡ suc (a + b)
suc_plus a b = omega arith

next_era : (era : ℕ) → 0 + suc era * 400 ≡ suc (399 + era * 400)
next_era era = omega arith

suc_minus : (a b : ℕ) → b ≤ a → suc a - b ≡ suc (a - b)
suc_minus a b h = omega (arith, h)

era_step :
    (era doe : ℕ) → suc doe < 146097 → ymd_of_era era (suc doe) ≡ next_day (ymd_of_era era doe)
unfolding ymd_of_era
era_step era doe h =
    let y = year_of_era doe in
    let here : doe < 146097 = omega (arith, h) in
    let low = year_low doe here in
    let top = year_top doe here in
    elim (year_cases doe) [
      | inl same ↦
          let bound = day_low doe y h top low same in
          rw (year_same doe h same, suc_minus doe (days_before y) low)
            (date_step (y + era * 400) (doe - days_before y) (ground (arith, bound))
              (λ feb. rw (leap_of_era y era) bound))
      | inr (last, n) ↦
          let below : y < 399 = omega (arith, top, n) in
          rw
            (
              year_turn doe h last n,
              suc_plus y (era * 400),
              first_day doe y last (year_high doe here n),
            )
            (date_turn (y + era * 400) (doe - days_before y)
              (rw (leap_of_era y era) (day_last doe y below last (year_high doe here n))))
    ]

leap_at_end : 365 ≡ 364 + (if is_leap (399 + 1) then 1 else 0)
unfolding is_leap
leap_at_end = refl

era_turn : (era : ℕ) → ymd_of_era (suc era) 0 ≡ next_day (ymd_of_era era 146096)
unfolding ymd_of_era
era_turn era =
    rw (next_era era) (date_turn (399 + era * 400) 365 (rw (leap_of_era 399 era) leap_at_end))

first_date : ymd_of_era 4 135080 ≡ (1970, 1, 1)
unfolding ymd_of_era
first_date = refl

in_era :
    (z : ℕ)
    → z % 146097 ≢ 146096
    → (suc z / 146097 ≡ z / 146097)
      × (suc z % 146097 ≡ suc (z % 146097))
      × (suc (z % 146097) < 146097)
in_era z h = omega arith

end_of_era :
    (z : ℕ) → z % 146097 ≡ 146096 → (suc z / 146097 ≡ suc (z / 146097)) × (suc z % 146097 ≡ 0)
end_of_era z h = omega arith

era_next :
    (z : ℕ)
    → ymd_of_era (suc z / 146097) (suc z % 146097) ≡ next_day (ymd_of_era (z / 146097) (z % 146097))
era_next z = elim (Bool-cases (z % 146097 == 146096)) [
  | inl e ↦
      let at : z % 146097 ≡ 146096 = ground (arith, e) in
      let (d, m) = end_of_era z at in rw (d, m, at) (era_turn (z / 146097))
  | inr e ↦
      let (d, m, below) = in_era z (λ same. absurd (ground (arith, e, same))) in
      rw (d, m) (era_step (z / 146097) (z % 146097) below)
]

days_lem : (n : ℕ) → ymd_of_era ((n + 719468) / 146097) ((n + 719468) % 146097) ≡ calendar n
unfolding calendar
days_lem zero = first_date
days_lem (suc n) = rw (suc_plus n 719468) (era_next (n + 719468) ∙ ap next_day (days_lem n))

year_bound :
    (n : ℕ)
    → n ≤ 2 ^ 56 / 86400
    → (ymd_of_era ((n + 719468) / 146097) ((n + 719468) % 146097)).0 < 2 ^ 32
unfolding ymd_of_era date_of year_of_era
year_bound n h = ground (arith, h)

year_fits :
    (date : ℕ × ℕ × ℕ)
    → date.0 < 2 ^ 32
    → ◌≡◌ {A = ℕ × ℕ × ℕ} (date.0 % 2 ^ 32, date.1, date.2) date
year_fits (y, m, d) h = let fits : y % 2 ^ 32 ≡ y = omega (arith, h) in rw (fits) refl

-- For the first 2 ^ 56 seconds since the epoch the date is the one that counting the days of the
-- Gregorian calendar from 1 January 1970 on gives.
pub ymd_from_secs-calendar :
    (secs : ℕ) → secs < 2 ^ 56 → ymd_from_secs secs ≡ calendar (secs / 86400)
unfolding ymd_from_secs ymd_from_days
ymd_from_secs-calendar secs h =
    year_fits (ymd_of_era ((secs / 86400 + 719468) / 146097) ((secs / 86400 + 719468) % 146097))
      (year_bound (secs / 86400) (omega (arith, h)))
    ∙ days_lem (secs / 86400)

pub ymd_from_secs-same : (a b : ℕ) → a / 86400 ≡ b / 86400 → ymd_from_secs a ≡ ymd_from_secs b
unfolding ymd_from_secs
ymd_from_secs-same a b h = ap ymd_from_days h
