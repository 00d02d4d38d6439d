-- ===== src/Runtime/Cron/Calendar.antt =====
-- The part of Go's `time` that `nextAfter` walks over: wall-clock minutes of Gregorian days, in a
-- time zone whose offset does not change.
use lambs_server.Base.{
  ℕ, ◌+◌, ◌*◌, ◌%◌, ◌≤◌, ◌<◌, ◌≡◌, refl, Bool, true, not, ◌&&◌, ◌||◌, ltb, ◌==◌, nat_eq,
  if◌then◌else◌, arith,
}

pub record Day : Type 0 where
  pub year : ℕ
  pub month : ℕ
  pub day : ℕ
  pub weekday : ℕ

-- A minute: the day, and the minutes since its midnight.
pub record Time : Type 0 where
  pub day : Day
  pub minute : ℕ

is_leap : ℕ → Bool
is_leap y = y % 4 == 0 && (not (y % 100 == 0) || y % 400 == 0)

unfoldable pub days_in : ℕ → ℕ → ℕ
unfolding is_leap
days_in y m =
    if m == 2
    then (if is_leap y then 29 else 28)
    else if m == 4 || (m == 6 || (m == 9 || m == 11))
    then 30
    else 31

-- `day.AddDate(0, 0, 1)`
unfoldable pub next_day : Day → Day
unfolding days_in
next_day d =
    let weekday = (d.weekday + 1) % 7 in
    if ltb d.day (days_in d.year d.month)
    then record { year = d.year; month = d.month; day = d.day + 1; weekday = weekday }
    else if ltb d.month 12
    then record { year = d.year; month = d.month + 1; day = 1; weekday = weekday }
    else record { year = d.year + 1; month = 1; day = 1; weekday = weekday }

-- `day.Equal(tDay)` for two midnights.
unfoldable pub same_day : Day → Day → Bool
same_day a b = a.year == b.year && (a.month == b.month && a.day == b.day)

-- The minute `m` of a day, or the first minute of the next day where `m` is 1440.
unfoldable pub at_minute : Day → ℕ → Time
at_minute d m =
    if ltb m 1440 then record { day = d; minute = m } else record { day = next_day d; minute = 0 }

-- One minute later.
unfoldable pub next_minute : Time → Time
unfolding at_minute
next_minute t = at_minute t.day (t.minute + 1)

-- Days in order of time have increasing ranks.
unfoldable pub rank : Day → ℕ
rank d = d.year * 372 + d.month * 31 + d.day

days_in-le : (y m : ℕ) → days_in y m ≤ 31
unfolding days_in
days_in-le y m = ground arith

pub rank-next_day : (d : Day) → d.day ≤ 31 → d.month ≤ 12 → rank d < rank (next_day d)
unfolding rank next_day
rank-next_day d hd hm = ground (arith, days_in-le d.year d.month)

pub next_day_bounds :
    (d : Day) → d.day ≤ 31 → d.month ≤ 12 → ((next_day d).day ≤ 31) × ((next_day d).month ≤ 12)
unfolding next_day
next_day_bounds d hd hm = ground (arith, days_in-le d.year d.month)

pub rank_of_same_day : (a b : Day) → same_day a b ≡ true → rank a ≡ rank b
unfolding same_day rank
rank_of_same_day a b h = ground arith

leap_day :
    next_day (record { year = 2024; month = 2; day = 28; weekday = 3 })
    ≡ record { year = 2024; month = 2; day = 29; weekday = 4 }
unfolding next_day
leap_day = refl
