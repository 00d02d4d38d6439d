-- ===== src/Runtime/Cron/Next.antt =====
-- `nextAfter` of internal/runtime/cron_parse.go.
use lambs_server.Base.{ℕ, zero, suc, ◌+◌, ◌-◌, ◌*◌, Option, none, some, if◌then◌else◌}
use lambs_server.Runtime.Cron.{CronSpec, matches}
use lambs_server.Runtime.Cron.Calendar.{Day, Time, next_day, same_day}

-- `for m := startMin; m < 1440; m++` with `rounds` rounds left.
unfoldable pub scan_day : CronSpec → Day → (rounds m : ℕ) → Option Time
scan_day s d zero m = none
scan_day s d (suc rounds) m =
    let rest = scan_day s d rounds (m + 1) in
    let here : Time = record { day = d; minute = m } in if matches s here then some here else rest

-- `startMin`: the first day begins behind the current minute.
unfoldable pub start_minute : Time → Day → ℕ
start_minute t d = if same_day d t.day then t.minute + 1 else 0

unfoldable pub or_else : Option Time → Option Time → Option Time
or_else none later = later
or_else (some c) later = some c

-- The loop over the days, with `rounds` rounds left.
unfoldable pub scan_days : CronSpec → Time → (rounds : ℕ) → Day → Option Time
unfolding or_else start_minute
scan_days s t zero d = none
scan_days s t (suc rounds) d =
    let rest = scan_days s t rounds (next_day d) in
    let start = start_minute t d in or_else (scan_day s d (1440 - start) start) rest

-- `none` is the zero time, for an expression that does not fire within the days scanned.
unfoldable pub next_after : CronSpec → Time → Option Time
unfolding scan_days
next_after s t = scan_days s t (366 * 5) t.day
