-- ===== src/Runtime/Cron/Scan.antt =====
-- `nextAfter` finds the first minute that matches.
use lambs_server.Base.{
  ℕ, zero, suc, ◌+◌, ◌-◌, ◌*◌, ◌≤◌, ◌<◌, ◌≡◌, refl, true, false, Option, none, some, arith,
  Bool-cases, inl, inr,
}
use native.Mathlib.Nat.{zero-add, suc-add}
use lambs_server.Runtime.Cron.{CronSpec, matches}
use lambs_server.Runtime.Cron.Calendar.{
  Day, Time, next_day, same_day, at_minute, next_minute, rank, rank-next_day, next_day_bounds,
  rank_of_same_day,
}
use lambs_server.Runtime.Cron.Next.{scan_day, start_minute, or_else, scan_days, next_after}

at_minute_below : (d : Day) (m : ℕ) → m < 1440 → at_minute d m ≡ record { day = d; minute = m }
unfolding at_minute
at_minute_below d m h = ground arith

at_minute_end : (d : Day) → at_minute d 1440 ≡ record { day = next_day d; minute = 0 }
unfolding at_minute
at_minute_end d = refl

next_minute-at :
    (d : Day) (m : ℕ) → next_minute (record { day = d; minute = m }) ≡ at_minute d (m + 1)
unfolding next_minute
next_minute-at d m = refl

module _ (s : CronSpec) where
  -- `c` is the first minute from `t` on that matches.
  pub data First : Time → Time → Type 0 where
    here : {t : Time} → matches s t ≡ true → First t t
    later : {t c : Time} → matches s t ≡ false → First (next_minute t) c → First t c

  -- None of the first `n` minutes from `t` on matches.
  pub data Barren : ℕ → Time → Type 0 where
    empty : {t : Time} → Barren zero t
    more : {n : ℕ} {t : Time} → matches s t ≡ false → Barren n (next_minute t) → Barren (suc n) t

  -- The two outcomes of a search through `n` minutes from `t` on.
  abbrev pub Searched : ℕ → Time → Option Time → Type 0
  Searched n t (some c) = First t c
  Searched n t none = Barren n t

  Searched-prepend :
      (n : ℕ) (t : Time) (r : Option Time)
      → matches s t ≡ false
      → Searched n (next_minute t) r
      → Searched (suc n) t r
  Searched-prepend n t none e h = more e h
  Searched-prepend n t (some c) e h = later e h

  -- A day's scan, then the scan of what follows.
  scan_day-Searched :
      (d : Day) (rounds m n : ℕ) (rest : Option Time)
      → m + rounds ≡ 1440
      → Searched n (at_minute d 1440) rest
      → Searched (rounds + n) (at_minute d m) (or_else (scan_day s d rounds m) rest)
  unfolding scan_day or_else
  scan_day-Searched d zero m n rest full h = let e : m ≡ 1440 = omega arith in rw (e, zero-add) h
  scan_day-Searched d (suc rounds) m n rest full h =
      let ih = scan_day-Searched d rounds (m + 1) n rest (omega arith) h in
      rw (at_minute_below d m (omega arith))
        (elim (Bool-cases (matches s (record { day = d; minute = m }))) [
          | inl yes' ↦ rw yes' (here yes')
          | inr no' ↦
              rw (no', suc-add)
                (Searched-prepend (rounds + n) (record { day = d; minute = m })
                  (or_else (scan_day s d rounds (m + 1)) rest) no' (rw (next_minute-at d m) ih))
        ])

  start_minute-later : (t : Time) (d : Day) → rank t.day < rank d → start_minute t d ≡ 0
  unfolding start_minute
  start_minute-later t d h = ground (arith, rank_of_same_day d t.day)

  start_minute-today : (t : Time) → start_minute t t.day ≡ t.minute + 1
  unfolding start_minute same_day
  start_minute-today t = ground arith

  -- The days behind the first one.
  scan_days-Searched :
      (t : Time) (rounds : ℕ) (d : Day)
      → rank t.day < rank d
      → d.day ≤ 31
      → d.month ≤ 12
      → Searched (rounds * 1440) (at_minute d 0) (scan_days s t rounds d)
  unfolding scan_days
  scan_days-Searched t zero d lt hd hm = empty
  scan_days-Searched t (suc rounds) d lt hd hm =
      let (hd', hm') = next_day_bounds d hd hm in
      let ih =
        scan_days-Searched t rounds (next_day d) (omega (arith, rank-next_day d hd hm)) hd' hm' in
      let same : suc rounds * 1440 ≡ 1440 + rounds * 1440 = omega arith in
      rw (same, start_minute-later t d lt)
        (scan_day-Searched d 1440 0 (rounds * 1440) (scan_days s t rounds (next_day d)) refl
          (rw (at_minute_end d) (rw (at_minute_below (next_day d) 0 (omega arith)) at ih)))

  -- How many minutes `next_after` looks at: the rest of the day, and 1829 days more.
  abbrev pub horizon : Time → ℕ
  horizon t = (1440 - (t.minute + 1)) + 1829 * 1440

  next_after_lem :
      (t : Time)
      → next_after s t
        ≡ or_else
            (scan_day s t.day (1440 - start_minute t t.day) (start_minute t t.day))
            (scan_days s t 1829 (next_day t.day))
  unfolding next_after
  next_after_lem t = first_day t 1829 t.day
    where
      first_day :
          (t : Time) (rounds : ℕ) (d : Day)
          → scan_days s t (suc rounds) d
            ≡ or_else
                (scan_day s d (1440 - start_minute t d) (start_minute t d))
                (scan_days s t rounds (next_day d))
      first_day t rounds d = unfold scan_days in refl

  -- From a minute of the calendar: a minute that `nextAfter` returns is the first one behind the
  -- given minute that matches the expression; and if it returns the zero time, no minute matches in
  -- the rest of that day and the 1829 days behind it.
  pub next_after-Searched :
      (t : Time)
      → t.minute < 1440
      → t.day.day ≤ 31
      → t.day.month ≤ 12
      → Searched (horizon t) (next_minute t) (next_after s t)
  next_after-Searched t hm hd hmo =
      let (hd', hm') = next_day_bounds t.day hd hmo in
      let ih = scan_days-Searched t 1829 (next_day t.day) (rank-next_day t.day hd hmo) hd' hm' in
      rw (next_after_lem t, start_minute-today t)
        (rw (next_minute-at t.day t.minute) (
          scan_day-Searched t.day (1440 - (t.minute + 1)) (t.minute + 1) (1829 * 1440)
            (scan_days s t 1829 (next_day t.day)) (omega arith)
            (rw (at_minute_end t.day)
              (rw (at_minute_below (next_day t.day) 0 (omega arith)) at ih))))
