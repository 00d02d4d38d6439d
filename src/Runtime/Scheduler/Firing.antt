-- ===== src/Runtime/Scheduler/Firing.antt =====
-- When the scheduler starts a task.
use lambs_server.Base.{
  ℕ, ◌+◌, ◌≤◌, ◌≡◌, refl, ap, subst, Bool, true, false, not, ◌&&◌, ◌||◌, String, Option, none, some,
  List, [], ◌∷◌, any, filter, lookup, insert, lookup-insert, if◌then◌else◌, ◌==◌, eq_iff, nat_eq,
  string_eq, Result, ok, err, arith,
}
use lambs_server.Runtime.Cron.{CronError, CronSpec, parse_cron, matches}
use lambs_server.Runtime.Cron.Calendar.{Time}
use lambs_server.Runtime.Scheduler.{
  Task, Run, Scheduler, has_fired, fire_matching, fire_parsed, fire_all, cron_tick_once, and_then,
}

-- How many goroutines run the task.
abbrev pub count_runs : String → List Run → ℕ
count_runs id [] = 0
count_runs id (r ∷ rs) = (if r.id == id then 1 else 0) + count_runs id rs

-- The expression was parsed and matches the minute.
unfoldable pub is_match : (ℕ → Time) → ℕ → Result CronError CronSpec → Bool
is_match local now (err why) = false
is_match local now (ok spec) = matches spec (local now)

-- The task of this id is enabled, and its expression matches the minute.
unfoldable pub is_due : (ℕ → Time) → ℕ → String → Task → Bool
is_due local now id t = t.id == id && is_match local now (parse_cron t.cron)

unfoldable pub fired : ℕ → String → Scheduler → Bool
fired now id s = has_fired (lookup id s.last_fired) now

-- A round, or all of them, for the task `id`: whether it has fired in the minute, and its runs.
record Fires (due : Bool) (now : ℕ) (id : String) (s s' : Scheduler) : Type 0 where
  fires : fired now id s' ≡ (due || fired now id s)
  counts :
      count_runs id s'.runs ≡ count_runs id s.runs + (if due && not (fired now id s) then 1 else 0)

fired-insert :
    (now : ℕ) (id k : String) (s : List (String × ℕ))
    → has_fired (lookup id (insert k now s)) now ≡ (k == id || has_fired (lookup id s) now)
unfolding has_fired
fired-insert now id k s = rw (lookup-insert k id now s) (ground (arith, eq_iff now now))

fired-same :
    (now : ℕ) (id k : String) (s : List (String × ℕ))
    → (k == id) ≡ true
    → has_fired (lookup k s) now ≡ has_fired (lookup id s) now
fired-same now id k s same = ap (λ x. has_fired (lookup x s) now) ((eq_iff k id).0 same)

pub and_then-some :
    (o : Option Scheduler) (rest : Scheduler → Option Scheduler) (s' : Scheduler)
    → and_then o rest ≡ some s'
    → (s1 : Scheduler) × (o ≡ some s1) × (rest s1 ≡ some s')
and_then-some none rest s' e = cc
and_then-some (some s1) rest s' e = (s1, refl, e)

module _ (local : ℕ → Time) (now : ℕ) (id : String) where
  fire_matching-Fires :
      (t : Task) (spec : CronSpec) (s : Scheduler)
      → Fires (t.id == id && matches spec (local now)) now id s (fire_matching local now t spec s)
  unfolding fire_matching fired
  fire_matching-Fires t spec s = record {
    fires =
        ground (arith, fired-insert now id t.id s.last_fired, fired-same now id t.id s.last_fired);
    counts = ground (arith, fired-same now id t.id s.last_fired);
  }

  fire_parsed-Fires :
      (t : Task) (o : Result CronError CronSpec) (s s' : Scheduler)
      → fire_parsed local now t o s ≡ some s'
      → Fires (t.id == id && is_match local now o) now id s s'
  unfolding fire_parsed is_match
  fire_parsed-Fires t (err why) s s' e =
      let same : s ≡ s' = ground (arith, e) in
      subst (Fires (t.id == id && false) now id s) same
        (record { fires = ground arith; counts = ground arith })
  fire_parsed-Fires t (ok spec) s s' e =
      let same : fire_matching local now t spec s ≡ s' = cc e in
      subst (Fires (t.id == id && matches spec (local now)) now id s) same
        (fire_matching-Fires t spec s)

  Fires-trans :
      (a b : Bool) (s s' s'' : Scheduler)
      → Fires a now id s s'
      → Fires b now id s' s''
      → Fires (a || b) now id s s''
  Fires-trans a b s s' s'' f g = record {
    fires = ground (arith, f.fires, g.fires);
    counts = ground (arith, f.counts, g.counts, f.fires);
  }

  fire_all-Fires :
      (ts : List Task) (s s' : Scheduler)
      → fire_all local now ts s ≡ some s'
      → Fires (any (is_due local now id) ts) now id s s'
  unfolding fire_all any
  fire_all-Fires [] s s' e =
      let same : s ≡ s' = cc e in
      subst (Fires false now id s) same (record { fires = refl; counts = omega arith })
  fire_all-Fires (t ∷ ts) s s' e =
      let (s1, first, rest) =
        and_then-some (fire_parsed local now t (parse_cron t.cron) s) _ s' e in
      Fires-trans (is_due local now id t) (any (is_due local now id) ts) s s1 s'
        (unfold is_due in fire_parsed-Fires t (parse_cron t.cron) s s1 first)
        (fire_all-Fires ts s1 s' rest)

-- The task of this id is enabled in the table, and its expression matches the minute.
unfoldable pub any_due : (ℕ → Time) → ℕ → String → List Task → Bool
any_due local now id ts = any (is_due local now id) (filter (λ t. t.enabled) ts)

cron_tick_once-Fires :
    (local : ℕ → Time) (now : ℕ) (id : String) (s s' : Scheduler)
    → cron_tick_once false local now s ≡ some s'
    → Fires (any_due local now id s.tasks) now id s s'
unfolding cron_tick_once any_due
cron_tick_once-Fires local now id s s' e =
    fire_all-Fires local now id (filter (λ t. t.enabled) s.tasks) s s' e

-- A pass of the scheduler starts one goroutine for a task that is enabled, whose expression matches
-- the minute and that has not fired in it, none for any other, and remembers that it fired.
pub cron_tick_once-fires :
    (local : ℕ → Time) (now : ℕ) (id : String) (s s' : Scheduler)
    → cron_tick_once false local now s ≡ some s'
    → (fired now id s' ≡ (any_due local now id s.tasks || fired now id s))
      × (count_runs id s'.runs
          ≡ count_runs id s.runs
            + (if any_due local now id s.tasks && not (fired now id s) then 1 else 0))
cron_tick_once-fires local now id s s' e =
    let f = cron_tick_once-Fires local now id s s' e in (f.fires, f.counts)

-- Passes in one minute, each over the table as it stands then.
unfoldable pub passes :
    (ℕ → Time) → (now : ℕ) → (tables : List (List Task)) → Scheduler → Option Scheduler
passes local now [] s = some s
passes local now (ts ∷ tss) s =
    and_then (cron_tick_once false local now (record s { tasks = ts }))
      (λ s'. passes local now tss s')

passes-Fires :
    (local : ℕ → Time) (now : ℕ) (id : String) (tables : List (List Task)) (s s' : Scheduler)
    → passes local now tables s ≡ some s'
    → (due : Bool) × Fires due now id s s'
unfolding passes fired
passes-Fires local now id [] s s' e =
    let same : s ≡ s' = cc e in
    (false, subst (Fires false now id s) same (record { fires = refl; counts = omega arith }))
passes-Fires local now id (ts ∷ tss) s s' e =
    let opened : Scheduler = record s { tasks = ts } in
    let (s1, first, rest) = and_then-some (cron_tick_once false local now opened) _ s' e in
    let f = cron_tick_once-Fires local now id opened s1 first in
    let (due, g) = passes-Fires local now id tss s1 s' rest in
    let kept : Fires (any_due local now id ts) now id s s1 = record {
      fires = f.fires;
      counts = f.counts;
    } in
    (
      any_due local now id ts || due,
      Fires-trans local now id (any_due local now id ts) due s s1 s' kept g,
    )

-- However often the scheduler passes within a minute, and however the table changes between the
-- passes, it starts a task at most once.
pub passes-once :
    (local : ℕ → Time) (now : ℕ) (id : String) (tables : List (List Task)) (s s' : Scheduler)
    → passes local now tables s ≡ some s'
    → count_runs id s'.runs ≤ count_runs id s.runs + 1
passes-once local now id tables s s' e =
    let (due, f) = passes-Fires local now id tables s s' e in ground (arith, f.counts)
