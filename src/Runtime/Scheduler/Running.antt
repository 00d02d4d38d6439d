-- ===== src/Runtime/Scheduler/Running.antt =====
-- The guard against two runs of one task that are started by hand.

use lambs_server.Base.{
  ℕ, ◌+◌, ◌≡◌, inl, inr, refl, sym, ap, ◌∙◌, subst, Bool, true, false, not, ◌&&◌, String, Option,
  none, some, List, [], ◌∷◌, ◌++◌, contains, count, count_middle, filter, find, if◌then◌else◌, ◌==◌,
  eq_iff, nat_eq, string_eq, Result, ok, err, arith, Bool-cases,
}
use lambs_server.Store.{query_row}
use lambs_server.Runtime.Cron.{CronError, CronSpec, parse_cron}
use lambs_server.Runtime.Cron.Calendar.{Time}
use lambs_server.Runtime.Scheduler.{
  Task, Run, Scheduler, start_begin, start_found, start_end, Outcome, record_outcome, finish_run,
  fire_matching, fire_parsed, fire_all, cron_tick_once,
}
use lambs_server.Runtime.Scheduler.Firing.{and_then-some}

-- How many runs of the task were started by hand.
abbrev pub count_manual : String → List Run → ℕ
count_manual id [] = 0
count_manual id (r ∷ rs) = (if r.manual && r.id == id then 1 else 0) + count_manual id rs

-- One step: one of the two parts of a start by hand, a pass of the scheduler, the end of a run, or
-- another table.
pub data Step : Scheduler → Scheduler → Type 0 where
  begin : {s : Scheduler} (id : String) → Step s (start_begin id s).0
  start :
      {s : Scheduler} (down : Bool) (before : List String) (id : String) (after : List String)
      → s.starting ≡ before ++ id ∷ after
      → Step s (start_end down before id after s).0
  tick :
      {s s' : Scheduler} (down : Bool) (local : ℕ → Time) (now : ℕ)
      → cron_tick_once down local now s ≡ some s'
      → Step s s'
  finish :
      {s : Scheduler} (down_task down_notice : Bool) (nid : String) (before : List Run) (r : Run)
      (after : List Run) (o : Outcome)
      → s.runs ≡ before ++ r ∷ after
      → Step s (finish_run down_task down_notice nid before r after o s)
  edit : {s : Scheduler} (ts : List Task) → Step s (record s { tasks = ts })

pub data Steps : Scheduler → Scheduler → Type 0 where
  done : {s : Scheduler} → Steps s s
  next : {s s' s'' : Scheduler} → Step s s' → Steps s' s'' → Steps s s''

-- The calls of StartTaskRun for the task that have set the guard and go on.
abbrev pub count_starting : String → List String → ℕ
count_starting id ks = count (λ k. k == id) ks

-- `taskRunning` holds a task if and only if one start by hand is under way: a call that has set the
-- guard, or a run that such a call began.
abbrev pub IsGuarded : String → Scheduler → Type 0
IsGuarded id s =
    count_starting id s.starting + count_manual id s.runs ≡ (if contains s.running id then 1 else 0)

count_manual-append :
    (id : String) (xs ys : List Run)
    → count_manual id (xs ++ ys) ≡ count_manual id xs + count_manual id ys
count_manual-append id [] ys = omega arith
count_manual-append id (x ∷ xs) ys = ground (arith, count_manual-append id xs ys)

contains-filter :
    (id k : String) (l : List String)
    → contains (filter (λ x. not (x == k)) l) id ≡ (contains l id && not (k == id))
unfolding contains filter
contains-filter id k [] = refl
contains-filter id k (x ∷ l) =
    ground (arith, contains-filter id k l, eq_iff x k, eq_iff x id, eq_iff k id)

module _ (id : String) where
  begin-IsGuarded : (k : String) (s : Scheduler) → IsGuarded id s → IsGuarded id (start_begin k s).0
  begin-IsGuarded k s h = elim (Bool-cases (contains s.running k)) [
    | inl busy ↦ unfold start_begin in rw busy h
    | inr free ↦
        let one : IsGuarded id (record s { running = k ∷ s.running; starting = k ∷ s.starting }) =
          unfold contains count in
          ground (arith, h, eq_iff k id, ap (contains s.running) {x = k} {y = id}, free) in
        unfold start_begin in simp free one
  ]

  start_found-IsGuarded :
      (before : List String) (k : String) (after : List String) (o : Option Task) (s : Scheduler)
      → s.starting ≡ before ++ k ∷ after
      → ((t : Task) → o ≡ some t → t.id ≡ k)
      → IsGuarded id s
      → IsGuarded id (start_found k (before ++ after) o s).0
  unfolding start_found
  start_found-IsGuarded before k after none s split named h = ground (
    arith,
    h,
    count_middle (λ x. x == id) before k after s.starting split,
    contains-filter id k s.running,
    eq_iff k id,
  )
  start_found-IsGuarded before k after (some t) s split named h = ground (
    arith,
    h,
    named t refl,
    count_middle (λ x. x == id) before k after s.starting split,
    eq_iff k id,
    eq_iff t.id id,
  )

  fire_matching-IsGuarded :
      (local : ℕ → Time) (now : ℕ) (t : Task) (spec : CronSpec) (s : Scheduler)
      → IsGuarded id s
      → IsGuarded id (fire_matching local now t spec s)
  unfolding fire_matching
  fire_matching-IsGuarded local now t spec s h = ground (arith, h)

  fire_parsed-IsGuarded :
      (local : ℕ → Time) (now : ℕ) (t : Task) (o : Result CronError CronSpec) (s s' : Scheduler)
      → fire_parsed local now t o s ≡ some s'
      → IsGuarded id s
      → IsGuarded id s'
  unfolding fire_parsed
  fire_parsed-IsGuarded local now t (err why) s s' e h =
      let same : s ≡ s' = ground (arith, e) in subst (IsGuarded id) same h
  fire_parsed-IsGuarded local now t (ok spec) s s' e h =
      let same : fire_matching local now t spec s ≡ s' = cc e in
      subst (IsGuarded id) same (fire_matching-IsGuarded local now t spec s h)

  fire_all-IsGuarded :
      (local : ℕ → Time) (now : ℕ) (ts : List Task) (s s' : Scheduler)
      → fire_all local now ts s ≡ some s'
      → IsGuarded id s
      → IsGuarded id s'
  unfolding fire_all
  fire_all-IsGuarded local now [] s s' e h = let same : s ≡ s' = cc e in subst (IsGuarded id) same h
  fire_all-IsGuarded local now (t ∷ ts) s s' e h =
      let (s1, first, rest) =
        and_then-some (fire_parsed local now t (parse_cron t.cron) s) _ s' e in
      fire_all-IsGuarded local now ts s1 s' rest
        (fire_parsed-IsGuarded local now t (parse_cron t.cron) s s1 first h)

find_id : (k : String) (ts : List Task) (t : Task) → find (λ x. x.id == k) ts ≡ some t → t.id ≡ k
unfolding find
find_id k [] t e = cc
find_id k (x ∷ ts) t e = elim (Bool-cases (x.id == k)) [
  | inl hit ↦ ground (arith, e, hit, eq_iff x.id k)
  | inr miss ↦ find_id k ts t (ground (arith, e, miss))
]

start-IsGuarded :
    (down : Bool) (before : List String) (k : String) (after : List String) (id : String)
    (s : Scheduler)
    → s.starting ≡ before ++ k ∷ after
    → IsGuarded id s
    → IsGuarded id (start_end down before k after s).0
unfolding start_end
start-IsGuarded down before k after id s split h =
    start_found-IsGuarded id before k after (query_row down (find (λ t. t.id == k) s.tasks)) s split
      (λ t e. find_id k s.tasks t (unfold query_row in ground (arith, e))) h

tick-IsGuarded :
    (down : Bool) (local : ℕ → Time) (now : ℕ) (id : String) (s s' : Scheduler)
    → cron_tick_once down local now s ≡ some s'
    → IsGuarded id s
    → IsGuarded id s'
unfolding cron_tick_once
tick-IsGuarded true local now id s s' e h = let same : s ≡ s' = cc e in subst (IsGuarded id) same h
tick-IsGuarded false local now id s s' e h =
    fire_all-IsGuarded id local now (filter (λ t. t.enabled) s.tasks) s s' e h

finish-IsGuarded :
    (down_task down_notice : Bool) (nid : String) (before : List Run) (r : Run) (after : List Run)
    (o : Outcome) (id : String) (s : Scheduler)
    → s.runs ≡ before ++ r ∷ after
    → IsGuarded id s
    → IsGuarded id (finish_run down_task down_notice nid before r after o s)
unfolding finish_run record_outcome
finish-IsGuarded down_task down_notice nid before r after o id s split h =
    let whole : count_starting id s.starting + count_manual id (before ++ r ∷ after)
        ≡ (if contains s.running id then 1 else 0) =
      ap (λ rs. count_starting id s.starting + count_manual id rs) (sym split) ∙ h in
    ground (
      arith,
      whole,
      count_manual-append id before (r ∷ after),
      count_manual-append id before after,
      contains-filter id r.id s.running,
      eq_iff r.id id,
    )

Step-IsGuarded : (id : String) {s s' : Scheduler} → Step s s' → IsGuarded id s → IsGuarded id s'
Step-IsGuarded id {s} (begin k) h = begin-IsGuarded id k s h
Step-IsGuarded id {s} (start down before k after split) h =
    start-IsGuarded down before k after id s split h
Step-IsGuarded id {s} {s'} (tick down local now e) h = tick-IsGuarded down local now id s s' e h
Step-IsGuarded id {s} (finish dt dn nid before r after o split) h =
    finish-IsGuarded dt dn nid before r after o id s split h
Step-IsGuarded id (edit ts) h = h

-- In every order of the two parts of starts by hand, passes of the scheduler, ends of runs and
-- changes of the table: the guard of a task is set if and only if one start by hand of it is under way,
-- which is either a call that has set the guard and not yet ended, or a run that such a call began;
-- and there are never two of these.
pub Steps-IsGuarded :
    (id : String) {s s' : Scheduler} → Steps s s' → IsGuarded id s → IsGuarded id s'
Steps-IsGuarded id done h = h
Steps-IsGuarded id (next step steps) h = Steps-IsGuarded id steps (Step-IsGuarded id step h)
