-- ===== src/Runtime/Scheduler.antt =====
-- internal/runtime/cron_sched.go: the scheduled tasks. A goroutine of executeTask is a run in a
-- list, from its start to its end. What a command answers is an outcome.
pub mod Firing
pub mod Running
use mathlib.Core.Option
use lambs_server.Base.{
  ℕ, ◌+◌, ◌-◌, Bool, true, false, not, ◌&&◌, ◌||◌, String, Option, none, some, List, [], ◌∷◌, ◌++◌,
  contains, filter, find, update_where, leb, length, drop, lookup, insert, if◌then◌else◌, ◌==◌,
  nat_eq, string_eq, Result, ok, err, ◌>>=◌,
}
use lambs_server.Base.Text.{Text}
use lambs_server.Store.{exec, query_row}
use lambs_server.Access.{Notice}
use lambs_server.Runtime.Cron.{CronError, panicked, CronSpec, parse_cron, matches}
use lambs_server.Runtime.Cron.Calendar.{Time}

-- A row of `scheduled_tasks`; `last_log` is a list of bytes.
pub record Task : Type 0 where
  pub id : String
  pub project_id : String
  pub name : Text
  pub cron : Text
  pub command : String
  pub host : String
  pub enabled : Bool
  pub last_status : String
  pub last_log : List ℕ

-- A goroutine of executeTask, with the values it was started with; `manual` is one that
-- StartTaskRun started, which holds an entry of `taskRunning`.
pub record Run : Type 0 where
  pub id : String
  pub project_id : String
  pub command : String
  pub host : String
  pub manual : Bool

-- The tables, `taskRunning`, the calls of StartTaskRun that have set their guard and go on, `lastFired`
-- by the minute, and the goroutines.
pub record Scheduler : Type 0 where
  pub tasks : List Task
  pub notices : List Notice
  pub running : List String
  pub starting : List String
  pub last_fired : List (String × ℕ)
  pub runs : List Run

abbrev pub log_tail_bytes : ℕ
log_tail_bytes = 8192

unfoldable pub tail_log : List ℕ → List ℕ
tail_log s = if leb (length s) log_tail_bytes then s else drop (length s - log_tail_bytes) s

abbrev pub run_of : (manual : Bool) → Task → Run
run_of manual t = record {
  id = t.id;
  project_id = t.project_id;
  command = t.command;
  host = t.host;
  manual = manual;
}

pub data StartError : Type 0 where
  already_running no_task : StartError

-- The first critical section of StartTaskRun: the guard is tested and set.
unfoldable pub start_begin : String → Scheduler → Scheduler × Option StartError
start_begin id s =
    if contains s.running id
    then (s, some already_running)
    else (record s { running = id ∷ s.running; starting = id ∷ s.starting }, none)

-- What follows the query: without a row the second critical section gives the guard back, with one
-- the goroutine is started.
start_found :
    String → (others : List String) → Option Task → Scheduler → Scheduler × Option StartError
start_found id others none s =
    (record s { starting = others; running = filter (λ x. not (x == id)) s.running }, some no_task)
start_found id others (some t) s =
    (record s { starting = others; runs = run_of true t ∷ s.runs }, none)

-- The query and the rest of a call of StartTaskRun, which stands between `before` and `after` among
-- those that have set their guard.
unfoldable pub start_end :
    (down : Bool)
    → (before : List String) → String
    → (after : List String) → Scheduler
    → Scheduler × Option StartError
unfolding start_found query_row
start_end down before id after s =
    start_found id (before ++ after) (query_row down (find (λ t. t.id == id) s.tasks)) s

-- The rest of the call, if the guard was set.
start_rest :
    (down : Bool)
    → String
    → (others : List String) → Scheduler × Option StartError
    → Scheduler × Option StartError
unfolding start_end
start_rest down id others (s, some why) = (s, some why)
start_rest down id others (s, none) = start_end down [] id others s

-- A call of StartTaskRun with nothing between its parts; none is no error.
unfoldable pub start_task_run : (down : Bool) → String → Scheduler → Scheduler × Option StartError
unfolding start_begin start_rest
start_task_run down id s = start_rest down id s.starting (start_begin id s)

-- What a command answered: the status is "success", "failed" or "timeout".
pub record Outcome : Type 0 where
  pub is_ok : Bool
  pub out : List ℕ
  pub status : String

-- The row and the notification that executeTask writes, with the id of the notification.
unfoldable pub record_outcome :
    (down_task down_notice : Bool) → (nid : String) → Run → Outcome → Scheduler → Scheduler
unfolding exec
record_outcome down_task down_notice nid r o s = record s {
  tasks =
      exec down_task
        (update_where (λ t. t.id == r.id)
          (λ t. record t { last_status = o.status; last_log = o.out }))
        s.tasks;
  notices =
      if o.is_ok
      then s.notices
      else exec down_notice
          (λ ns.
            record { id = nid; project_id = r.project_id; kind = "alert"; is_read = false } ∷ ns)
          s.notices;
}

-- The end of a run, which stands after `before`: a manual run gives its entry back.
unfoldable pub finish_run :
    (down_task down_notice : Bool)
    → (nid : String) → (before : List Run) → Run
    → (after : List Run) → Outcome
    → Scheduler
    → Scheduler
unfolding record_outcome
finish_run down_task down_notice nid before r after o s =
    let done = record_outcome down_task down_notice nid r o s in
    record done {
      runs = before ++ after;
      running = if r.manual then filter (λ x. not (x == r.id)) s.running else s.running;
    }

unfoldable pub has_fired : Option ℕ → ℕ → Bool
has_fired none now = false
has_fired (some minute) now = minute == now

-- One round of the loop of cronTickOnce, for an expression that is parsed.
unfoldable pub fire_matching :
    (local : ℕ → Time) → (now : ℕ) → Task → CronSpec → Scheduler → Scheduler
unfolding has_fired
fire_matching local now t spec s =
    if not (matches spec (local now))
    then s
    else if has_fired (lookup t.id s.last_fired) now
    then s
    else record s { last_fired = insert t.id now s.last_fired; runs = run_of false t ∷ s.runs }

unfoldable pub is_panic : CronError → Bool
is_panic panicked = true
is_panic _ = false

-- An expression that does not parse is passed over; a panic ends the server.
unfoldable pub fire_parsed :
    (local : ℕ → Time) → (now : ℕ) → Task → Result CronError CronSpec → Scheduler → Option Scheduler
unfolding fire_matching is_panic
fire_parsed local now t (err why) s = if is_panic why then none else some s
fire_parsed local now t (ok spec) s = some (fire_matching local now t spec s)

-- What follows does not happen after a panic.
abbrev pub and_then : Option Scheduler → (Scheduler → Option Scheduler) → Option Scheduler
and_then none rest = none
and_then (some s) rest = rest s

unfoldable pub fire_all : (local : ℕ → Time) → (now : ℕ) → List Task → Scheduler → Option Scheduler
unfolding fire_parsed
fire_all local now [] s = some s
fire_all local now (t ∷ ts) s =
    and_then (fire_parsed local now t (parse_cron t.cron) s) (λ s'. fire_all local now ts s')

-- cronTickOnce in the minute `now`, counted from the epoch; `local` is its wall clock. none is a
-- panic.
unfoldable pub cron_tick_once :
    (down : Bool) → (local : ℕ → Time) → (now : ℕ) → Scheduler → Option Scheduler
cron_tick_once down local now s =
    if down then some s else fire_all local now (filter (λ t. t.enabled) s.tasks) s
