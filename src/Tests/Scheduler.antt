-- ===== src/Tests/Scheduler.antt =====
-- A task that runs every minute.
use lambs_server.Base.{
  ℕ, ◌+◌, ◌≤◌, ◌≡◌, refl, Bool, true, false, not, ◌&&◌, ◌||◌, String, Option, some, none, List, [],
  ◌∷◌, if◌then◌else◌,
}
use lambs_server.Base.Text.{Text, codes}
use lambs_server.Runtime.Cron.Calendar.{Time}
use lambs_server.Runtime.Scheduler.{
  Task, Scheduler, run_of, already_running, start_begin, start_end, start_task_run, cron_tick_once,
  tail_log,
}
use lambs_server.Runtime.Scheduler.Firing.{
  fired, any_due, count_runs, passes, cron_tick_once-fires, passes-once,
}
use lambs_server.Runtime.Scheduler.Running.{IsGuarded, Steps-IsGuarded}
use lambs_server.Tasks.{TaskInput, create_task}
use lambs_server.Tasks.Scheduled.{cron_tick_once-total}

abbrev task : Task
task = record {
  id = "t1";
  project_id = "p1";
  name = codes "clean";
  cron = codes "* * * * *";
  command = "true";
  host = "app1";
  enabled = true;
  last_status = "";
  last_log = [];
}

abbrev waiting : Scheduler
waiting = record {
  tasks = task ∷ [];
  notices = [];
  running = [];
  starting = [];
  last_fired = [];
  runs = [];
}

abbrev fired_once : Scheduler
fired_once = record waiting { last_fired = ("t1", 7) ∷ []; runs = run_of false task ∷ [] }

-- Thursday, the first of January, by the minutes of the day.
abbrev clock : ℕ → Time
clock now = record { day = record { year = 1970; month = 1; day = 1; weekday = 4 }; minute = now }

abbrev input : TaskInput
input = record {
  name = codes "clean";
  cron = codes "* * * * *";
  command = "true";
  host = "";
  enabled = none;
}

abbrev served : Scheduler
served = record waiting { tasks = (create_task false "p1" "t1" (some input) []).0 }

tail_log_test : tail_log (1 ∷ 2 ∷ []) ≡ 1 ∷ 2 ∷ []
unfolding tail_log
tail_log_test = refl

cron_tick_once-fires_example :
    (fired 7 "t1" fired_once ≡ (any_due clock 7 "t1" (task ∷ []) || fired 7 "t1" waiting))
    × (count_runs "t1" fired_once.runs
        ≡ count_runs "t1" waiting.runs
          + (if any_due clock 7 "t1" (task ∷ []) && not (fired 7 "t1" waiting) then 1 else 0))
unfolding cron_tick_once lambs_server.Runtime.Scheduler.fire_all lambs_server.Base.filter
    lambs_server.Runtime.Cron.parse_cron lambs_server.Base.Text.fields
    lambs_server.Runtime.Cron.parse_field lambs_server.Runtime.Cron.parse_parts
    lambs_server.Base.Text.split lambs_server.Runtime.Cron.parse_part lambs_server.Base.Text.cut
    lambs_server.Base.text_beq lambs_server.Runtime.Cron.mark lambs_server.Runtime.Cron.matches
    lambs_server.Base.lookup lambs_server.Base.insert lambs_server.Base.erase
cron_tick_once-fires_example = cron_tick_once-fires clock 7 "t1" waiting fired_once refl

passes-once_example : count_runs "t1" fired_once.runs ≤ count_runs "t1" waiting.runs + 1
unfolding passes cron_tick_once lambs_server.Runtime.Scheduler.fire_all lambs_server.Base.filter
    lambs_server.Runtime.Cron.parse_cron lambs_server.Base.Text.fields
    lambs_server.Runtime.Cron.parse_field lambs_server.Runtime.Cron.parse_parts
    lambs_server.Base.Text.split lambs_server.Runtime.Cron.parse_part lambs_server.Base.Text.cut
    lambs_server.Base.text_beq lambs_server.Runtime.Cron.mark lambs_server.Runtime.Cron.matches
    lambs_server.Base.lookup lambs_server.Base.insert lambs_server.Base.erase
passes-once_example =
    passes-once clock 7 "t1" ((task ∷ []) ∷ (task ∷ []) ∷ []) waiting fired_once refl

abbrev begun : Scheduler
begun = (start_begin "t1" waiting).0

starting_begun : begun.starting ≡ "t1" ∷ []
unfolding start_begin lambs_server.Base.contains
starting_begun = refl

-- A second call finds the guard set before the first one has queried.
second_test : (start_begin "t1" begun).1 ≡ some already_running
unfolding start_begin lambs_server.Base.contains
second_test = refl

start_task_run_test : (start_task_run false "t1" waiting).1 ≡ none
unfolding start_task_run start_begin lambs_server.Base.contains lambs_server.Base.find
start_task_run_test = refl

Steps-IsGuarded_example : IsGuarded "t1" (start_end false [] "t1" [] begun).0
unfolding lambs_server.Base.contains lambs_server.Base.count
Steps-IsGuarded_example =
    Steps-IsGuarded "t1"
      (lambs_server.Runtime.Scheduler.Running.Steps.next
        (lambs_server.Runtime.Scheduler.Running.Step.begin {s = waiting} "t1")
        (lambs_server.Runtime.Scheduler.Running.Steps.next
          (lambs_server.Runtime.Scheduler.Running.Step.start {s = begun} false [] "t1" []
            starting_begun)
          lambs_server.Runtime.Scheduler.Running.Steps.done))
      refl

cron_tick_once-total_example : (s' : Scheduler) × (cron_tick_once false clock 7 served ≡ some s')
cron_tick_once-total_example = cron_tick_once-total clock 7 served (
    lambs_server.Tasks.Scheduled.Steps.next
      (lambs_server.Tasks.Scheduled.Step.create {ts = []} false "p1" "t1" (some input))
      lambs_server.Tasks.Scheduled.Steps.done)
