-- ===== src/Tests/Health.antt =====
-- A project whose process is down, and a pass of the health monitor over it.
use lambs_server.Base.{
  ℕ, ◌+◌, ◌≤◌, ◌≡◌, refl, Bool, true, false, not, ◌&&◌, String, Option, some, none, List, [], ◌∷◌,
  filter, any, All, ok, err, arith,
}
use lambs_server.Base.Text.{Text, codes, pos}
use lambs_server.Store.{Project, no_project}
use lambs_server.Runtime.Processes.{Waiter, Processes, Host}
use lambs_server.Runtime.Processes.Counted
use lambs_server.Runtime.Processes.Counted.{Steps, live, tracked, Steps-processes}
use lambs_server.Runtime.Health.{Surroundings, Health, is_managed, health_once}
use lambs_server.Runtime.Health.Told.{IsCaredFor, health_once-tends}
use lambs_server.Runtime.Health.Panics.{is_none, is_fatal, health_once-panics}
use lambs_server.Runtime.Health.Cooldown
use lambs_server.Runtime.Health.Cooldown.{count_alerts, alerts-once}

abbrev site : Project
site = record no_project {
  id = "p1";
  status = "online";
  startup_command = codes "run";
  port = codes "80";
}

abbrev answering : Host
answering = record {
  available = none;
  min_free = pos 100;
  service_name = [];
  port = codes "80";
  startup_command = codes "run";
  has_unit = false;
  systemctl_failure = none;
  has_binary = false;
  spawned = ok 7;
  now = 5;
}

abbrev surroundings : Surroundings
surroundings = record {
  host = λ id. answering;
  main_pid = λ name. false;
  clock = λ id. 900;
  is_active = λ unit. false;
  machine = record { has_memory = λ name. true; launches = λ name. true };
  down_projects = false;
  down_status = λ id. false;
  down_start = λ id. false;
  down_notices = false;
  notice_id = λ id. "n1";
}

abbrev failing : Surroundings
failing = record surroundings {
  host = λ id. record answering { spawned = err (codes "no such file") };
}

abbrev quiet : Processes
quiet = record { procs = []; waiters = []; stopping = [] }

abbrev one_running : Processes
one_running = record {
  procs = ("p1", record { pid = 7; port = pos 80; started = 5 }) ∷ [];
  waiters = record { project = "p1"; pid = 7 } ∷ [];
  stopping = [];
}

abbrev before : Health
before = record { processes = quiet; last_alert = []; services = []; notices = []; events = [] }

abbrev restarted : Health
restarted = record before {
  processes = one_running;
  notices = record { id = "n1"; project_id = "p1"; kind = "info"; is_read = false } ∷ [];
}

abbrev alerted : Health
alerted = record before {
  last_alert = ("p1", 900) ∷ [];
  notices = record { id = "n1"; project_id = "p1"; kind = "alert"; is_read = false } ∷ [];
}

abbrev first_waiter : Waiter
first_waiter = record { project = "p1"; pid = 7 }

-- Stop takes away the entry of the process that was started while it waited.
abbrev raced : Processes
raced = record { procs = []; waiters = record { project = "p1"; pid = 8 } ∷ []; stopping = [] }

Steps-processes_example :
    (tracked "p1" raced ≤ live "p1" raced) × (live "p1" raced ≤ tracked "p1" raced + 1)
unfolding lambs_server.Base.count lambs_server.Runtime.Processes.start lambs_server.Base.lookup
    lambs_server.Runtime.Processes.stop_begin lambs_server.Runtime.Processes.reap
    lambs_server.Base.erase lambs_server.Base.text_beq
    lambs_server.Runtime.Processes.Commands.parse_command lambs_server.Base.Text.has_prefix
    lambs_server.Base.Text.fields lambs_server.Base.insert lambs_server.Runtime.Processes.stop_end
Steps-processes_example =
    Steps-processes "p1" {n = 1} {s = quiet} {s' = raced}
      (Counted.Steps.starts answering "p1" (
        Counted.Steps.stops "p1" (
          Counted.Steps.ends [] first_waiter [] refl (
            Counted.Steps.starts (record answering { spawned = ok 8 }) "p1"
              (Counted.Steps.stopped {n = 0} [] first_waiter [] refl refl refl
                Counted.Steps.done)))))
      refl

health_once-tends_example :
    All (IsCaredFor surroundings before restarted) (filter is_managed (site ∷ []))
unfolding health_once filter is_managed lambs_server.Base.text_beq lambs_server.Base.lookup
    lambs_server.Runtime.Processes.start lambs_server.Runtime.Processes.Commands.parse_command
    lambs_server.Base.Text.has_prefix lambs_server.Base.Text.fields lambs_server.Base.insert
    lambs_server.Base.Text.parse_int lambs_server.Base.erase
health_once-tends_example = health_once-tends surroundings (site ∷ []) before restarted refl refl

health_once-panics_example :
    is_none (health_once surroundings true (site ∷ []) before)
    ≡ (true && (not false && any (is_fatal surroundings before) (filter is_managed (site ∷ []))))
health_once-panics_example = health_once-panics surroundings true (site ∷ []) before (tt, tt)

alerts-once_example : count_alerts "p1" alerted.notices ≤ count_alerts "p1" before.notices + 1
unfolding health_once filter is_managed lambs_server.Base.text_beq lambs_server.Base.lookup
    lambs_server.Runtime.Processes.start lambs_server.Runtime.Processes.Commands.parse_command
    lambs_server.Base.Text.has_prefix lambs_server.Base.Text.fields
    lambs_server.Base.Text.has_substring lambs_server.Runtime.Processes.message
alerts-once_example = alerts-once "p1" 600 refl (
    Cooldown.Passes.next {s = before} failing true (site ∷ []) (omega arith, omega arith) refl
      Cooldown.Passes.done)
