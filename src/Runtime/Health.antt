-- ===== src/Runtime/Health.antt =====
-- internal/runtime/procmgr.go: one pass of the health monitor, over the projects and then over the
-- shared services. What other goroutines do between the rounds of a pass is not in it.
pub mod Tended
pub mod Panics
pub mod Cooldown
pub mod Told
use lambs_server.Base.{
  ℕ, ◌+◌, ◌-◌, ◌*◌, Bool, true, false, not, ◌&&◌, ◌||◌, String, Option, none, some, List, [], ◌∷◌,
  ◌++◌, map, filter, any, lookup, insert, ltb, if◌then◌else◌, ◌==◌, string_eq, nat_eq, text_eq,
}
use lambs_server.Base.Text.{Text, codes, fields, has_substring}
use lambs_server.Store.{Project, exec}
use lambs_server.Access.{Notice}
use lambs_server.Runtime.Services.{
  Services, SvcState, Machine, Event, failed, is_empty, start_shared,
}
use lambs_server.Runtime.Processes
use lambs_server.Runtime.Processes.{
  Processes, Host, StartError, StartReply, crashed, found, launched, by_systemd, message, start,
}

-- What the surroundings answer in a pass. `host` is for each project's call of Start, whose columns
-- are those of the row, and empty where its query fails (`down_start`); `down_status` is the query of
-- Status; `main_pid` says that systemd names a process for a service; `clock` is the
-- time in nanoseconds at the round of a project; `is_active` is `systemctl is-active` on a unit.
pub record Surroundings : Type 0 where
  pub host : String → Host
  pub main_pid : Text → Bool
  pub clock : String → ℕ
  pub is_active : Text → Bool
  pub machine : Machine
  pub down_projects : Bool
  pub down_status : String → Bool
  pub down_start : String → Bool
  pub down_notices : Bool
  pub notice_id : String → String

-- What a pass reads and changes: the processes, `pm.lastAlert`, the services, the notifications and
-- what happened to processes of services.
pub record Health : Type 0 where
  pub processes : Processes
  pub last_alert : List (String × ℕ)
  pub services : Services
  pub notices : List Notice
  pub events : List Event

-- `10*time.Minute`
abbrev pub alert_pause : ℕ
alert_pause = 600000000000

-- The WHERE clause of the query.
unfoldable pub is_managed : Project → Bool
is_managed p = p.status == "online" && (not (p.startup_command == []) || not (p.service_name == ""))

-- The answers to Start for the row.
unfoldable pub host_of : Surroundings → Project → Host
host_of w p = record (w.host p.id) {
  service_name = if w.down_start p.id then [] else codes p.service_name;
  port = if w.down_start p.id then [] else p.port;
  startup_command = if w.down_start p.id then [] else p.startup_command;
}

-- The entry "running" of `Status`, whose query leaves the service name empty where it fails.
unfoldable pub is_running : Surroundings → Project → Processes → Bool
is_running w p s = elim (lookup p.id s.procs) [
  | some entry ↦ true
  | none ↦
      not (w.down_status p.id) && (not (p.service_name == "") && w.main_pid (codes p.service_name))
]

unfoldable pub notify : Surroundings → (project kind : String) → List Notice → List Notice
unfolding exec
notify w project kind ns =
    exec w.down_notices
      (λ ns'.
        record { id = w.notice_id project; project_id = project; kind = kind; is_read = false }
        ∷ ns')
      ns

-- `strings.Contains(err.Error(), "no service_name")`
unfoldable pub is_silent : Host → String → StartError → Bool
is_silent h id e = has_substring (message h id e) (codes "no service_name")

-- `time.Since(pm.lastAlert[p.id]) > 10*time.Minute`
unfoldable pub is_due : ℕ → Option ℕ → Bool
is_due now none = true
is_due now (some t) = ltb alert_pause (now - t)

unfoldable pub alert : Surroundings → String → Health → Health
unfolding is_due notify
alert w id s =
    if is_due (w.clock id) (lookup id s.last_alert)
    then record s {
      last_alert = insert id (w.clock id) s.last_alert;
      notices = notify w id "alert" s.notices;
    }
    else s

-- What follows a call of Start; a panic ends the server.
unfoldable pub after_start : Surroundings → Project → StartReply → Health → Option Health
unfolding is_silent alert notify
after_start w p crashed s = none
after_start w p (Processes.failed e) s =
    some (if is_silent (host_of w p) p.id e then s else alert w p.id s)
after_start w p found s = some (record s { notices = notify w p.id "info" s.notices })
after_start w p launched s = some (record s { notices = notify w p.id "info" s.notices })
after_start w p by_systemd s = some (record s { notices = notify w p.id "info" s.notices })

-- One round of the loop over the projects. The entry "starting" of `Status` stands only next to
-- "running", so that its test is never reached.
unfoldable pub tend : Surroundings → Project → Health → Option Health
unfolding is_running host_of after_start
tend w p s =
    if is_running w p s.processes
    then some s
    else (let (processes, reply) = start (host_of w p) p.id s.processes in
        after_start w p reply (record s { processes = processes }))

abbrev pub and_then : Option Health → (Health → Option Health) → Option Health
and_then none rest = none
and_then (some s) rest = rest s

unfoldable pub tend_all : Surroundings → List Project → Health → Option Health
unfolding tend
tend_all w [] s = some s
tend_all w (p ∷ ps) s = and_then (tend w p s) (λ s'. tend_all w ps s')

-- The units that stand behind a word "start".
unfoldable pub started_units : List Text → List Text
started_units [] = []
started_units (f ∷ []) = []
started_units (f ∷ g ∷ fs) =
    let rest = started_units (g ∷ fs) in if f == codes "start" then g ∷ rest else rest

-- `serviceRunning`
unfoldable pub service_running : Surroundings → SvcState → Bool
unfolding started_units
service_running w st =
    if has_substring (codes st.start_cmd) (codes "systemctl")
    then any w.is_active (started_units (fields (codes st.start_cmd)))
    else st.running

unfoldable pub has_failed : List Event → Bool
has_failed [] = false
has_failed (failed name ∷ es) = true
has_failed (e ∷ es) = has_failed es

-- One round of the loop over the services with references.
unfoldable pub tend_service :
    Surroundings → String → SvcState → List Notice → SvcState × List Notice × List Event
unfolding service_running notify has_failed
tend_service w name st ns =
    if is_empty st.refs || service_running w st
    then (st, ns, [])
    else (let (st', events) = start_shared w.machine name st in
        (st', notify w "" (if has_failed events then "alert" else "info") ns, events))

unfoldable pub tend_services :
    Surroundings → Services → List Notice → Services × List Notice × List Event
unfolding tend_service
tend_services w [] ns = ([], ns, [])
tend_services w ((name, st) ∷ rest) ns =
    let (st', ns', events) = tend_service w name st ns in
    let (rest', ns'', more) = tend_services w rest ns' in
    ((name, st') ∷ rest', ns'', events ++ more)

unfoldable pub tend_shared : Surroundings → Health → Health
unfolding tend_services
tend_shared w s =
    let (services, ns, events) = tend_services w s.services s.notices in
    record s { services = services; notices = ns; events = s.events ++ events }

-- `healthOnce` over the rows of `projects`; none is a panic.
unfoldable pub health_once : Surroundings → (enabled : Bool) → List Project → Health → Option Health
unfolding tend_all tend_shared
health_once w enabled projects s =
    if not enabled || w.down_projects
    then some s
    else and_then (tend_all w (filter is_managed projects) s) (λ s'. some (tend_shared w s'))
