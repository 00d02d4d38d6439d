-- ===== src/Tests/Runtime.antt =====
-- Ports, services and schedules.
use lambs_server.Base.{
  ℕ, ◌+◌, ◌-◌, ◌≡◌, ◌≤◌, ◌<◌, refl, Bool, true, false, not, ◌&&◌, ◌||◌, String, some, none, List,
  [], ◌∷◌, any, get_or, contains, arith, All, Result, ok, err, ◌==◌, string_eq, if◌then◌else◌,
}
use lambs_server.Base.Text.{Text, codes, split, pos}
use lambs_server.Store.{no_project, Project, scan_or}
use lambs_server.Runtime.Cron.{
  CronError, CronField, CronSpec, Part, panicked, parse_part, parse_field, parse_cron, matches,
}
use lambs_server.Runtime.Cron.Calendar.{Time, next_minute}
use lambs_server.Runtime.Cron.Next.{next_after}
use lambs_server.Runtime.Cron.Days.{fires, matches-eq-fires}
use lambs_server.Runtime.Cron.Scan.{Searched, horizon, next_after-Searched}
use lambs_server.Runtime.Ports.{
  PortManager, port_mgr, Host, Statement, port_of, own_port, allocate, free,
}
use lambs_server.Runtime.Ports.Exclusive.{IsExclusive, allocate-IsExclusive, free-IsExclusive}
use lambs_server.Runtime.Services.{Services, Declared, Machine, detach_services}
use lambs_server.Runtime.Services.Counts.{holds}
use lambs_server.Runtime.Services.Events.{touches, detach_services-quiet}
use lambs_server.Runtime.Services.Launch.{Launching, Step, Reach, Reach-one_process}

-- A machine on which every launch succeeds, one service, and the project that holds it.
abbrev machine : Machine
machine = record { has_memory = λ n. true; launches = λ n. true }

abbrev declared : List Declared
declared = record { name = "redis"; start_cmd = "redis-server"; stop_cmd = "" } ∷ []

abbrev services : Services
services =
    (
      "redis",
      record {
        start_cmd = "redis-server";
        stop_cmd = "";
        refs = "p1" ∷ [];
        running = true;
        starting = true;
      },
    )
    ∷ []

detach_services-quiet_example : touches "redis" (detach_services "p2" declared services).1 ≡ false
unfolding holds contains lambs_server.Base.lookup
detach_services-quiet_example = detach_services-quiet "p2" "p1" "redis" declared services refl refl

-- One launch up to the recorded process.
abbrev launched : Launching
launched = record { starting = true; has_cmd = true; guarded = 0; spawned = 0; tracked = 1 }

launched-Reach : Reach launched
launched-Reach =
    Reach.next
      (Reach.next (Reach.next Reach.start (Step.enter refl refl)) (Step.spawn (omega arith)))
      (Step.assign (omega arith))

Reach-one_process_example : 0 + 1 ≤ (if true then 1 else 0)
Reach-one_process_example = Reach-one_process {s = launched} launched-Reach

-- A project without a port beside one on the first port of the range.
abbrev projects : List Project
projects =
    record no_project {
      id = "p1";
      name = "a";
      status = "running";
      base_path = codes "/a";
      port = codes "3510";
      host = "";
      offline_msg = "";
    }
    ∷ record no_project {
      id = "p2";
      name = "b";
      status = "running";
      base_path = codes "/b";
      port = [];
      host = "";
      offline_msg = "";
    }
    ∷ []

abbrev host : Host
host = record { down = λ q. false; listens = λ p. true }

abbrev two_ports : PortManager
two_ports = record { start_port = 3510; end_port = 3511 }

allocate-IsExclusive_example : IsExclusive (allocate port_mgr host "p2" projects).0
unfolding own_port scan_or port_of lambs_server.Base.Text.atoi lambs_server.Base.find
    lambs_server.Runtime.Ports.Exclusive.is_apart lambs_server.Base.text_beq
allocate-IsExclusive_example =
    allocate-IsExclusive port_mgr host "p2" projects (λ q. refl) refl ((refl, tt), (tt, tt))

-- Every half hour of one day list, and a minute of 2026-11-25, a Wednesday.
abbrev noon : Time
noon = record { day = record { year = 2026; month = 11; day = 25; weekday = 3 }; minute = 720 }

abbrev value_or {ℓ} : {A : Type ℓ} → A → Result CronError A → A
value_or d (ok a) = a
value_or d (err e) = d

abbrev no_field : CronField
no_field = record { values = []; min = 0; max = 0 }

abbrev no_spec : CronSpec
no_spec = record {
  minute = no_field;
  hour = no_field;
  dom = no_field;
  month = no_field;
  dow = no_field;
  dom_restricted = false;
  dow_restricted = false;
}

abbrev weekly : CronSpec
weekly = value_or no_spec (parse_cron (codes "0,30 12 1 * 3"))

matches-eq-fires_example :
    matches weekly noon ≡ fires (codes "0,30") (codes "12") (codes "1") (codes "*") (codes "3") noon
unfolding lambs_server.Base.Text.fields parse_cron parse_field lambs_server.Runtime.Cron.parse_parts
    split parse_part lambs_server.Base.Text.cut lambs_server.Base.text_beq
    lambs_server.Base.Text.atoi lambs_server.Runtime.Cron.mark
matches-eq-fires_example =
    matches-eq-fires (codes "0,30 12 1 * 3") (codes "0,30") (codes "12") (codes "1") (codes "*")
      (codes "3") weekly noon (omega arith) (omega arith) refl refl

next_after-Searched_example :
    Searched weekly (horizon weekly noon) (next_minute noon) (next_after weekly noon)
next_after-Searched_example =
    next_after-Searched weekly noon (omega arith) (omega arith) (omega arith)
