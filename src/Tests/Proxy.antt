-- ===== src/Tests/Proxy.antt =====
-- A project behind the proxy: a connection comes in, is handled and ends, and the project is idle.
use lambs_server.Base.{
  ℕ, ◌+◌, ◌≤◌, ◌≡◌, refl, Bool, true, false, String, string_eq, Option, none, some, List, [], ◌∷◌,
  lookup, contains, count, All, ok, err,
}
use lambs_server.Base.Text.{Text, codes, pos}
use lambs_server.Runtime.Processes.{Host}
use lambs_server.Runtime.Processes.Figures.{Probe}
use lambs_server.Runtime.Proxy.{
  Net, Site, Listener, Connection, Proxy, no_proxy, start_proxy, accept, begin, finish, counted,
  source_allowed,
}
use lambs_server.Runtime.Proxy.Steps
use lambs_server.Runtime.Proxy.Steps.{Step, Steps, connections}
use lambs_server.Runtime.Proxy.Reached.{entries, own_servers, Steps-served}
use lambs_server.Runtime.Proxy.Idle.{Monitor, idle_once}
use lambs_server.Runtime.Proxy.Stopped.{is_stopped, idle_once-stopped}

abbrev net : Net
net = record { split_host_port = λ a. some (a, codes "5"); is_loopback_ip = λ h. false }

abbrev allowed : List Text
allowed = codes "9.9.9.9" ∷ []

abbrev site : Site
site = record {
  port = codes "80";
  backend_url = codes "http://app:90";
  service_name = [];
  startup_command = codes "run";
  listen_failure = λ p. none;
}

abbrev launching : Host
launching = record {
  available = none;
  min_free = pos 100;
  service_name = [];
  port = codes "80";
  startup_command = codes "run";
  has_unit = false;
  systemctl_failure = none;
  has_binary = false;
  spawned = ok 7;
  now = 5;
}

abbrev listener : Listener
listener = record { project = "p1"; address = 0; backend = codes "app:90" }

abbrev connection : Connection
connection = record { project = "p1"; counter = 0; remote = codes "9.9.9.9" }

-- The proxy after a start, with a connection that is accepted, handled, and ended.
abbrev started : Proxy
started = (start_proxy net site "p1" no_proxy).0

abbrev waiting : Proxy
waiting = accept net allowed listener (codes "9.9.9.9") started

abbrev handling : Proxy
handling = begin launching [] connection [] waiting

abbrev ended : Proxy
ended = finish [] connection [] handling

serving_started : started.serving ≡ listener ∷ []
unfolding start_proxy lookup lambs_server.Base.Text.atoi lambs_server.Base.text_beq contains
    lambs_server.Base.Text.trim_prefix
serving_started = refl

accepted_waiting : waiting.accepted ≡ connection ∷ []
unfolding accept lambs_server.Base.text_beq contains start_proxy lookup lambs_server.Base.Text.atoi
accepted_waiting = refl

handled_handling : handling.handled ≡ connection ∷ []
unfolding begin accept lambs_server.Base.text_beq contains start_proxy lookup
    lambs_server.Base.Text.atoi
handled_handling = refl

to_handling : {s : Proxy} → Steps net allowed handling s → Steps net allowed no_proxy s
to_handling r = Steps.next {s' = started} (Steps.starts site "p1") (
    Steps.next {s' = waiting}
      (Steps.accepts {s = started} [] listener [] (codes "9.9.9.9") serving_started)
      (Steps.next {s' = handling}
        (Steps.begins {s = waiting} launching [] connection [] accepted_waiting) r))

to_ended : Steps net allowed no_proxy ended
to_ended = to_handling (
    Steps.next {s' = ended} (Steps.finishes {s = handling} [] connection [] handled_handling)
      Steps.done)

-- A stranger is closed.
stranger_test : accept net allowed listener (codes "8.8.8.8") started ≡ started
unfolding start_proxy accept lookup lambs_server.Base.text_beq lambs_server.Base.Text.atoi contains
stranger_test = refl

Steps-served_example :
    (lookup "p1" handling.actives ≡ lookup "p1" handling.listeners)
    × (entries "p1" handling ≤ own_servers "p1" handling)
    × (counted handling 0 ≡ connections 0 handling.handled)
    × All (λ c. source_allowed net allowed c.remote ≡ true) handling.handled
Steps-served_example = Steps-served net allowed "p1" 0 (to_handling Steps.done)

abbrev monitor : Monitor
monitor = record {
  probe = λ id. record {
    service_name = [];
    main_pid = λ name. pos 0;
    stat_file = λ pid. none;
    uptime_from = λ t. pos 0;
    now = 400;
  };
  service_name = λ id. some [];
  dials = λ port. false;
}

idle_test : idle_once monitor ended ≡ "p1" ∷ []
unfolding idle_once finish begin accept lambs_server.Base.text_beq contains start_proxy lookup
    lambs_server.Base.Text.atoi lambs_server.Base.insert
    lambs_server.Runtime.Processes.Figures.status lambs_server.Runtime.Processes.start
    lambs_server.Runtime.Processes.Commands.parse_command lambs_server.Base.Text.has_prefix
    lambs_server.Base.Text.fields lambs_server.Base.Text.lt_int lambs_server.Base.erase
    lambs_server.Runtime.Proxy.Idle.idle_all lambs_server.Runtime.Processes.Commands.in_dir
    lambs_server.Base.Text.parse_int lambs_server.Base.Text.cut_text
idle_test = refl

idle_once-stopped_example :
    contains (idle_once monitor ended) "p1"
    ≡ is_stopped monitor ended "p1" (lookup "p1" ended.listeners)
idle_once-stopped_example = idle_once-stopped net allowed monitor "p1" to_ended
