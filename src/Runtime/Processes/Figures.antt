-- ===== src/Runtime/Processes/Figures.antt =====
-- internal/runtime/procmgr.go: the figures of a running process. Left out are the share of the CPU,
-- which is a float, and the memory. Instants are whole seconds. The text of /proc/<pid>/stat is the list of its bytes.
use lambs_server.Base.{
  ℕ, ◌-◌, ◌≡◌, refl, Bool, false, ◌||◌, String, Option, none, some, List, [], drop, length, lookup,
  ltb, leb, get_or, if◌then◌else◌, ◌==◌, string_eq, nat_eq, text_eq,
}
use lambs_server.Base.Text.{Text, ℤ, pos, lt_int, parse_int, codes, fields, last_or, split}
use lambs_server.Runtime.Processes.{Processes}

-- The four numbers that the server reads: the ticks of the process in both modes, its memory in
-- pages, and its start in ticks since the machine's.
pub record Stat : Type 0 where
  pub utime : ℤ
  pub stime : ℤ
  pub rss : ℤ
  pub start : ℤ

abbrev pub no_stat : Stat
no_stat = record { utime = pos 0; stime = pos 0; rss = pos 0; start = pos 0 }

-- The fields behind the name of the command; field i stands at i − 3.
unfoldable pub stat_of : List Text → Stat
stat_of fs = if ltb (length fs) 22 then no_stat else record {
  utime = parse_int (get_or fs 11 []);
  stime = parse_int (get_or fs 12 []);
  rss = parse_int (get_or fs 21 []);
  start = parse_int (get_or fs 19 []);
}

-- `parseProcStat`: what stands behind the last ")" and one more byte.
unfoldable pub parse_proc_stat : Text → Stat
unfolding stat_of
parse_proc_stat s =
    let behind = last_or [] (split b')' s) in
    if leb (length (split b')' s)) 1 || leb (length behind) 1
    then no_stat
    else stat_of (fields (drop 1 behind))

-- What `Status` reads: the column, systemd's number for it (0 if there is none), the file of a
-- process (none if it cannot be read), `procUptimeFrom` of the file /proc/uptime, which computes with
-- floats, and the time in seconds.
pub record Probe : Type 0 where
  pub service_name : Text
  pub main_pid : Text → ℤ
  pub stat_file : ℤ → Option Text
  pub uptime_from : (start_ticks : ℤ) → ℤ
  pub now : ℕ

pub record Figures : Type 0 where
  pub pid : ℤ
  pub port : ℤ
  pub uptime : ℤ
  pub starting : Bool

-- `readProcStats`
unfoldable pub read_proc_stats : Option Text → Stat
unfolding parse_proc_stat
read_proc_stats none = no_stat
read_proc_stats (some data') = parse_proc_stat data'

-- A process of systemd, by its number.
unfoldable pub of_systemd : Probe → ℤ → Option Figures
unfolding read_proc_stats
of_systemd w pid =
    if lt_int (pos 0) pid
    then some (record {
      pid = pid;
      port = pos 0;
      uptime = w.uptime_from (read_proc_stats (w.stat_file pid)).start;
      starting = false;
    })
    else none

-- `Status`; none is "running": false.
unfoldable pub status : Probe → String → Processes → Option Figures
unfolding of_systemd
status w id s = elim (lookup id s.procs) [
  | some p ↦
      if p.pid == 0
      then none
      else some (record {
        pid = pos p.pid;
        port = p.port;
        uptime = pos (w.now - p.started);
        starting = ltb (w.now - p.started) 30;
      })
  | none ↦ if w.service_name == [] then none else of_systemd w (w.main_pid w.service_name)
]

-- A file of the kernel: the command is named "a b) c", and the process began at tick 19.
parse_proc_stat_test :
    (parse_proc_stat
      (codes "7 (a b) c) S 4 5 6 7 8 9 10 11 12 13 14 15 16 17 18 19 20 21 22 23 24 25")).start
    ≡ pos 22
unfolding parse_proc_stat stat_of fields split parse_int
parse_proc_stat_test = refl
