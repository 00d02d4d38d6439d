-- ===== src/Runtime/Processes.antt =====
-- internal/runtime/procmgr.go: the processes of projects. Start and Stop with their critical
-- sections, and the goroutine that waits for a process. Commands and /proc are in Commands.
pub mod Commands
pub mod Counted
pub mod Panic
pub mod Entries
pub mod Figures
use lambs_server.Base.{
  ℕ, suc, Bool, true, false, not, ◌&&◌, String, Option, none, some, List, [], ◌∷◌, ◌++◌, lookup,
  insert, erase, if◌then◌else◌, ◌==◌, string_eq, text_eq, Result, ok, err,
}
use lambs_server.Base.Text.{Text, ℤ, pos, negsuc, lt_int, parse_int, itoa, codes}
use lambs_server.Runtime.Processes.Commands.{Command, CommandError, empty, panicked, parse_command}

-- `procState`, with the instant of its start in seconds.
pub record ProcState : Type 0 where
  pub pid : ℕ
  pub port : ℤ
  pub started : ℕ

-- A goroutine that waits for a process, which has not been reaped yet.
pub record Waiter : Type 0 where
  pub project : String
  pub pid : ℕ

-- `pm.procs`, the goroutines, and the calls of Stop that have given the lock back and wait.
pub record Processes : Type 0 where
  pub procs : List (String × ProcState)
  pub waiters : List Waiter
  pub stopping : List Waiter

-- What `Start` reads and what the machine answers: `memAvailableMB` (none is an error), the columns
-- of the row, which a failed query leaves empty, the tests of files, `systemctl start` (none is
-- success), `cmd.Start` with the number of the process, and the time.
pub record Host : Type 0 where
  pub available : Option ℤ
  pub min_free : ℤ
  pub service_name : Text
  pub port : Text
  pub startup_command : Text
  pub has_unit : Bool
  pub systemctl_failure : Option Text
  pub has_binary : Bool
  pub spawned : Result Text ℕ
  pub now : ℕ

pub data StartError : Type 0 where
  no_memory : ℤ → StartError
  empty_command no_command no_binary : StartError
  systemctl_failed start_failed : Text → StartError

-- How a call of Start ends.
pub data StartReply : Type 0 where
  found launched by_systemd crashed : StartReply
  failed : StartError → StartReply

-- `err == nil && avail < minFreeMB()`
unfoldable pub memory_error : Option ℤ → (least : ℤ) → Option StartError
memory_error none least = none
memory_error (some available) least =
    if lt_int available least then some (no_memory available) else none

-- `cmd.Start`, the entry, and its goroutine.
unfoldable pub spawn : Host → String → Processes → Processes × StartReply
spawn h id s = elim h.spawned [
  | err why ↦ (s, failed (start_failed why))
  | ok pid ↦ (
    record s {
      procs = insert id (record { pid = pid; port = parse_int h.port; started = h.now }) s.procs;
      waiters = record { project = id; pid = pid } ∷ s.waiters;
    },
    launched,
  )
]

-- The branch for `startup_command`; the words go to the machine.
unfoldable pub run_command :
    Host → String → Result CommandError Command → Processes → Processes × StartReply
unfolding spawn
run_command h id (err empty) s = (s, failed empty_command)
run_command h id (err panicked) s = (s, crashed)
run_command h id (ok c) s = spawn h id s

-- The branch for `service_name`: a unit of systemd, or else a binary.
unfoldable pub run_service : Host → String → Processes → Processes × StartReply
unfolding spawn
run_service h id s =
    if h.has_unit
    then (
      s,
      elim h.systemctl_failure [
        | none ↦ by_systemd
        | some output ↦ failed (systemctl_failed output)
      ],
    )
    else if h.has_binary
    then spawn h id s
    else (s, failed no_binary)

-- The part of `Start` that chooses what to run.
unfoldable pub start_new : Host → String → Processes → Processes × StartReply
unfolding run_command run_service
start_new h id s =
    if not (h.startup_command == [])
    then run_command h id (parse_command h.startup_command) s
    else if not (h.service_name == [])
    then run_service h id s
    else (s, failed no_command)

-- `Start`, which holds the lock throughout.
unfoldable pub start : Host → String → Processes → Processes × StartReply
unfolding start_new memory_error
start h id s = elim (lookup id s.procs) [
  | some p ↦ (s, found)
  | none ↦ elim (memory_error h.available h.min_free) [
    | some e ↦ (s, failed e)
    | none ↦ start_new h id s
  ]
]

print_int : ℤ → Text
print_int (pos n) = itoa n
print_int (negsuc n) = b'-' ∷ itoa (suc n)

-- `err.Error()` of an error of `Start`.
unfoldable pub message : Host → String → StartError → Text
unfolding print_int
message h id (no_memory n) = codes "可用内存不足（" ++ (print_int n ++ codes "MB），拒绝启动以避免拖垮整机")
message h id empty_command = codes "empty startup_command for " ++ codes id
message h id no_command =
    codes "project " ++ (codes id ++ codes " has no service_name or startup_command")
message h id no_binary =
    codes "binary not found: /home/ubuntu/apps/" ++ (h.service_name ++ b'/' ∷ h.service_name)
message h id (systemctl_failed output) =
    codes "systemctl start " ++ (h.service_name ++ (codes ".service: " ++ output))
message h id (start_failed why) = codes "start " ++ (h.service_name ++ (codes ": " ++ why))

-- The goroutine of a process that stands between `before` and `after`: the process has ended.
unfoldable pub reap :
    (before : List Waiter) → Waiter → (after : List Waiter) → Processes → Processes
reap before w after s = record s { procs = erase w.project s.procs; waiters = before ++ after }

-- The first half of Stop: an entry is waited for, and without one there is only systemd to call.
unfoldable pub stop_begin : String → Processes → Processes
stop_begin id s = elim (lookup id s.procs) [
  | none ↦ s
  | some p ↦ record s { stopping = record { project = id; pid = p.pid } ∷ s.stopping }
]

-- The second half, of a call that stands between `before` and `after`, once its process has ended.
unfoldable pub stop_end :
    (before : List Waiter) → Waiter → (after : List Waiter) → Processes → Processes
stop_end before w after s = record s { procs = erase w.project s.procs; stopping = before ++ after }
