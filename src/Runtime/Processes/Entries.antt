-- ===== src/Runtime/Processes/Entries.antt =====
-- What a call of Start does to the entries of projects.

use lambs_server.Base.{
  ◌≡◌, ◌⊎◌, inl, inr, Bool, true, false, String, Option, none, some, [], lookup, lookup-insert,
  eq_iff, string_eq, Result-cases, arith,
}
use lambs_server.Base.Text.{parse_int}
use lambs_server.Runtime.Processes.{
  ProcState, Processes, Host, found, launched, spawn, run_command, run_service, start_new, start,
}

abbrev pub no_processes : Processes
no_processes = record { procs = []; waiters = []; stopping = [] }

abbrev pub is_some {ℓ} : {A : Type ℓ} → Option A → Bool
is_some none = false
is_some (some a) = true

abbrev pub HasEntry : String → Processes → Type 0
HasEntry id s = is_some (lookup id s.procs) ≡ true

pub reply-start :
    (h : Host) (id : String) (s : Processes)
    → lookup id s.procs ≡ none
    → (start h id s).1 ≡ (start h id no_processes).1
unfolding start start_new run_command run_service spawn lookup
reply-start h id s free = ground (arith, free)

lookup-spawn :
    (h : Host) (id k : String) (s : Processes)
    → (lookup id (spawn h k s).0.procs ≡ lookup id s.procs)
      ⊎ ((k ≡ id) × HasEntry id (spawn h k s).0)
unfolding spawn
lookup-spawn h id k s = elim (Result-cases h.spawned) [
  | inl (why, e) ↦ ground (arith, e)
  | inr (pid, e) ↦
      let p : ProcState = record { pid = pid; port = parse_int h.port; started = h.now } in
      let entered = lookup-insert k id p s.procs in ground (arith, e, entered, eq_iff k id)
]

-- Start changes no entry but that of its project, and never takes one away.
pub lookup-start :
    (h : Host) (id k : String) (s : Processes)
    → (lookup id (start h k s).0.procs ≡ lookup id s.procs)
      ⊎ ((k ≡ id) × HasEntry id (start h k s).0)
unfolding start start_new run_command run_service
lookup-start h id k s = ground (arith, lookup-spawn h id k s)

entry-spawn :
    (h : Host) (id : String) (s : Processes)
    → (spawn h id s).1 ≡ launched
    → HasEntry id (spawn h id s).0
unfolding spawn
entry-spawn h id s done = elim (Result-cases h.spawned) [
  | inl (why, e) ↦ ground (arith, e, done)
  | inr (pid, e) ↦
      let p : ProcState = record { pid = pid; port = parse_int h.port; started = h.now } in
      let entered = lookup-insert id id p s.procs in ground (arith, e, entered, eq_iff id id)
]

-- A start that says so leaves an entry.
pub entry-start :
    (h : Host) (id : String) (s : Processes)
    → ((start h id s).1 ≡ launched) ⊎ ((start h id s).1 ≡ found)
    → HasEntry id (start h id s).0
unfolding start start_new run_command run_service
entry-start h id s done = ground (arith, entry-spawn h id s, done)
