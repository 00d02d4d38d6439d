-- ===== src/Runtime/Processes/Counted.antt =====
-- How many processes of a project run, in every interleaving of the calls of Start and Stop with the
-- ends of processes.

use lambs_server.Base.{
  ℕ, ◌+◌, ◌≤◌, ◌≡◌, inl, inr, refl, ap, ◌∙◌, ◌&&◌, String, Option, none, some, List, ◌∷◌, ◌++◌,
  lookup, lookup-erase, lookup-insert, insert, count, count-append, if◌then◌else◌, ◌==◌, eq_iff,
  nat_eq, string_eq, arith, Result-cases,
}
use lambs_server.Base.Text.{parse_int}
use lambs_server.Runtime.Processes.{
  ProcState, Waiter, Processes, Host, memory_error, spawn, run_command, run_service, start_new,
  start, reap, stop_begin, stop_end,
}

-- The processes of the project that have not been reaped.
abbrev pub live : String → Processes → ℕ
live id s = count (λ w. w.project == id) s.waiters

abbrev one_if_some {ℓ} : {A : Type ℓ} → Option A → ℕ
one_if_some none = 0
one_if_some (some a) = 1

-- Whether `pm.procs` has the project, as a number.
abbrev pub tracked : String → Processes → ℕ
tracked id s = one_if_some (lookup id s.procs)

-- The entry of the project that the end of a call of Stop takes away, as a number.
abbrev pub dropped : String → Waiter → Processes → ℕ
dropped id w s = if w.project == id then tracked id s else 0

-- A run, with the entries of the project that ends of Stop have taken away in it.
pub data Steps (id : String) : ℕ → Processes → Processes → Type 0 where
  done : {s : Processes} → Steps id 0 s s
  starts :
      {n : ℕ} {s s' : Processes} (h : Host) (k : String)
      → Steps id n (start h k s).0 s'
      → Steps id n s s'
  ends :
      {n : ℕ} {s s' : Processes} (before : List Waiter) (w : Waiter) (after : List Waiter)
      → s.waiters ≡ before ++ w ∷ after
      → Steps id n (reap before w after s) s'
      → Steps id n s s'
  stops : {n : ℕ} {s s' : Processes} (k : String) → Steps id n (stop_begin k s) s' → Steps id n s s'
  stopped :
      {n m : ℕ} {s s' : Processes} (before : List Waiter) (w : Waiter) (after : List Waiter)
      → s.stopping ≡ before ++ w ∷ after
      → count (λ v. v.project == w.project && v.pid == w.pid) s.waiters ≡ 0
      → m ≡ dropped id w s + n
      → Steps id n (stop_end before w after s) s'
      → Steps id m s s'

module _ (id : String) where
  -- A project without an entry gets one, and a process.
  entered :
      (k : String) (p : ProcState) (s : Processes)
      → lookup k s.procs ≡ none
      → one_if_some (lookup id (insert k p s.procs)) + live id s
        ≡ (if k == id then 1 else 0) + live id s + tracked id s
  entered k p s free = rw (lookup-insert k id p s.procs) (ground (arith, free, eq_iff k id))

  spawn-counts :
      (h : Host) (k : String) (s : Processes)
      → lookup k s.procs ≡ none
      → tracked id (spawn h k s).0 + live id s ≡ live id (spawn h k s).0 + tracked id s
  spawn-counts h k s free = elim (Result-cases h.spawned) [
    | inl (why, e) ↦ unfold spawn in rw e (omega arith)
    | inr (pid, e) ↦
        let p : ProcState = record { pid = pid; port = parse_int h.port; started = h.now } in
        unfold spawn in unfold count in rw e (entered k p s free)
  ]

  start-counts :
      (h : Host) (k : String) (s : Processes)
      → tracked id (start h k s).0 + live id s ≡ live id (start h k s).0 + tracked id s
  unfolding start start_new run_command run_service memory_error
  start-counts h k s = ground (arith, spawn-counts h k s)

  reap-counts :
      (before : List Waiter) (w : Waiter) (after : List Waiter) (s : Processes)
      → s.waiters ≡ before ++ w ∷ after
      → (live id s ≡ (if w.project == id then 1 else 0) + live id (reap before w after s))
        × (tracked id (reap before w after s) ≡ (if w.project == id then 0 else tracked id s))
  unfolding reap count
  reap-counts before w after s split = (
    ap (count (λ v. v.project == id)) split
        ∙ ground (
          arith,
          count-append (λ v. v.project == id) before (w ∷ after),
          count-append (λ v. v.project == id) before after,
        ),
    rw (lookup-erase w.project id s.procs) (ground arith),
  )

  stop_end-counts :
      (before : List Waiter) (w : Waiter) (after : List Waiter) (s : Processes)
      → tracked id (stop_end before w after s) + dropped id w s ≡ tracked id s
  unfolding stop_end
  stop_end-counts before w after s = rw (lookup-erase w.project id s.procs) (ground arith)

  tracked-stop_begin :
      (k : String) (s : Processes)
      → (tracked id (stop_begin k s) ≡ tracked id s) × (live id (stop_begin k s) ≡ live id s)
  unfolding stop_begin
  tracked-stop_begin k s = ground arith

  live-stop_end :
      (before : List Waiter) (w : Waiter) (after : List Waiter) (s : Processes)
      → live id (stop_end before w after s) ≡ live id s
  unfolding stop_end
  live-stop_end before w after s = refl

  Steps-counts :
      {n : ℕ} {s s' : Processes}
      → Steps id n s s'
      → tracked id s ≤ live id s
      → (tracked id s' ≤ live id s') × (live id s' + tracked id s ≤ tracked id s' + n + live id s)
  Steps-counts done low = omega arith
  Steps-counts {n} {s} (starts h k r) low =
      omega (arith, start-counts h k s, Steps-counts r (omega (arith, start-counts h k s)))
  Steps-counts {n} {s} (ends before w after split r) low =
      let (fewer, left) = reap-counts before w after s split in
      let kept : tracked id (reap before w after s) ≤ live id (reap before w after s) =
        ground arith in
      let later = Steps-counts r kept in ground (arith, later)
  Steps-counts {n} {s} (stops k r) low =
      let (same, also) = tracked-stop_begin k s in omega (arith, Steps-counts r (omega arith))
  Steps-counts {s} (stopped before w after split ended total r) low =
      let left = stop_end-counts before w after s in
      let same = live-stop_end before w after s in
      let later = Steps-counts r (omega arith) in omega arith

  -- In every interleaving of calls of Start and Stop with the ends of processes, from a state in
  -- which the project has an entry and one process, or neither: a project with an entry has a
  -- process, and the processes beyond it are at most as many as the entries that the ends of calls
  -- of Stop have taken away, their own processes having ended before. Where none was taken away, the
  -- project has exactly one process if it has an entry, and none if not.
  pub Steps-processes :
      {n : ℕ} {s s' : Processes}
      → Steps id n s s'
      → live id s ≡ tracked id s
      → (tracked id s' ≤ live id s') × (live id s' ≤ tracked id s' + n)
  Steps-processes r same = omega (arith, Steps-counts r (omega arith))
