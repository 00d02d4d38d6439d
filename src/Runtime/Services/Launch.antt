-- ===== src/Runtime/Services/Launch.antt =====
-- The interleavings of `startShared` and its Wait goroutine (internal/runtime/procmgr.go) on one
-- `svcState`, as the lock `pm.mu` orders their steps. Several callers may be inside at once: an
-- attach of each project, and the health monitor.
use lambs_server.Base.{ℕ, ◌+◌, ◌-◌, ◌≤◌, ◌<◌, ◌≡◌, refl, Bool, true, false, arith, if◌then◌else◌}

-- `starting` and `cmd != nil` of the state, and where the callers stand: those that have passed the
-- guard, those whose process runs and is not yet in `st.cmd`, and the processes in `st.cmd` that
-- run.
pub record Launching : Type 0 where
  pub starting : Bool
  pub has_cmd : Bool
  pub guarded : ℕ
  pub spawned : ℕ
  pub tracked : ℕ

abbrev pub idle : Launching
idle = record { starting = false; has_cmd = false; guarded = 0; spawned = 0; tracked = 0 }

pub data Step (s : Launching) : Launching → Type 0 where
  -- The guard lets a caller in, and sets `st.starting`.
  enter :
      s.starting ≡ false
      → s.has_cmd ≡ false
      → Step s (record s { starting = true; guarded = s.guarded + 1 })
  -- The guard turns a caller away.
  refused : Step s s
  -- The memory gate or `cmd.Start` fails: `st.starting` is reset.
  fail : 0 < s.guarded → Step s (record s { starting = false; guarded = s.guarded - 1 })
  -- `cmd.Start` succeeds.
  spawn : 0 < s.guarded → Step s (record s { guarded = s.guarded - 1; spawned = s.spawned + 1 })
  -- `st.cmd = cmd`
  assign :
      0 < s.spawned
      → Step s (record s { has_cmd = true; spawned = s.spawned - 1; tracked = s.tracked + 1 })
  -- The process ends, and the Wait goroutine resets the state.
  exited :
      0 < s.tracked
      → Step s (record s { starting = false; has_cmd = false; tracked = s.tracked - 1 })

pub data Reach : Launching → Type 0 where
  start : Reach idle
  next : {s t : Launching} → Reach s → Step s t → Reach t

-- The flag is up exactly while one caller or one process is there.
pub record IsGuarded (s : Launching) : Type 0 where
  pub one : s.guarded + s.spawned + s.tracked ≡ (if s.starting then 1 else 0)
  pub cmd : s.tracked ≡ (if s.has_cmd then 1 else 0)

Step-IsGuarded : {s t : Launching} → Step s t → IsGuarded s → IsGuarded t
Step-IsGuarded (enter a b) g = ground arith
Step-IsGuarded refused g = g
Step-IsGuarded (fail h) g = ground arith
Step-IsGuarded (spawn h) g = ground arith
Step-IsGuarded (assign h) g = ground arith
Step-IsGuarded (exited h) g = ground arith

Reach-IsGuarded : {s : Launching} → Reach s → IsGuarded s
Reach-IsGuarded start = record { one = refl; cmd = refl }
Reach-IsGuarded (next r st) = Step-IsGuarded st (Reach-IsGuarded r)

-- In every interleaving from an idle state, at most one process launched from a service's state runs
-- at a time, counting the one that is not yet recorded; and none runs while the guard is down.
pub Reach-one_process :
    {s : Launching} → Reach s → s.spawned + s.tracked ≤ (if s.starting then 1 else 0)
Reach-one_process r = let g = Reach-IsGuarded r in ground (arith, g.one)

-- When nothing is in flight and nothing runs, the guard is down: a failed launch and an exit both
-- leave the service ready for a retry.
pub Reach-ready :
    {s : Launching}
    → Reach s
    → s.guarded + s.spawned + s.tracked ≡ 0
    → (s.starting ≡ false) × (s.has_cmd ≡ false)
Reach-ready r e = let g = Reach-IsGuarded r in (ground (arith, g.one), ground (arith, g.cmd, g.one))
