-- ===== src/Runtime/Proxy/Idle.antt =====
-- internal/runtime/tcpproxy.go: one pass of the idle monitor. What other goroutines do between its
-- rounds is not in it.
use lambs_server.Base.{
  ℕ, Bool, true, false, not, ◌&&◌, String, Option, none, some, List, [], ◌∷◌, ◌==◌, if◌then◌else◌,
  text_eq, nat_eq,
}
use lambs_server.Base.Text.{Text, ℤ, pos, lt_int}
use lambs_server.Runtime.Processes.Figures.{Probe, Figures, status}
use lambs_server.Runtime.Proxy.{Proxy, counted}

-- What the pass reads: `Status` of each project, the column (none is a failed query), and whether a
-- port of this machine answers.
pub record Monitor : Type 0 where
  pub probe : String → Probe
  pub service_name : String → Option Text
  pub dials : (port : ℤ) → Bool

unfoldable pub has_service : Option Text → Bool
has_service none = true
has_service (some name) = not (name == [])

-- The conditions on a running process.
unfoldable pub is_idle : Monitor → String → Option Figures → Bool
unfolding has_service
is_idle w id none = false
is_idle w id (some f) =
    lt_int (pos 300) f.uptime && (not (has_service (w.service_name id)) && not (w.dials f.port))

-- The loop of `idleOnce` over `tp.actives`: the projects that it stops.
unfoldable pub idle_all : Monitor → Proxy → List (String × ℕ) → List String
unfolding is_idle
idle_all w s [] = []
idle_all w s ((id, n) ∷ rest) =
    let others = idle_all w s rest in
    if counted s n == 0 && is_idle w id (status (w.probe id) id s.processes)
    then id ∷ others
    else others

unfoldable pub idle_once : Monitor → Proxy → List String
unfolding idle_all
idle_once w s = idle_all w s s.actives
