-- ===== src/Runtime/Proxy/Stopped.antt =====
-- Which projects a pass of the idle monitor stops.
use lambs_server.Base.{
  ℕ, ◌≡◌, refl, ap, ◌∙◌, Bool, false, ◌&&◌, String, Option, none, some, List, [], ◌∷◌, IsMap,
  lookup, contains, ◌==◌, eq_iff, nat_eq, string_eq, arith,
}
use lambs_server.Base.Text.{Text}
use lambs_server.Runtime.Processes.Figures.{status}
use lambs_server.Runtime.Proxy.{Net, Proxy, no_proxy, counted}
use lambs_server.Runtime.Proxy.Idle.{Monitor, is_idle, idle_all, idle_once}
use lambs_server.Runtime.Proxy.Steps.{Steps, connections}
use lambs_server.Runtime.Proxy.Reached.{reached-IsSound}

-- The test of one project, by its counter if it has one.
abbrev is_chosen : Monitor → Proxy → String → Option ℕ → Bool
is_chosen w s id none = false
is_chosen w s id (some n) = counted s n == 0 && is_idle w id (status (w.probe id) id s.processes)

idle_all-chosen :
    (w : Monitor) (s : Proxy) (id : String) (m : List (String × ℕ))
    → IsMap m
    → contains (idle_all w s m) id ≡ is_chosen w s id (lookup id m)
unfolding idle_all lookup contains
idle_all-chosen w s id [] h = refl
idle_all-chosen w s id ((k, n) ∷ m) h =
    ground (arith, idle_all-chosen w s id m h.1, eq_iff k id, h.0)

-- The same, by the connections that are handled.
abbrev pub is_stopped : Monitor → Proxy → String → Option ℕ → Bool
is_stopped w s id none = false
is_stopped w s id (some a) =
    connections a s.handled == 0 && is_idle w id (status (w.probe id) id s.processes)

chosen-stopped :
    (w : Monitor) (s : Proxy) (id : String) (o : Option ℕ)
    → ((n : ℕ) → counted s n ≡ connections n s.handled)
    → is_chosen w s id o ≡ is_stopped w s id o
chosen-stopped w s id none counts = refl
chosen-stopped w s id (some a) counts =
    ap (λ k. k == 0 && is_idle w id (status (w.probe id) id s.processes)) (counts a)

-- In every state that the proxy reaches, a pass of the idle monitor stops a project if and only if
-- the project has a listener, no connection of that listener is being handled, its process has run
-- for more than 300 seconds, the query of its service name works and gives none, and nothing answers
-- on the port of the process.
pub idle_once-stopped :
    (net : Net) (allowed : List Text) (w : Monitor) (id : String) {s : Proxy}
    → Steps net allowed no_proxy s
    → contains (idle_once w s) id ≡ is_stopped w s id (lookup id s.listeners)
unfolding idle_once
idle_once-stopped net allowed w id {s} r =
    let ((m, same, served), counts, fresh, screened) = reached-IsSound net allowed r in
    idle_all-chosen w s id s.actives m
    ∙ ap (is_chosen w s id) (same id)
    ∙ chosen-stopped w s id (lookup id s.listeners) counts
