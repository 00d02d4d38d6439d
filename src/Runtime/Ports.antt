-- ===== src/Runtime/Ports.antt =====
-- internal/runtime/portmgr.go: the ports of managed projects.
pub mod Search
pub mod Allocation
pub mod Exclusive
use mathlib.Core.Option
use lambs_server.Base.{
  ℕ, zero, suc, ◌+◌, ◌-◌, Bool, true, false, not, ◌&&◌, ◌||◌, String, Option, none, some, List, [],
  leb, ltb, any, find, update_where, if◌then◌else◌, ◌==◌, string_eq, text_eq, Result, ok, err,
}
use lambs_server.Base.Text.{Text, ℤ, pos, negsuc, atoi, itoa}
use lambs_server.Store.{Project, exec, query_row, scan_or}

pub record PortManager : Type 0 where
  pub start_port : ℕ
  pub end_port : ℕ

-- `PortMgr`
abbrev pub port_mgr : PortManager
port_mgr = record { start_port = 3510; end_port = 3599 }

-- The statements of `Allocate`: each may fail.
pub data Statement : Type 0 where
  current : Statement
  taken : ℕ → Statement
  save : Statement

-- What the surroundings decide: which statements fail, and on which ports `net.Listen` succeeds.
pub record Host : Type 0 where
  pub down : Statement → Bool
  pub listens : ℕ → Bool

-- `SELECT COALESCE(port,'') FROM projects WHERE id=$1`
unfoldable pub port_of : String → List Project → Option Text
port_of id ps = Option.map (λ p. p.port) (find (λ p. p.id == id) ps)

-- `SELECT COUNT(*) FROM projects WHERE port=$1 AND id!=$2` is positive.
unfoldable pub is_taken : String → List Project → ℕ → Bool
is_taken id ps port = any (λ p. p.port == itoa port && not (p.id == id)) ps

-- The number that the project's column holds, if it lies in the range.
unfoldable pub own_port : PortManager → Text → Option ℕ
own_port pm text = elim (atoi text) [
  | none ↦ none
  | some (pos n) ↦ if leb pm.start_port n && leb n pm.end_port then some n else none
  | some (negsuc n) ↦ none
]

-- One round of the loop lets the port through: no row counted, and the port could be opened.
unfoldable pub is_usable : Host → String → List Project → ℕ → Bool
unfolding is_taken
is_usable host id ps port =
    not (not (host.down (taken port)) && is_taken id ps port) && host.listens port

unfoldable pub search : (ℕ → Bool) → (rounds port : ℕ) → Option ℕ
search usable zero port = none
search usable (suc rounds) port =
    let rest = search usable rounds (port + 1) in if usable port then some port else rest

-- `UPDATE projects SET port=$1 WHERE id=$2`
unfoldable pub set_port : String → Text → List Project → List Project
set_port id text ps = update_where (λ p. p.id == id) (λ p. record p { port = text }) ps

pub data PortError : Type 0 where
  no_free_port : PortError

-- The project keeps a port of its own in the range; otherwise the port that the loop found is
-- written to its row.
unfoldable pub settle :
    Host → String → List Project → (own found : Option ℕ) → List Project × Result PortError ℕ
settle host id ps (some port) found = (ps, ok port)
settle host id ps none (some port) = (exec (host.down save) (set_port id (itoa port)) ps, ok port)
settle host id ps none none = (ps, err no_free_port)

unfoldable pub allocate :
    PortManager → Host → String → List Project → List Project × Result PortError ℕ
unfolding settle
allocate pm host id ps =
    let existing = scan_or (host.down current) [] (port_of id ps) in
    let found = search (is_usable host id ps) (suc pm.end_port - pm.start_port) pm.start_port in
    settle host id ps (own_port pm existing) found

-- `Free`
unfoldable pub free : (down : Bool) → String → List Project → List Project
free down id ps = exec down (set_port id []) ps
