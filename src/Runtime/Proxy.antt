-- ===== src/Runtime/Proxy.antt =====
-- internal/runtime/tcpproxy.go: the proxy that starts a project when a connection comes in. The
-- listeners and the counters of open connections, with the goroutines that serve them.
pub mod Steps
pub mod Adding
pub mod Kept
pub mod Reached
pub mod Idle
pub mod Stopped
use lambs_server.Base.{
  ℕ, zero, suc, ◌+◌, ◌-◌, Bool, true, false, not, ◌&&◌, ◌||◌, String, Option, none, some, List, [],
  ◌∷◌, ◌++◌, map, filter, contains, lookup, insert, erase, if◌then◌else◌, ◌==◌, string_eq, nat_eq,
  text_eq,
}
use lambs_server.Base.Text.{Text, ℤ, pos, atoi, codes, split, trim_space, trim_prefix}
use lambs_server.Runtime.Processes
use lambs_server.Runtime.Processes.{Processes, Host}

-- net.SplitHostPort (none is an error), and net.ParseIP with IsLoopback (false for no address).
pub record Net : Type 0 where
  pub split_host_port : Text → Option (Text × Text)
  pub is_loopback_ip : Text → Bool

-- `parseAllowedSources`, of TCP_PROXY_ALLOWED_IPS.
unfoldable pub parse_allowed_sources : (configured : Text) → List Text
parse_allowed_sources configured =
    filter (λ p. not (p == [])) (map trim_space (split b',' configured))

unfoldable pub is_loopback : Net → (host : Text) → Bool
is_loopback net host = host == codes "localhost" || net.is_loopback_ip host

unfoldable pub self_loop_backend : Net → (backend port : Text) → Bool
unfolding is_loopback
self_loop_backend net backend port_str = elim (net.split_host_port backend) [
  | none ↦ false
  | some (host, port) ↦ port == port_str && is_loopback net host
]

unfoldable pub source_allowed : Net → (allowed : List Text) → (remote : Text) → Bool
unfolding is_loopback
source_allowed net allowed remote = elim (net.split_host_port remote) [
  | none ↦ false
  | some (host, port) ↦ is_loopback net host || contains allowed host
]

-- A listener with its goroutine `serve`. Its number stands for the pointers to it and to its counter.
pub record Listener : Type 0 where
  pub project : String
  pub address : ℕ
  pub backend : Text

-- A connection with its goroutine.
pub record Connection : Type 0 where
  pub project : String
  pub counter : ℕ
  pub remote : Text

-- `TCPProxy`: the two maps, the counters that they point to, the goroutines of listeners, those of
-- connections before and after they have counted themselves, and the processes of projects. A
-- pointer below `next_address` has been given out.
pub record Proxy : Type 0 where
  pub listeners : List (String × ℕ)
  pub actives : List (String × ℕ)
  pub counters : List (ℕ × ℕ)
  pub serving : List Listener
  pub accepted : List Connection
  pub handled : List Connection
  pub next_address : ℕ
  pub processes : Processes

-- `TCPProxyMgr`, when the server starts.
abbrev pub no_proxy : Proxy
no_proxy = record {
  listeners = [];
  actives = [];
  counters = [];
  serving = [];
  accepted = [];
  handled = [];
  next_address = 0;
  processes = record { procs = []; waiters = []; stopping = [] };
}

-- The columns that `Start` reads, which a failed query leaves empty, and `net.Listen` on a port (none
-- is success).
pub record Site : Type 0 where
  pub port : Text
  pub backend_url : Text
  pub service_name : Text
  pub startup_command : Text
  pub listen_failure : ℤ → Option Text

pub data ProxyReply : Type 0 where
  already invalid_port no_backend self_loop listening : ProxyReply
  not_listening : ℤ → Text → ProxyReply

-- The address behind the proxy; none is a project that has nothing to connect to.
unfoldable pub backend_of : Site → Option Text
backend_of w =
    if not (w.backend_url == [])
    then some w.backend_url
    else if w.service_name == [] && w.startup_command == []
    then none
    else some (codes "127.0.0.1:" ++ w.port)

unfoldable pub normal_backend : Text → Text
normal_backend backend =
    let bare = trim_prefix backend (codes "http://") in
    if contains bare b':' then bare else codes "127.0.0.1:" ++ bare

-- The entries of both maps, the counter at 0, and the goroutine.
unfoldable pub add_listener : String → (backend : Text) → Proxy → Proxy
add_listener id backend s = record s {
  listeners = insert id s.next_address s.listeners;
  actives = insert id s.next_address s.actives;
  counters = insert s.next_address 0 s.counters;
  serving = record { project = id; address = s.next_address; backend = backend } ∷ s.serving;
  next_address = suc s.next_address;
}

unfoldable pub listen : Net → Site → String → ℤ → (backend : Text) → Proxy → Proxy × ProxyReply
unfolding self_loop_backend add_listener
listen net w id port backend s =
    if self_loop_backend net backend w.port then (s, self_loop) else elim (w.listen_failure port) [
      | some why ↦ (s, not_listening port why)
      | none ↦ (add_listener id backend s, listening)
    ]

unfoldable pub to_backend :
    Net → Site → String → ℤ → (backend : Option Text) → Proxy → Proxy × ProxyReply
unfolding normal_backend listen
to_backend net w id port none s = (s, no_backend)
to_backend net w id port (some backend) s = listen net w id port (normal_backend backend) s

-- `Start` for a project that has no listener, and what strconv.Atoi reads of the port.
unfoldable pub start_on : Net → Site → String → Option ℤ → Proxy → Proxy × ProxyReply
unfolding backend_of to_backend
start_on net w id none s = (s, invalid_port)
start_on net w id (some (pos zero)) s = (s, invalid_port)
start_on net w id (some port) s = to_backend net w id port (backend_of w) s

-- `TCPProxy.Start`, which holds the lock throughout.
unfoldable pub start_proxy : Net → Site → String → Proxy → Proxy × ProxyReply
unfolding start_on
start_proxy net w id s = elim (lookup id s.listeners) [
  | some l ↦ (s, already)
  | none ↦ start_on net w id (atoi w.port) s
]

-- One round of `serve`: a connection from this address is closed, or gets its goroutine.
unfoldable pub accept : Net → (allowed : List Text) → Listener → (remote : Text) → Proxy → Proxy
unfolding source_allowed
accept net allowed l remote s =
    if source_allowed net allowed remote
    then record s {
      accepted = record { project = l.project; counter = l.address; remote = remote } ∷ s.accepted;
    }
    else s

-- `*counter`
abbrev pub counted : Proxy → ℕ → ℕ
counted s n = elim (lookup n s.counters) [ none ↦ 0 | some k ↦ k ]

-- The goroutine of a connection, between others: it counts itself and starts the project.
unfoldable pub begin :
    Host → (before : List Connection) → Connection → (after : List Connection) → Proxy → Proxy
begin h before c after s = record s {
  accepted = before ++ after;
  handled = c ∷ s.handled;
  counters = insert c.counter (counted s c.counter + 1) s.counters;
  processes = (Processes.start h c.project s.processes).0;
}

-- Its end, after the copying or after 60 attempts to reach the project.
unfoldable pub finish :
    (before : List Connection) → Connection → (after : List Connection) → Proxy → Proxy
finish before c after s = record s {
  handled = before ++ after;
  counters = insert c.counter (counted s c.counter - 1) s.counters;
}

abbrev pub is_at : Option ℕ → ℕ → Bool
is_at none a = false
is_at (some b) a = b == a

-- The end of `serve`: the entries are removed if they are still those of this listener.
unfoldable pub serve_end :
    (before : List Listener) → Listener → (after : List Listener) → Proxy → Proxy
serve_end before l after s =
    if is_at (lookup l.project s.listeners) l.address
    then record s {
      listeners = erase l.project s.listeners;
      actives = erase l.project s.actives;
      serving = before ++ after;
    }
    else record s { serving = before ++ after }

-- `TCPProxy.Stop`; the closed listener ends its `serve`.
unfoldable pub stop_proxy : String → Proxy → Proxy
stop_proxy id s = elim (lookup id s.listeners) [
  | none ↦ record s { actives = erase id s.actives }
  | some l ↦ record s { listeners = erase id s.listeners; actives = erase id s.actives }
]
