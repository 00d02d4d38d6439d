-- ===== src/Runtime/Proxy/Steps.antt =====
-- The steps of the proxy's goroutines, and what is to hold between them.
use lambs_server.Base.{
  ℕ, ◌≤◌, ◌≡◌, not, ◌&&◌, String, some, List, ◌∷◌, ◌++◌, lookup, IsMap, count, ◌==◌, nat_eq,
  string_eq,
}
use lambs_server.Base.Text.{Text}
use lambs_server.Runtime.Processes.{Processes, Host}
use lambs_server.Runtime.Proxy.{
  Net, Site, Listener, Connection, Proxy, source_allowed, start_proxy, accept, counted, begin,
  finish, serve_end, stop_proxy,
}

-- The goroutines of this listener.
abbrev pub servers : String → ℕ → Proxy → ℕ
servers id a s = count (λ l. l.project == id && l.address == a) s.serving

-- The connections that this counter counts.
abbrev pub connections : ℕ → List Connection → ℕ
connections n cs = count (λ c. c.counter == n) cs

-- The two maps agree, and an entry has a goroutine that serves it.
abbrev pub IsServed : Proxy → Type 0
IsServed s =
    IsMap s.actives
    × ((id : String) → lookup id s.actives ≡ lookup id s.listeners)
    × ((id : String) (a : ℕ) → lookup id s.listeners ≡ some a → 1 ≤ servers id a s)

-- A counter is the number of the connections that are handled.
abbrev pub IsCounted : Proxy → Type 0
IsCounted s = (n : ℕ) → counted s n ≡ connections n s.handled

-- Nothing holds a pointer that has not been given out.
abbrev pub IsFresh : Proxy → Type 0
IsFresh s =
    (n : ℕ)
    → s.next_address ≤ n
    → (count (λ l. l.address == n) s.serving ≡ 0)
      × (connections n s.accepted ≡ 0)
      × (connections n s.handled ≡ 0)

module _ (net : Net) (allowed : List Text) where
  -- One step of a goroutine. The processes of projects may change at any time, and a listener may
  -- fail at any time; that one which Stop has closed takes no connection any more is not demanded.
  pub data Step : Proxy → Proxy → Type 0 where
    starts : {s : Proxy} (w : Site) (id : String) → Step s (start_proxy net w id s).0
    accepts :
        {s : Proxy} (before : List Listener) (l : Listener) (after : List Listener) (remote : Text)
        → s.serving ≡ before ++ l ∷ after
        → Step s (accept net allowed l remote s)
    begins :
        {s : Proxy} (h : Host) (before : List Connection) (c : Connection) (after : List Connection)
        → s.accepted ≡ before ++ c ∷ after
        → Step s (begin h before c after s)
    finishes :
        {s : Proxy} (before : List Connection) (c : Connection) (after : List Connection)
        → s.handled ≡ before ++ c ∷ after
        → Step s (finish before c after s)
    ends :
        {s : Proxy} (before : List Listener) (l : Listener) (after : List Listener)
        → s.serving ≡ before ++ l ∷ after
        → Step s (serve_end before l after s)
    stops : {s : Proxy} (id : String) → Step s (stop_proxy id s)
    moves : {s : Proxy} (ps : Processes) → Step s (record s { processes = ps })

  pub data Steps : Proxy → Proxy → Type 0 where
    done : {s : Proxy} → Steps s s
    next : {s s' s'' : Proxy} → Step s s' → Steps s' s'' → Steps s s''

  -- The connections from an address that is not allowed.
  abbrev pub intruders : List Connection → ℕ
  intruders cs = count (λ c. not (source_allowed net allowed c.remote)) cs

  abbrev pub IsScreened : Proxy → Type 0
  IsScreened s = (intruders s.accepted ≡ 0) × (intruders s.handled ≡ 0)

  abbrev pub IsSound : Proxy → Type 0
  IsSound s = IsServed s × IsCounted s × IsFresh s × IsScreened s
