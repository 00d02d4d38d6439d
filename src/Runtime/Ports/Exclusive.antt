-- ===== src/Runtime/Ports/Exclusive.antt =====
-- No two projects hold the same port.
use lambs_server.Base.{
  ℕ, ◌≡◌, String, Bool, true, false, not, ◌||◌, List, [], ◌∷◌, All, any, update_where, ◌==◌,
  string_eq, text_eq, eq_iff, if◌then◌else◌, arith, none, Result, ok, err, text_beq,
}
use lambs_server.Base.Text.{Text, itoa}
use lambs_server.Store.{Project, exec, scan_or}
use lambs_server.Runtime.Ports.{
  PortError, no_free_port, PortManager, Host, is_taken, port_of, own_port, set_port, allocate, free,
}
use lambs_server.Runtime.Ports.Allocation.{IsUp, is_open, Allocates, allocate-Allocates}

abbrev pub no_port : Text
no_port = []

-- Two rows with the same port are rows of one project, or hold none.
unfoldable pub is_apart : Project → Project → Bool
is_apart p q = p.id == q.id || (not (p.port == q.port) || p.port == no_port)

abbrev pub IsExclusive : List Project → Type 0
IsExclusive [] = Unit
IsExclusive (p ∷ ps) = All (λ q. is_apart p q ≡ true) ps × IsExclusive ps

-- A row with this port belongs to the project, or the port is none.
only_of : String → Text → Project → Bool
only_of id text p = not (p.port == text) || (text == no_port || p.id == id)

reassign : String → Text → Project → Project
reassign id text p = if p.id == id then record p { port = text } else p

reassign-is_apart :
    (id : String) (text : Text) (p q : Project)
    → is_apart p q ≡ true
    → only_of id text p ≡ true
    → only_of id text q ≡ true
    → is_apart (reassign id text p) (reassign id text q) ≡ true
unfolding is_apart only_of reassign
reassign-is_apart id text p q h op oq = ground (
  arith,
  eq_iff p.id id,
  eq_iff q.id id,
  eq_iff p.id q.id,
  eq_iff id id,
  eq_iff id q.id,
  eq_iff p.id id,
  eq_iff p.port q.port,
  eq_iff text q.port,
  eq_iff p.port text,
  eq_iff text no_port,
  eq_iff p.port no_port,
  eq_iff q.port text,
)

All-reassign :
    (id : String) (text : Text) (p : Project) (ps : List Project)
    → All (λ q. is_apart p q ≡ true) ps
    → only_of id text p ≡ true
    → All (λ q. only_of id text q ≡ true) ps
    → All (λ q. is_apart (reassign id text p) q ≡ true) (set_port id text ps)
unfolding set_port update_where
All-reassign id text p [] h op o = tt
All-reassign id text p (q ∷ ps) h op o = (
  unfold reassign in reassign-is_apart id text p q h.0 op o.0,
  All-reassign id text p ps h.1 op o.1,
)

set_port-IsExclusive :
    (id : String) (text : Text) (ps : List Project)
    → IsExclusive ps
    → All (λ q. only_of id text q ≡ true) ps
    → IsExclusive (set_port id text ps)
unfolding set_port update_where reassign
set_port-IsExclusive id text [] h o = tt
set_port-IsExclusive id text (p ∷ ps) h o =
    (All-reassign id text p ps h.0 o.0 o.1, set_port-IsExclusive id text ps h.1 o.1)

only_of_not_taken :
    (id : String) (ps : List Project) (port : ℕ)
    → is_taken id ps port ≡ false
    → All (λ q. only_of id (itoa port) q ≡ true) ps
unfolding is_taken any only_of
only_of_not_taken id [] port h = tt
only_of_not_taken id (p ∷ ps) port h = (ground arith, only_of_not_taken id ps port (ground arith))

only_of_none : (id : String) (ps : List Project) → All (λ q. only_of id [] q ≡ true) ps
unfolding only_of text_beq
only_of_none id [] = tt
only_of_none id (p ∷ ps) = (ground arith, only_of_none id ps)

not_taken_of_open :
    (host : Host) (id : String) (ps : List Project) (port : ℕ)
    → is_open host id ps port ≡ true
    → is_taken id ps port ≡ false
unfolding is_open
not_taken_of_open host id ps port h = ground arith

Allocates-IsExclusive :
    (pm : PortManager) (host : Host) (id : String) (ps : List Project)
    (r : List Project × Result PortError ℕ)
    → Allocates pm host id ps r
    → IsExclusive ps
    → IsExclusive r.0
Allocates-IsExclusive pm host id ps (ps', ok port) (first, stored) h = rw stored (
    set_port-IsExclusive id (itoa port) ps h
      (only_of_not_taken id ps port (not_taken_of_open host id ps port first.good)))
Allocates-IsExclusive pm host id ps (ps', err no_free_port) (full, kept) h = rw kept h

-- Where no statement fails and the project has no port of its own in the range, `Allocate` keeps
-- that no two projects hold the same port.
pub allocate-IsExclusive :
    (pm : PortManager) (host : Host) (id : String) (ps : List Project)
    → IsUp host
    → own_port pm (scan_or false [] (port_of id ps)) ≡ none
    → IsExclusive ps
    → IsExclusive (allocate pm host id ps).0
allocate-IsExclusive pm host id ps up no_own h =
    Allocates-IsExclusive pm host id ps (allocate pm host id ps)
      (allocate-Allocates pm host id ps up no_own) h

-- `Free` keeps that no two projects hold the same port, and takes the port off the project's row.
pub free-IsExclusive :
    (down : Bool) (id : String) (ps : List Project) → IsExclusive ps → IsExclusive (free down id ps)
unfolding free exec
free-IsExclusive true id ps h = h
free-IsExclusive false id ps h = set_port-IsExclusive id [] ps h (only_of_none id ps)
