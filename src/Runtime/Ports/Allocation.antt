-- ===== src/Runtime/Ports/Allocation.antt =====
-- What `Allocate` and `Free` promise.
use mathlib.Core.Path.{fun_ext}
use lambs_server.Base.{
  ℕ, suc, ◌-◌, ◌≤◌, ◌≡◌, refl, ap, subst, ◌∙◌, String, Bool, false, not, ◌&&◌, Option, none, some,
  List, [], string_eq, text_eq, nat_eq, arith, Result, ok, err,
}
use lambs_server.Base.Text.{Text, itoa}
use lambs_server.Store.{Project, exec, scan_or}
use lambs_server.Runtime.Ports.{
  PortError, PortManager, Statement, Host, port_of, is_taken, own_port, is_usable, search, set_port,
  no_free_port, settle, allocate,
}
use lambs_server.Runtime.Ports.Search.{IsFirst, NoneUsable, search-IsFirst, search-NoneUsable}

-- No statement fails.
abbrev pub IsUp : Host → Type 0
IsUp host = (q : Statement) → host.down q ≡ false

-- The port is in no other project's row, and could be opened.
unfoldable pub is_open : Host → String → List Project → ℕ → Bool
is_open host id ps port = not (is_taken id ps port) && host.listens port

own_port_bounds :
    (pm : PortManager) (text : Text) (n : ℕ)
    → own_port pm text ≡ some n
    → (pm.start_port ≤ n) × (n ≤ pm.end_port)
unfolding own_port
own_port_bounds pm text n e = ground arith

module _ (pm : PortManager) (host : Host) (id : String) (ps : List Project) where
  abbrev own : Option ℕ
  own = own_port pm (scan_or (host.down Statement.current) [] (port_of id ps))

  abbrev found : Option ℕ
  found = search (is_usable host id ps) (suc pm.end_port - pm.start_port) pm.start_port

  allocate_lem : allocate pm host id ps ≡ settle host id ps own found
  unfolding allocate
  allocate_lem = refl

  settle_bounds :
      (o f : Option ℕ) (port : ℕ)
      → ((n : ℕ) → o ≡ some n → (pm.start_port ≤ n) × (n ≤ pm.end_port))
      → ((n : ℕ) → f ≡ some n → (pm.start_port ≤ n) × (n ≤ pm.end_port))
      → (settle host id ps o f).1 ≡ ok port
      → (pm.start_port ≤ port) × (port ≤ pm.end_port)
  unfolding settle
  settle_bounds (some n) f port ho hf e = ground (arith, ho n refl)
  settle_bounds none (some n) port ho hf e = ground (arith, hf n refl)
  settle_bounds none none port ho hf e = cc

  -- The port that `Allocate` returns lies in the range of the manager, whatever fails on the way.
  pub allocate_bounds :
      (port : ℕ)
      → (allocate pm host id ps).1 ≡ ok port
      → (pm.start_port ≤ port) × (port ≤ pm.end_port)
  allocate_bounds port e =
      settle_bounds own found port (λ n h. own_port_bounds pm _ n h)
        (λ n h.
          let r =
            search-IsFirst (is_usable host id ps) (suc pm.end_port - pm.start_port) pm.start_port n
              h in
          (r.lower, omega (arith, r.lower, r.upper)))
        (rw allocate_lem at e)

is_usable-eq-is_open :
    (host : Host) (id : String) (ps : List Project) (port : ℕ)
    → IsUp host
    → is_usable host id ps port ≡ is_open host id ps port
unfolding is_usable is_open
is_usable-eq-is_open host id ps port up = ground (arith, up (Statement.taken port))

-- What an allocation may end with, where the project has no port of its own in the range.
abbrev pub Allocates :
    PortManager → Host → String → List Project → List Project × Result PortError ℕ → Type 0
Allocates pm host id ps (ps', ok port) =
    IsFirst (is_open host id ps) pm.start_port (suc pm.end_port - pm.start_port) port
    × (ps' ≡ set_port id (itoa port) ps)
Allocates pm host id ps (ps', err no_free_port) =
    NoneUsable (is_open host id ps) pm.start_port (suc pm.end_port - pm.start_port) × (ps' ≡ ps)

module _ (pm : PortManager) (host : Host) (id : String) (ps : List Project) where
  usable-eq-open : IsUp host → is_usable host id ps ≡ is_open host id ps
  usable-eq-open up = fun_ext (λ port. is_usable-eq-is_open host id ps port up)

  settle-Allocates :
      (f : Option ℕ)
      → host.down Statement.save ≡ false
      → ((port : ℕ)
          → f ≡ some port
          → IsFirst (is_open host id ps) pm.start_port (suc pm.end_port - pm.start_port) port)
      → (f ≡ none → NoneUsable (is_open host id ps) pm.start_port (suc pm.end_port - pm.start_port))
      → Allocates pm host id ps (settle host id ps none f)
  unfolding settle exec
  settle-Allocates none up hit missed = (missed refl, refl)
  settle-Allocates (some port) up hit missed = (hit port refl, rw up)

  -- Where no statement fails and the project has no port of its own in the range: `Allocate` either
  -- returns the first port of the range that no other project's row holds and that can be opened,
  -- and writes that port to the project's row and nothing else; or it reports that there is none,
  -- every port of the range is held by another project or cannot be opened, and nothing changes.
  pub allocate-Allocates :
      IsUp host
      → own_port pm (scan_or false [] (port_of id ps)) ≡ none
      → Allocates pm host id ps (allocate pm host id ps)
  allocate-Allocates up no_own =
      let rounds = suc pm.end_port - pm.start_port in
      let fresh : allocate pm host id ps ≡ settle host id ps none (found pm host id ps) =
        allocate_lem pm host id ps
        ∙ ap (λ o. settle host id ps o (found pm host id ps)) (rw (up Statement.current) no_own) in
      rw fresh (
        settle-Allocates (found pm host id ps) (up Statement.save)
          (λ port hit.
            subst (λ u. IsFirst u pm.start_port rounds port) (usable-eq-open up)
              (search-IsFirst (is_usable host id ps) rounds pm.start_port port hit))
          (λ missed.
            subst (λ u. NoneUsable u pm.start_port rounds) (usable-eq-open up)
              (search-NoneUsable (is_usable host id ps) rounds pm.start_port missed)))
