-- ===== src/Runtime/Health/Panics.antt =====
-- When a pass of the health monitor ends the server.

use lambs_server.Base.{
  ◌≡◌, ◌∙◌, inl, inr, refl, sym, ap, Bool, true, false, not, ◌&&◌, String, Option, none, some, List,
  [], ◌∷◌, any, filter, lookup, All, All-filter_of_All, ◌==◌, eq_iff, string_eq, text_eq, Result,
  ok, err, Result-cases, Option-cases, Bool-cases, arith,
}
use lambs_server.Base.Text.{Text, codes, has_prefix}
use lambs_server.Store.{Project}
use lambs_server.Runtime.Processes.Commands.{Command, CommandError, empty, panicked, parse_command}
use lambs_server.Runtime.Processes.Panic.{is_panic, parse_command-panics}
use lambs_server.Runtime.Processes
use lambs_server.Runtime.Processes.{
  Processes, Host, StartError, StartReply, crashed, found, launched, by_systemd, memory_error,
  spawn, run_command, run_service, start_new, start,
}
use lambs_server.Runtime.Health.{
  Surroundings, Health, is_managed, host_of, is_running, after_start, tend, and_then, tend_all,
  tend_shared, health_once,
}
use lambs_server.Runtime.Processes.Entries.{lookup-start}
use lambs_server.Runtime.Health.Tended.{started, reply, tend_cases, after_start-keeps}

abbrev pub is_none {ℓ} : {A : Type ℓ} → Option A → Bool
is_none none = true
is_none (some a) = false

-- The project is down, memory suffices, and Start reads a command of it that the parser panics on.
abbrev pub is_fatal : Surroundings → Health → Project → Bool
is_fatal w s p =
    not (is_running w p s.processes)
    && (is_none (memory_error (w.host p.id).available (w.host p.id).min_free)
        && (not (w.down_start p.id) && has_prefix p.startup_command (codes "cd && ")))

-- No two rows have one id.
abbrev pub IsUnique : List Project → Type 0
IsUnique [] = Unit
IsUnique (p ∷ ps) = All (λ q. (p.id == q.id) ≡ false) ps × IsUnique ps

abbrev is_crash : StartReply → Bool
is_crash crashed = true
is_crash found = false
is_crash launched = false
is_crash by_systemd = false
is_crash (Processes.failed e) = false

spawn_safe : (h : Host) (id : String) (s : Processes) → is_crash (spawn h id s).1 ≡ false
unfolding spawn
spawn_safe h id s = elim (Result-cases h.spawned) [
  | inl (why, e) ↦ ground (arith, e)
  | inr (pid, e) ↦ ground (arith, e)
]

run_command-crash :
    (h : Host) (id : String) (r : Result CommandError Command) (s : Processes)
    → is_crash (run_command h id r s).1 ≡ is_panic r
unfolding run_command
run_command-crash h id (err empty) s = refl
run_command-crash h id (err panicked) s = refl
run_command-crash h id (ok c) s = spawn_safe h id s

run_service_safe :
    (h : Host) (id : String) (s : Processes) → is_crash (run_service h id s).1 ≡ false
unfolding run_service
run_service_safe h id s = ground (arith, spawn_safe h id s)

no_prefix : (s : Text) → s ≡ [] → has_prefix s (codes "cd && ") ≡ false
unfolding has_prefix
no_prefix s e = rw e refl

start_new-crash :
    (h : Host) (id : String) (s : Processes)
    → is_crash (start_new h id s).1 ≡ has_prefix h.startup_command (codes "cd && ")
start_new-crash h id s = elim (Bool-cases (h.startup_command == [])) [
  | inl no_command ↦
      let bare : has_prefix h.startup_command (codes "cd && ") ≡ false =
        no_prefix h.startup_command ((eq_iff h.startup_command []).0 no_command) in
      unfold start_new in rw (no_command, bare) (ground (arith, run_service_safe h id s))
  | inr command ↦
      unfold start_new in
      rw command (
        run_command-crash h id (parse_command h.startup_command) s
        ∙ parse_command-panics h.startup_command)
]

start-crash :
    (h : Host) (id : String) (s : Processes)
    → lookup id s.procs ≡ none
    → is_crash (start h id s).1 ≡ (
        is_none (memory_error h.available h.min_free)
        && has_prefix h.startup_command (codes "cd && "))
unfolding start memory_error
start-crash h id s free = elim (Option-cases (memory_error h.available h.min_free)) [
  | inl enough ↦ rw (free, start) (rw enough (start_new-crash h id s))
  | inr (e, short) ↦ rw (free, start) (rw short refl)
]

module _ (w : Surroundings) where
  after_start-none :
      (p : Project) (r : StartReply) (s : Health) → is_none (after_start w p r s) ≡ is_crash r
  unfolding after_start
  after_start-none p crashed s = refl
  after_start-none p found s = refl
  after_start-none p launched s = refl
  after_start-none p by_systemd s = refl
  after_start-none p (Processes.failed e) s = refl

  prefix-host_of :
      (p : Project)
      → has_prefix (host_of w p).startup_command (codes "cd && ")
        ≡ (not (w.down_start p.id) && has_prefix p.startup_command (codes "cd && "))
  unfolding host_of has_prefix
  prefix-host_of p = elim (Bool-cases (w.down_start p.id)) [
    | inl down ↦ rw (down, host_of) refl
    | inr works ↦ rw (works, host_of) refl
  ]

  tend-none : (p : Project) (s : Health) → is_none (tend w p s) ≡ is_fatal w s p
  unfolding host_of
  tend-none p s = elim (tend_cases w p s) [
    | inl (up, kept) ↦ rw (up, kept) refl
    | inr (down, free, after) ↦
        rw (down, after)
          (after_start-none p (reply w p s) (started w p s)
            ∙ start-crash (host_of w p) p.id s.processes free
            ∙ ap (λ b. is_none (memory_error (host_of w p).available (host_of w p).min_free) && b)
                (prefix-host_of p))
  ]

  is_running_same :
      (p : Project) (s t : Processes)
      → lookup p.id t.procs ≡ lookup p.id s.procs
      → is_running w p t ≡ is_running w p s
  unfolding is_running
  is_running_same p s t e = rw (e, is_running) refl

  -- A round for another row changes nothing about a project.
  tend-is_fatal :
      (q p : Project) (s s' : Health)
      → (q.id == p.id) ≡ false
      → tend w q s ≡ some s'
      → is_fatal w s' p ≡ is_fatal w s p
  tend-is_fatal q p s s' other e = elim (tend_cases w q s) [
    | inl (up, kept) ↦ let same : s ≡ s' = cc (e, kept) in rw same refl
    | inr (down, free, after) ↦
        let (same, _') =
          after_start-keeps w q (reply w q s) (started w q s) s' p.id (sym after ∙ e) in
        let entry : lookup p.id s'.processes.procs ≡ lookup p.id s.processes.procs =
          rw same (elim (lookup-start (host_of w q) p.id q.id s.processes) [
            | inl kept ↦ kept
            | inr (own, has) ↦ ground (arith, own, other, eq_iff q.id p.id)
          ]) in
        rw (is_running_same p s.processes s'.processes entry) refl
  ]

  any_same :
      (q : Project) (ps : List Project) (s s' : Health)
      → All (λ p. (q.id == p.id) ≡ false) ps
      → tend w q s ≡ some s'
      → any (is_fatal w s') ps ≡ any (is_fatal w s) ps
  unfolding any
  any_same q [] s s' others e = refl
  any_same q (p ∷ ps) s s' others e =
      rw (tend-is_fatal q p s s' others.0 e, any_same q ps s s' others.1 e) refl

  tend_all-none :
      (ps : List Project) (s : Health)
      → IsUnique ps
      → is_none (tend_all w ps s) ≡ any (is_fatal w s) ps
  unfolding tend_all any
  tend_all-none [] s unique = refl
  tend_all-none (p ∷ ps) s unique = elim (Option-cases (tend w p s)) [
    | inl down ↦
        let fatal : is_fatal w s p ≡ true = sym (tend-none p s) ∙ rw down refl in
        simp (down, fatal) refl
    | inr (s', e) ↦
        let safe : is_fatal w s p ≡ false = sym (tend-none p s) ∙ rw e refl in
        simp (e, safe) (tend_all-none ps s' unique.1 ∙ any_same p ps s s' unique.0 e)
  ]

  IsUnique-filter : (f : Project → Bool) (ps : List Project) → IsUnique ps → IsUnique (filter f ps)
  unfolding filter
  IsUnique-filter f [] unique = tt
  IsUnique-filter f (p ∷ ps) unique = elim (Bool-cases (f p)) [
    | inl kept ↦ rw kept (
      All-filter_of_All (λ q. (p.id == q.id) ≡ false) f ps unique.0,
      IsUnique-filter f ps unique.1,
    )
    | inr gone ↦ rw gone (IsUnique-filter f ps unique.1)
  ]

  none-and_then :
      (o : Option Health) (f : Health → Health) → is_none (and_then o (λ s. some (f s))) ≡ is_none o
  none-and_then none f = refl
  none-and_then (some s) f = refl

  -- Where no two rows have one id, a pass of the monitor panics, which ends the server, if and only if
  -- the monitor is enabled, its query works, and some online project does not run, as far as Status
  -- can tell, is not short of memory, and has a start command that begins with "cd && " and that the
  -- query of Start does not fail to read. Every other pass ends.
  pub health_once-panics :
      (enabled : Bool) (projects : List Project) (s : Health)
      → IsUnique projects
      → is_none (health_once w enabled projects s)
        ≡ (enabled && (not w.down_projects && any (is_fatal w s) (filter is_managed projects)))
  unfolding health_once
  health_once-panics false projects s unique = refl
  health_once-panics true projects s unique = elim (Bool-cases w.down_projects) [
    | inl down ↦ rw down refl
    | inr works ↦ rw works (
        none-and_then (tend_all w (filter is_managed projects) s) (tend_shared w)
        ∙ tend_all-none (filter is_managed projects) s (IsUnique-filter is_managed projects unique))
  ]
