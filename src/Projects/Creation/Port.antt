-- ===== src/Projects/Creation/Port.antt =====
-- The port of a new project.
use mathlib.Core.Option
use lambs_server.Base.{
  ℕ, ◌≤◌, ◌≡◌, ◌⊎◌, refl, sym, ap, subst, ◌∙◌, Bool, true, false, not, ◌||◌, String, Option, none,
  some, List, [], ◌∷◌, any, find, update_where, find-update_where, if◌then◌else◌, ◌==◌, nat_eq,
  text_eq, string_eq, arith, Bool-cases, inl, inr,
}
use lambs_server.Base.Text.{Text, atoi, itoa}
use lambs_server.Store.{Project, exec, scan_or}
use lambs_server.Runtime.Ports.{
  taken, current, save, port_mgr, port_of, own_port, is_taken, is_usable, search, set_port, settle,
  allocate,
}
use lambs_server.Runtime.Ports.Search.{search-IsFirst}
use lambs_server.Projects.Sources.{is_given}
use lambs_server.Projects.Lifecycle.{Site, project_by_id, update_project}
use lambs_server.Projects.Lifecycle.Rows.{project_by_id-update_project_others}
use lambs_server.Projects.Creation.{CreateWorld, with_port, choose_port}

-- The row without its port.
unfoldable pub portless : Project → Project
portless p = record p { port = [] }

-- `s'` is `s` but for the ports of the rows of `id`.
pub record SamePlaces (id : String) (s s' : Site) : Type 0 where
  pub others :
      (q : String) → (q == id) ≡ false → project_by_id q s'.projects ≡ project_by_id q s.projects
  pub rows :
      (q : String)
      → Option.map portless (project_by_id q s'.projects)
        ≡ Option.map portless (project_by_id q s.projects)
  pub ids : any (λ p. p.id == id) s'.projects ≡ any (λ p. p.id == id) s.projects

-- Every row but that of `id` is as before.
abbrev pub SameElsewhere : String → Site → Site → Type 0
SameElsewhere id s s' =
    (q : String)
    → (if q == id then none else project_by_id q s'.projects)
      ≡ (if q == id then none else project_by_id q s.projects)

pub elsewhere : {s s' : Site} (id : String) → SamePlaces id s s' → SameElsewhere id s s'
elsewhere id places q = elim (Bool-cases (q == id)) [
  | inl mine ↦ rw mine refl
  | inr other ↦ rw other (places.others q other)
]

-- The port of a new project: the one that is sent, or one of the range that no other row holds, or
-- that could not be looked up.
abbrev pub PortChosen : CreateWorld → String → (sent : Text) → Site → (port : Text) → Type 0
PortChosen w id sent s port =
    (port ≡ sent)
    ⊎ (is_given sent ≡ false)
      × ((n : ℕ) × (port ≡ itoa n)
          × (3510 ≤ n)
          × (n ≤ 3599)
          × (w.ports.down (taken n) || not (is_taken id s.projects n) ≡ true))

any-update_port :
    (id : String) (t : Text) (ps : List Project)
    → any (λ p. p.id == id) (set_port id t ps) ≡ any (λ p. p.id == id) ps
unfolding any set_port update_where
any-update_port id t [] = refl
any-update_port id t (p ∷ ps) = ground (arith, any-update_port id t ps)

portless-map :
    (id : String) (t : Text) (o : Option Project)
    → Option.map portless (Option.map (λ p. if p.id == id then record p { port = t } else p) o)
      ≡ Option.map portless o
unfolding portless
portless-map id t none = refl
portless-map id t (some p) = ap some (ground arith)

portless-set_port :
    (id q : String) (t : Text) (ps : List Project)
    → Option.map portless (project_by_id q (set_port id t ps))
      ≡ Option.map portless (project_by_id q ps)
unfolding project_by_id set_port
portless-set_port id q t ps =
    ap (Option.map portless) (
      find-update_where (λ p. p.id == q) (λ p. p.id == id) (λ p. record p { port = t }) ps
        (λ p. refl))
    ∙ portless-map id t (find (λ p. p.id == q) ps)

ports_written :
    (down : Bool) (id : String) (t : Text) (s : Site)
    → SamePlaces id s (record s { projects = exec down (set_port id t) s.projects })
unfolding exec set_port update_project
ports_written true id t s = record { others = λ q o. refl; rows = λ q. refl; ids = refl }
ports_written false id t s = record {
  others = λ q o.
      project_by_id-update_project_others id q (λ p. record p { port = t }) s.projects (λ p. refl)
        o;
  rows = λ q. portless-set_port id q t s.projects;
  ids = any-update_port id t s.projects;
}

pub SamePlaces-refl : (id : String) (s : Site) → SamePlaces id s s
SamePlaces-refl id s = record { others = λ q o. refl; rows = λ q. refl; ids = refl }

no_port_of :
    (id : String) (ps : List Project) → any (λ p. p.id == id) ps ≡ false → port_of id ps ≡ none
unfolding port_of find any
no_port_of id [] e = refl
no_port_of id (p ∷ ps) e = ground (arith, e, no_port_of id ps)

module _ (w : CreateWorld) (p : Project) (s : Site) where
  settle-SamePlaces :
      (own found : Option ℕ)
      → SamePlaces p.id s (with_port p (settle w.ports p.id s.projects own found) s).0
  unfolding settle with_port
  settle-SamePlaces (some n) found = SamePlaces-refl p.id s
  settle-SamePlaces none (some n) = ports_written (w.ports.down save) p.id (itoa n) s
  settle-SamePlaces none none = SamePlaces-refl p.id s

  settle_calls :
      (own found : Option ℕ)
      → (with_port p (settle w.ports p.id s.projects own found) s).0.calls ≡ s.calls
  unfolding settle with_port
  settle_calls (some n) found = refl
  settle_calls none (some n) = refl
  settle_calls none none = refl

  settle_row :
      (own found : Option ℕ)
      → (with_port p (settle w.ports p.id s.projects own found) s).1
        ≡ record p { port = (with_port p (settle w.ports p.id s.projects own found) s).1.port }
  unfolding settle with_port
  settle_row (some n) found = refl
  settle_row none (some n) = refl
  settle_row none none = refl

  settle-PortChosen :
      (own found : Option ℕ)
      → is_given p.port ≡ false
      → own ≡ none
      → ((n : ℕ)
          → found ≡ some n
          → (3510 ≤ n)
            × (n ≤ 3599)
            × (w.ports.down (taken n) || not (is_taken p.id s.projects n) ≡ true))
      → PortChosen w p.id p.port s (with_port p (settle w.ports p.id s.projects own found) s).1.port
  unfolding settle with_port
  settle-PortChosen (some n) found bare e good = cc
  settle-PortChosen none (some n) bare e good =
      let (lower, upper, free) = good n refl in inr (bare, (n, refl, lower, upper, free))
  settle-PortChosen none none bare e good = inl refl

  searched :
      (n : ℕ)
      → search (is_usable w.ports p.id s.projects) 90 3510 ≡ some n
      → (3510 ≤ n)
        × (n ≤ 3599)
        × (w.ports.down (taken n) || not (is_taken p.id s.projects n) ≡ true)
  searched n e =
      let first = search-IsFirst (is_usable w.ports p.id s.projects) 90 3510 n e in
      (first.lower, omega (arith, first.upper), unfold is_usable in ground (arith, first.good))

  -- What the choice of a port leaves.
  pub record Ported (out : Site × Project) : Type 0 where
    pub places : SamePlaces p.id s out.0
    pub calls : out.0.calls ≡ s.calls
    pub row : out.1 ≡ record p { port = out.1.port }
    pub port : any (λ q. q.id == p.id) s.projects ≡ false → PortChosen w p.id p.port s out.1.port

  no_own_port :
      any (λ q. q.id == p.id) s.projects ≡ false
      → own_port port_mgr (scan_or (w.ports.down current) [] (port_of p.id s.projects)) ≡ none
  unfolding own_port scan_or atoi
  no_own_port fresh = elim (Bool-cases (w.ports.down current)) [
    | inl failed ↦ rw failed refl
    | inr done ↦ rw (done, no_port_of p.id s.projects fresh) refl
  ]

  allocate-Ported :
      is_given p.port ≡ false → Ported (with_port p (allocate port_mgr w.ports p.id s.projects) s)
  unfolding allocate
  allocate-Ported bare =
      let own = own_port port_mgr (scan_or (w.ports.down current) [] (port_of p.id s.projects)) in
      let found = search (is_usable w.ports p.id s.projects) 90 3510 in
      record {
        places = settle-SamePlaces own found;
        calls = settle_calls own found;
        row = settle_row own found;
        port = λ fresh. settle-PortChosen own found bare (no_own_port fresh) searched;
      }

  pub choose_port-Ported : Ported (choose_port w p s)
  choose_port-Ported = elim (Bool-cases (is_given p.port)) [
    | inl sent ↦
        let e : choose_port w p s ≡ (s, p) = unfold choose_port in simp sent refl in
        subst Ported (sym e) (record {
          places = SamePlaces-refl p.id s;
          calls = refl;
          row = refl;
          port = λ fresh. inl refl;
        })
    | inr bare ↦
        let e : choose_port w p s ≡ with_port p (allocate port_mgr w.ports p.id s.projects) s =
          unfold choose_port in simp bare refl in
        subst Ported (sym e) (allocate-Ported bare)
  ]
