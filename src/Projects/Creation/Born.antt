-- ===== src/Projects/Creation/Born.antt =====
-- The row that CreateProject adds.
use mathlib.Core.Option
use lambs_server.Base.{
  ℕ, ◌≡◌, refl, sym, ap, subst, ◌∙◌, true, false, ◌||◌, String, Option, none, some, List, ◌∷◌, ◌++◌,
  any, find, All, if◌then◌else◌, ◌==◌, eq_iff, nat_eq, text_eq, string_eq, Result, ok, err, arith,
  Bool-cases, inl, inr,
}
use lambs_server.Base.Text.{Text}
use lambs_server.Store.{Project, Source}
use lambs_server.Projects.Sources.{primary_datasource}
use lambs_server.Projects.Sources.Normal.{is_normal}
use lambs_server.Projects.Lifecycle.{sync_nginx, Site, project_by_id, call}
use lambs_server.Projects.Update.{given, with_primary}
use lambs_server.Projects.Hosts.{HostError, alloc_host, Chosen, alloc_host-Chosen}
use lambs_server.Projects.Creation.{
  CreateWorld, CreateReply, failure, created, start_calls, insert_row, new_thumb, place,
  place_ported,
}
use lambs_server.Projects.Creation.Port.{
  portless, SamePlaces, SameElsewhere, elsewhere, PortChosen, Ported,
}

unfoldable pub dsn_of : Option Source → Option Text
dsn_of none = none
dsn_of (some x) = x.dsn

unfoldable pub kind_of : Option Source → Option Text
kind_of none = none
kind_of (some x) = x.kind

-- The columns `dsn` and `db_type` are those of the primary source, where it has them.
unfoldable pub mirrors : Project → Text × Text
unfolding dsn_of kind_of
mirrors p = (
  given (dsn_of (primary_datasource p.datasources)) p.dsn,
  given (kind_of (primary_datasource p.datasources)) p.db_type,
)

-- A new row, for the id, the host and the port of the request.
pub record Born (lower : ℕ → ℕ) (w : CreateWorld) (host : String) (port : Text) (s s' : Site)
    (p : Project) : Type 0 where
  pub fresh : any (λ q. q.id == p.id) s.projects ≡ false
  pub rows :
      (q : String)
      → project_by_id q s'.projects ≡ (if p.id == q then some p else project_by_id q s.projects)
  pub normal : All (λ x. is_normal lower x ≡ true) p.datasources
  pub mirrored : mirrors p ≡ (p.dsn, p.db_type)
  pub ported : PortChosen w p.id port s p.port
  pub hosted : Chosen w.down_machines w.machines host (ok p.host)

-- How the steps from the choice of the datasources on may end, for a row `p0`.
abbrev pub Making : (lower : ℕ → ℕ) → CreateWorld → Project → Site → Site × CreateReply → Type 0
Making lower w p0 s (s', failure c) =
    (c ≡ 400)
    × ((q : String)
        → Option.map portless (project_by_id q s'.projects)
          ≡ Option.map portless (project_by_id q s.projects))
    × SameElsewhere p0.id s s'
    × (s'.calls ≡ s.calls)
Making lower w p0 s (s', created p) =
    (p.id ≡ p0.id)
    × Born lower w p0.host p0.port s s' p
    × (s'.calls ≡ s.calls ++ sync_nginx ∷ start_calls p)

-- The row that is inserted into the rows of `t`.
abbrev Inserting : CreateWorld → Project → Site → Site × CreateReply → Type 0
Inserting w p t (s', failure c) = (c ≡ 400) × (s' ≡ t)
Inserting w p t (s', created p') =
    (p' ≡ p)
    × (any (λ q. q.id == p.id) t.projects ≡ false)
    × (s'.projects ≡ p ∷ t.projects)
    × (s'.calls ≡ t.calls ++ sync_nginx ∷ start_calls p)

insert_row-Inserting :
    (w : CreateWorld) (p : Project) (t : Site) → Inserting w p t (insert_row w p t)
insert_row-Inserting w p t =
    elim (Bool-cases (w.down_insert || any (λ q. q.id == p.id) t.projects)) [
      | inl failed ↦ unfold insert_row in simp failed (refl, refl)
      | inr done ↦
          let e : insert_row w p t ≡ (
            call (sync_nginx ∷ start_calls p) (record t { projects = p ∷ t.projects }),
            created p,
          ) =
            unfold insert_row in simp done refl in
          subst (Inserting w p t) (sym e)
            (refl, ground (arith, done), unfold call in refl, unfold call in refl)
    ]

project_by_id-new :
    (p : Project) (q : String) (ps : List Project)
    → project_by_id q (p ∷ ps) ≡ (if p.id == q then some p else project_by_id q ps)
unfolding project_by_id find
project_by_id-new p q ps = refl

given_twice : (o : Option Text) (t : Text) → given o (given o t) ≡ given o t
given_twice none t = refl
given_twice (some x) t = refl

pub mirrors-with_primary :
    (o : Option Source) (p : Project)
    → (given (dsn_of o) (with_primary o p).dsn ≡ (with_primary o p).dsn)
      × (given (kind_of o) (with_primary o p).db_type ≡ (with_primary o p).db_type)
unfolding dsn_of kind_of with_primary
mirrors-with_primary none p = (refl, refl)
mirrors-with_primary (some x) p = (given_twice x.dsn p.dsn, given_twice x.kind p.db_type)

-- A row `new` that is made of `p` by a port, `host` and a thumbnail.
record Dressed (p : Project) (host : String) (new : Project) : Type 0 where
  id : new.id ≡ p.id
  sources : new.datasources ≡ p.datasources
  dsn : new.dsn ≡ p.dsn
  db_type : new.db_type ≡ p.db_type
  hosted : new.host ≡ host

-- A row whose sources are in order.
pub record Sourced (lower : ℕ → ℕ) (p : Project) : Type 0 where
  pub normal : All (λ x. is_normal lower x ≡ true) p.datasources
  pub mirrored : mirrors p ≡ (p.dsn, p.db_type)

mirrors-Dressed :
    (p new : Project) (host : String)
    → Dressed p host new
    → mirrors p ≡ (p.dsn, p.db_type)
    → mirrors new ≡ (new.dsn, new.db_type)
unfolding mirrors
mirrors-Dressed p new host d m = rw (d.sources, d.dsn, d.db_type) m

module _ (lower : ℕ → ℕ) (scale : Text → Option Text) (w : CreateWorld) (s : Site)
    (p : Project) where
  rows_new :
      (t : Site) (new : Project) (host q : String)
      → Dressed p host new
      → SamePlaces p.id s t
      → project_by_id q (new ∷ t.projects)
        ≡ (if new.id == q then some new else project_by_id q s.projects)
  rows_new t new host q d places =
      project_by_id-new new q t.projects ∙ elim (Bool-cases (new.id == q)) [
        | inl mine ↦ simp mine refl
        | inr other ↦
            simp other
              (places.others q (ground (arith, other, d.id, eq_iff new.id q, eq_iff q p.id)))
      ]

  Inserting-Making :
      (t : Site) (new : Project) (host : String) (out : Site × CreateReply)
      → Dressed p host new
      → Sourced lower p
      → SamePlaces p.id s t
      → t.calls ≡ s.calls
      → (any (λ q. q.id == p.id) s.projects ≡ false → PortChosen w p.id p.port s new.port)
      → Chosen w.down_machines w.machines p.host (ok host)
      → Inserting w new t out
      → Making lower w p s out
  Inserting-Making t new host (s', failure c) d sourced places calls ported hosted (code, same) =
      (code, (λ q. rw same (places.rows q)), rw same (elsewhere p.id places), rw same calls)
  Inserting-Making t new host (s', created p') d sourced places calls ported hosted
        (same, fresh, rows, after) =
      let unused : any (λ q. q.id == p.id) s.projects ≡ false =
        sym places.ids ∙ subst (λ x. any (λ q. q.id == x) t.projects ≡ false) d.id fresh in
      rw same (
        d.id,
        record {
          fresh = rw d.id unused;
          rows = λ q. rw rows (rows_new t new host q d places);
          normal = rw d.sources sourced.normal;
          mirrored = mirrors-Dressed p new host d sourced.mirrored;
          ported = rw d.id (ported unused);
          hosted = rw d.hosted hosted;
        },
        after ∙ ap (λ cs. cs ++ sync_nginx ∷ start_calls new) calls,
      )

  place-Making :
      (out : Site × Project) (o : Result HostError String)
      → Ported w p s out
      → Sourced lower p
      → Chosen w.down_machines w.machines p.host o
      → Making lower w p s (place scale w out.1 o out.0)
  unfolding place
  place-Making (t, p1) (err why) ported sourced hosted =
      (refl, ported.places.rows, elsewhere p.id ported.places, ported.calls)
  place-Making (t, p1) (ok host) ported sourced hosted =
      let new : Project = record p1 { host = host; icon_thumb = new_thumb scale p1.icon_url } in
      let d : Dressed p host new = record {
        id = ap (λ x. x.id) ported.row;
        sources = ap (λ x. x.datasources) ported.row;
        dsn = ap (λ x. x.dsn) ported.row;
        db_type = ap (λ x. x.db_type) ported.row;
        hosted = refl;
      } in
      Inserting-Making t new host (insert_row w new t) d sourced ported.places ported.calls
        ported.port hosted (insert_row-Inserting w new t)

  pub place_ported-Making :
      (out : Site × Project)
      → Ported w p s out
      → Sourced lower p
      → Making lower w p s (place_ported scale w out)
  unfolding place_ported
  place_ported-Making (t, p1) ported sourced =
      let host : p1.host ≡ p.host = ap (λ x. x.host) ported.row in
      place-Making (t, p1) (alloc_host w.down_machines w.machines p1.host) ported sourced
        (rw host (alloc_host-Chosen w.down_machines w.machines p.host))
