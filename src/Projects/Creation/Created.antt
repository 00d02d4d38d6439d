-- ===== src/Projects/Creation/Created.antt =====
-- What CreateProject leaves.
use mathlib.Core.Option
use lambs_server.Base.{
  ℕ, ◌≡◌, ◌⊎◌, refl, sym, ap, subst, ◌∙◌, true, not, ◌&&◌, String, Option, none, some, List, [],
  ◌∷◌, ◌++◌, append_assoc, ◌==◌, nat_eq, text_eq, string_eq, Result, ok, err, Bool-cases, inl, inr,
}
use lambs_server.Base.Text.{Text, codes}
use lambs_server.Store.{Project, Source}
use lambs_server.Projects.Sources.{SourceError, is_given, primary_datasource, normalize_datasources}
use lambs_server.Projects.Sources.Normal.{normalize_datasources-normal}
use lambs_server.Projects.Lifecycle.{create_database, sync_nginx, Site, project_by_id, call}
use lambs_server.Projects.Update.{with_primary, unique_services}
use lambs_server.Projects.Creation.{
  Draft, CreateWorld, CreateReply, failure, created, is_id, with_defaults, sources_or_dsn,
  start_calls, choose_port, create_sourced, create_provided, create_bare, create_named,
  create_project,
}
use lambs_server.Projects.Creation.Port.{portless, SameElsewhere, choose_port-Ported}
use lambs_server.Projects.Creation.Born.{
  mirrors, Born, Making, mirrors-with_primary, Sourced, place_ported-Making,
}

-- The row after its sources and services are chosen.
unfoldable sourced_row : List Source → Project → Project
sourced_row ss p = record (with_primary (primary_datasource ss) p) {
  datasources = ss;
  services = unique_services [] p.services;
}

with_primary-keeps :
    (o : Option Source) (p : Project)
    → ((with_primary o p).id ≡ p.id)
      × ((with_primary o p).host ≡ p.host)
      × ((with_primary o p).port ≡ p.port)
unfolding with_primary
with_primary-keeps none p = (refl, refl, refl)
with_primary-keeps (some x) p = (refl, refl, refl)

sourced_row-keeps :
    (ss : List Source) (p : Project)
    → ((sourced_row ss p).id ≡ p.id)
      × ((sourced_row ss p).host ≡ p.host)
      × ((sourced_row ss p).port ≡ p.port)
unfolding sourced_row
sourced_row-keeps ss p = with_primary-keeps (primary_datasource ss) p

sourced_row-Sourced :
    (lower : ℕ → ℕ) (ss ss' : List Source) (p : Project)
    → normalize_datasources lower ss ≡ ok ss'
    → Sourced lower (sourced_row ss' p)
unfolding sourced_row mirrors
sourced_row-Sourced lower ss ss' p e = record {
  normal = (normalize_datasources-normal lower ss ss' e).0;
  mirrored = let (dsn, kind) = mirrors-with_primary (primary_datasource ss') p in cc (dsn, kind);
}

module _ (lower : ℕ → ℕ) (scale : Text → Option Text) (w : CreateWorld) (s : Site)
    (p : Project) where
  Making-sourced_row :
      (ss : List Source) (out : Site × CreateReply)
      → Making lower w (sourced_row ss p) s out
      → Making lower w p s out
  Making-sourced_row ss (s', failure c) (code, rows, others, calls) =
      let (same, host, port) = sourced_row-keeps ss p in
      (code, rows, subst (λ x. SameElsewhere x s s') same others, calls)
  Making-sourced_row ss (s', created p') (id, born, calls) =
      let (same, host, port) = sourced_row-keeps ss p in
      (
        id ∙ same,
        subst (λ x. Born lower w x p.port s s' p') host
            (subst (λ x. Born lower w (sourced_row ss p).host x s s' p') port born),
        calls,
      )

  create_sourced-Making :
      (ss : List Source) (o : Result SourceError (List Source))
      → normalize_datasources lower ss ≡ o
      → Making lower w p s (create_sourced scale w p o s)
  unfolding create_sourced sourced_row
  create_sourced-Making ss (err why) e = (refl, (λ q. refl), (λ q. refl), refl)
  create_sourced-Making ss (ok ss') e = Making-sourced_row ss' _ (
      place_ported-Making lower scale w s (sourced_row ss' p) (choose_port w (sourced_row ss' p) s)
        (choose_port-Ported w (sourced_row ss' p) s) (sourced_row-Sourced lower ss ss' p e))

  create_provided-Making : Making lower w p s (create_provided lower scale w p s)
  unfolding create_provided
  create_provided-Making = create_sourced-Making (sources_or_dsn p) _ refl

-- How a request to create a project may end.
abbrev pub Creating : (lower : ℕ → ℕ) → CreateWorld → Draft → Site → Site × CreateReply → Type 0
Creating lower w d s (s', failure c) =
    (c ≡ 400)
    × ((q : String)
        → Option.map portless (project_by_id q s'.projects)
          ≡ Option.map portless (project_by_id q s.projects))
    × SameElsewhere (with_defaults d).id s s'
    × ((s'.calls ≡ s.calls) ⊎ (s'.calls ≡ s.calls ++ create_database (with_defaults d).id ∷ []))
Creating lower w d s (s', created p) =
    (p.id ≡ (with_defaults d).id)
    × (is_id (codes p.id) ≡ true)
    × Born lower w d.row.host d.row.port s s' p
    × ((s'.calls ≡ s.calls ++ sync_nginx ∷ start_calls p)
        ⊎ (s'.calls ≡ s.calls ++ create_database p.id ∷ sync_nginx ∷ start_calls p))

module _ (lower : ℕ → ℕ) (scale : Text → Option Text) (w : CreateWorld) (d : Draft) (s : Site) where
  Creating-Making :
      (out : Site × CreateReply)
      → is_id (codes (with_defaults d).id) ≡ true
      → Making lower w (with_defaults d) s out
      → Creating lower w d s out
  unfolding with_defaults
  Creating-Making (s', failure c) valid (code, rows, others, calls) =
      (code, rows, others, inl calls)
  Creating-Making (s', created p) valid (id, born, calls) =
      (id, subst (λ x. is_id (codes x) ≡ true) (sym id) valid, born, inl calls)

  -- The same after a database was created.
  Creating-database :
      (dsn : Text) (out : Site × CreateReply)
      → is_id (codes (with_defaults d).id) ≡ true
      → Making lower w
          (record (with_defaults d) { dsn = dsn })
          (call (create_database (with_defaults d).id ∷ []) s)
          out
      → Creating lower w d s out
  unfolding with_defaults call
  Creating-database dsn (s', failure c) valid (code, rows, others, calls) =
      (code, rows, others, inr calls)
  Creating-database dsn (s', created p) valid (id, born, calls) = (
    id,
    subst (λ x. is_id (codes x) ≡ true) (sym id) valid,
    record {
      fresh = born.fresh;
      rows = born.rows;
      normal = born.normal;
      mirrored = born.mirrored;
      ported = born.ported;
      hosted = born.hosted;
    },
    inr (
        calls
        ∙ append_assoc s.calls (create_database (with_defaults d).id ∷ [])
            (sync_nginx ∷ start_calls p)
        ∙ ap (λ x. s.calls ++ create_database x ∷ sync_nginx ∷ start_calls p) (sym id)),
  )

  create_bare-Creating :
      (database : Option Text)
      → is_id (codes (with_defaults d).id) ≡ true
      → Creating lower w d s (create_bare lower scale w (with_defaults d) database s)
  unfolding create_bare
  create_bare-Creating none valid =
      (refl, (λ q. unfold call in refl), (λ q. unfold call in refl), inr (unfold call in refl))
  create_bare-Creating (some dsn) valid = Creating-database dsn _ valid (
      create_provided-Making lower scale w (call (create_database (with_defaults d).id ∷ []) s)
        (record (with_defaults d) { dsn = dsn }))

  create_named-Creating : Creating lower w d s (create_named lower scale w (with_defaults d) s)
  create_named-Creating =
      let p0 = with_defaults d in
      elim (Bool-cases (is_id (codes p0.id))) [
        | inr bad ↦
            let e : create_named lower scale w p0 s ≡ (s, failure 400) =
              unfold create_named in simp bad refl in
            subst (Creating lower w d s) (sym e) (refl, (λ q. refl), (λ q. refl), inl refl)
        | inl valid ↦ elim (Bool-cases (p0.db_type == codes "postgres" && not (is_given p0.dsn))) [
          | inl bare ↦
              let e : create_named lower scale w p0 s ≡ create_bare lower scale w p0 w.database s =
                unfold create_named in simp (valid, bare) refl in
              subst (Creating lower w d s) (sym e) (create_bare-Creating w.database valid)
          | inr provided ↦
              let e : create_named lower scale w p0 s ≡ create_provided lower scale w p0 s =
                unfold create_named in simp (valid, provided) refl in
              subst (Creating lower w d s) (sym e)
                (Creating-Making _ valid (create_provided-Making lower scale w s p0))
        ]
      ]

-- A request to create a project that fails answers 400, adds no row, leaves every row of another id
-- as it is and a row that has the id already as it is but for its port, and starts nothing, though a database may have been made.
-- One that succeeds adds one row: its id matches `^[a-zA-Z0-9._-]+$` and was free, every source of
-- it has an id and a DSN of an accepted shape or none, `dsn` and `db_type` are the primary source's
-- where it has them, the port is the one sent or one from 3510 to 3599 that no other row holds (or
-- whose lookup failed), the host is one that allocHost may choose, and nginx is told; the project is
-- started or deployed if its status is online.
pub create_project-Creating :
    (lower : ℕ → ℕ) (scale : Text → Option Text) (w : CreateWorld) (d : Draft) (s : Site)
    → Creating lower w d s (create_project lower scale w (some d) s)
unfolding create_project
create_project-Creating lower scale w d s = create_named-Creating lower scale w d s
