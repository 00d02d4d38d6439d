-- ===== src/Projects/Lifecycle/Deletion.antt =====
-- What DeleteProject of internal/handlers/projects.go leaves, whether or not it succeeds.
use mathlib.Core.Option
use mathlib.Core.List.{map}
use lambs_server.Base.{
  ◌≡◌, refl, ap, ◌∙◌, ◌⊎◌, inl, inr, Bool, true, false, not, ◌&&◌, String, Option, none, some, List,
  [], ◌∷◌, ◌++◌, any, find, filter, find-update_where, append_assoc, if◌then◌else◌, ◌==◌, eq_iff,
  string_eq, arith, Bool-cases, Option-cases,
}
use lambs_server.Store.{Project, Service, exec, scan_or}
use lambs_server.Access.{Member, Caller, check_project_access}
use lambs_server.Runtime.Ports.{free, set_port}
use lambs_server.Runtime.Services.Counts.{holds, detaches, holds-detach_services}
use lambs_server.Projects.Lifecycle.{
  Call, write_audit, stop_process, stop_proxy, sync_nginx, Site, project_by_id, update_project,
  declare, read_services, call, detach, DeleteWorld, DeleteReply, failure, deleted, retire_project,
  delete_row, delete_project,
}
use lambs_server.Projects.Lifecycle.Rows.{project_by_id-update_project_others}

-- Whether the row declares the service.
abbrev pub declares : String → Option Project → Bool
declares name none = false
declares name (some p) = any (λ x. not (x.name == "") && x.name == name) p.services

detaches-declare :
    (name : String) (xs : List Service)
    → detaches name (map declare xs) ≡ any (λ x. not (x.name == "") && x.name == name) xs
unfolding detaches any declare
detaches-declare name [] = refl
detaches-declare name (x ∷ xs) = ground (arith, detaches-declare name xs)

detaches-read_services :
    (down : Bool) (name id : String) (ps : List Project)
    → detaches name (read_services down id ps) ≡ (not down && declares name (project_by_id id ps))
unfolding read_services scan_or
detaches-read_services true name id ps = unfold detaches any in refl
detaches-read_services false name id ps = elim (Option-cases (project_by_id id ps)) [
  | inl none' ↦ rw none' (unfold detaches any in refl)
  | inr (p, found) ↦ rw found (detaches-declare name p.services)
]

-- What is done before the DELETE, and the calls after it.
pub record Retired (w : DeleteWorld) (id : String) (s s' : Site) (after : List Call) : Type 0 where
  calls : s'.calls ≡ s.calls ++ stop_process id ∷ stop_proxy id ∷ after
  notices : s'.notices ≡ s.notices
  held :
      (q name : String)
      → holds q name s'.services ≡ (
          holds q name s.services
          && not (not w.down_services && declares name (project_by_id id s.projects) && id == q))

-- The row of `q` after the project `id` has given its port back.
unfoldable pub row_without_port : (down : Bool) → (id q : String) → List Project → Option Project
row_without_port down id q ps =
    Option.map (λ p. if not down && p.id == id then record p { port = [] } else p)
      (project_by_id q ps)

-- How a request to delete a project may end.
abbrev pub Deleting : DeleteWorld → String → Site → Site × DeleteReply → Type 0
Deleting w id s (s', failure c) =
    (c ≡ 403) × (s' ≡ s)
    ⊎ Retired w id s s' []
      × ((q : String) → project_by_id q s'.projects ≡ row_without_port w.down_free id q s.projects)
Deleting w id s (s', deleted) =
    Retired w id s s' (write_audit id ∷ sync_nginx ∷ [])
    × ((q : String)
        → project_by_id q s'.projects ≡ (if q == id then none else project_by_id q s.projects))

map_id : (o : Option Project) → o ≡ Option.map (λ p. p) o
map_id none = refl
map_id (some p) = refl

project_by_id-free :
    (down : Bool) (id q : String) (ps : List Project)
    → project_by_id q (free down id ps) ≡ row_without_port down id q ps
unfolding free exec set_port project_by_id row_without_port
project_by_id-free true id q ps = map_id (find (λ p. p.id == q) ps)
project_by_id-free false id q ps =
    find-update_where (λ p. p.id == q) (λ p. p.id == id) (λ p. record p { port = [] }) ps
      (λ p. refl)

project_by_id-free_others :
    (down : Bool) (id q : String) (ps : List Project)
    → (q == id) ≡ false
    → project_by_id q (free down id ps) ≡ project_by_id q ps
unfolding free exec set_port update_project
project_by_id-free_others true id q ps other = refl
project_by_id-free_others false id q ps other =
    project_by_id-update_project_others id q (λ p. record p { port = [] }) ps (λ p. refl) other

project_by_id-removed :
    (id : String) (ps : List Project) → project_by_id id (filter (λ p. not (p.id == id)) ps) ≡ none
unfolding project_by_id find filter
project_by_id-removed id [] = refl
project_by_id-removed id (p ∷ ps) = ground (arith, project_by_id-removed id ps)

project_by_id-others :
    (id q : String) (ps : List Project)
    → (q == id) ≡ false
    → project_by_id q (filter (λ p. not (p.id == id)) ps) ≡ project_by_id q ps
unfolding project_by_id find filter
project_by_id-others id q [] other = refl
project_by_id-others id q (p ∷ ps) other =
    ground (arith, project_by_id-others id q ps other, eq_iff p.id id, eq_iff p.id q, eq_iff q id)

module _ (w : DeleteWorld) (id : String) (s : Site) where
  retired : Retired w id s (retire_project w id s) []
  unfolding retire_project call detach
  retired = record {
    calls = refl;
    notices = refl;
    held = λ q name.
        holds-detach_services id q name (read_services w.down_services id s.projects) s.services
        ∙ ap (λ b. holds q name s.services && not (b && id == q))
            (detaches-read_services w.down_services name id s.projects);
  }

  left : List Project
  left = free w.down_free id s.projects

  projects-retire_project : (retire_project w id s).projects ≡ left
  unfolding retire_project call detach left
  projects-retire_project = refl

  removed : Site
  unfolding call
  removed = call (write_audit id ∷ sync_nginx ∷ []) (record (retire_project w id s) {
    projects = filter (λ p. not (p.id == id)) (retire_project w id s).projects;
  })

  removed-Retired : Retired w id s removed (write_audit id ∷ sync_nginx ∷ [])
  unfolding removed call
  removed-Retired = record {
    calls =
        ap (λ cs. cs ++ write_audit id ∷ sync_nginx ∷ []) retired.calls
        ∙ append_assoc s.calls (stop_process id ∷ stop_proxy id ∷ [])
            (write_audit id ∷ sync_nginx ∷ []);
    notices = retired.notices;
    held = retired.held;
  }

  kept_row :
      (q : String)
      → project_by_id q (retire_project w id s).projects
        ≡ row_without_port w.down_free id q s.projects
  unfolding left
  kept_row q = rw projects-retire_project (project_by_id-free w.down_free id q s.projects)

  other_row :
      (q : String)
      → (q == id) ≡ false
      → project_by_id q removed.projects ≡ project_by_id q s.projects
  unfolding removed call left
  other_row q other =
      project_by_id-others id q (retire_project w id s).projects other
      ∙ ap (project_by_id q) projects-retire_project
      ∙ project_by_id-free_others w.down_free id q s.projects other

  no_row : project_by_id id removed.projects ≡ none
  unfolding removed call
  no_row = project_by_id-removed id (retire_project w id s).projects

  rows-removed :
      (q : String)
      → project_by_id q removed.projects ≡ (if q == id then none else project_by_id q s.projects)
  rows-removed q = elim (Bool-cases (q == id)) [
    | inl mine ↦
        simp mine (ap (λ x. project_by_id x removed.projects) ((eq_iff q id).0 mine) ∙ no_row)
    | inr other ↦ simp other (other_row q other)
  ]

  delete_row-Deleting : Deleting w id s (delete_row w id (retire_project w id s))
  delete_row-Deleting = elim (Bool-cases w.down_delete) [
    | inl failed ↦ unfold delete_row in simp failed (inr (retired, kept_row))
    | inr done ↦ elim (Bool-cases (any (λ p. p.id == id) (retire_project w id s).projects)) [
      | inr missing ↦ unfold delete_row in simp (done, missing) (inr (retired, kept_row))
      | inl present ↦
          let gone : Deleting w id s (removed, deleted) = (removed-Retired, rows-removed) in
          unfold delete_row removed in simp (done, present) gone
    ]
  ]

-- A request to delete a project is refused with 403 and changes nothing, or the process and the
-- proxy of the project are stopped and, if the query of its services works, it holds none of those
-- that its row declares; every other project, and the project itself if that query fails, holds what
-- it held. If the deletion succeeds the row is gone, every other row is as before, the audit log is
-- written and nginx is told. If it fails after that, for a failed statement or a missing row, the rows
-- stay, only without the port of the project if that statement succeeded, and nothing is started
-- again.
pub delete_project-Deleting :
    (w : DeleteWorld) (us : List Member) (r : Caller) (id : String) (s : Site)
    → Deleting w id s (delete_project w us r id s)
delete_project-Deleting w us r id s =
    elim (Bool-cases (check_project_access w.down_check us r id)) [
      | inr refused ↦ unfold delete_project in simp refused (inl (refl, refl))
      | inl allowed ↦ unfold delete_project in simp allowed (delete_row-Deleting w id s)
    ]
