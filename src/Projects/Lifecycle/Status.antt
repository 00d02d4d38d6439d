-- ===== src/Projects/Lifecycle/Status.antt =====
-- The three states of a project, and what a change of state sets off.

use lambs_server.Base.{
  ◌≡◌, refl, true, String, Option, none, some, List, [], ◌∷◌, All, update_where, if◌then◌else◌,
  string_eq, arith,
}
use lambs_server.Store.{Project, query_row}
use lambs_server.Access.{Member, Caller}
use lambs_server.Projects.Lifecycle.{
  Site, project_by_id, update_project, call, detach, is_status, next_status, StatusWorld, switch,
  announce, set_status, set_message, keep_status, move_status, choose_status, patch_row,
  patch_project_status,
}

-- Every project is online, offline or in maintenance.
abbrev pub HasStates : List Project → Type 0
HasStates ps = All (λ p. is_status p.status ≡ true) ps

HasStates-update :
    (id : String) (f : Project → Project) (ps : List Project)
    → ((p : Project) → is_status p.status ≡ true → is_status (f p).status ≡ true)
    → HasStates ps
    → HasStates (update_project id f ps)
unfolding update_project update_where
HasStates-update id f [] keeps h = tt
HasStates-update id f (p ∷ ps) keeps h =
    (ground (arith, keeps p, h.0), HasStates-update id f ps keeps h.1)

projects-switch :
    (w : StatusWorld) (id next : String) (s : Site) → (switch w id next s).projects ≡ s.projects
unfolding switch call detach
projects-switch w id next s = ground arith

projects-announce :
    (w : StatusWorld) (id : String) (s : Site) → (announce w id s).projects ≡ s.projects
unfolding announce call
projects-announce w id s = refl

module _ (w : StatusWorld) (id : String) (s : Site) where
  projects-move_status :
      (next : String)
      → (move_status w id next s).0.projects
        ≡ (if w.down_update then s.projects else update_project id (set_status next) s.projects)
  unfolding move_status
  projects-move_status next =
      let moved : Site = record s { projects = update_project id (set_status next) s.projects } in
      ground
        (arith, projects-announce w id (switch w id next moved), projects-switch w id next moved)

  keep_status-HasStates :
      (next msg : String)
      → HasStates s.projects
      → HasStates (keep_status w id next msg s).0.projects
  unfolding keep_status set_message
  keep_status-HasStates next msg h =
      ground (arith, h, HasStates-update id (set_message msg) s.projects (λ p e. e) h)

  move_status-HasStates :
      (next : String)
      → is_status next ≡ true
      → HasStates s.projects
      → HasStates (move_status w id next s).0.projects
  unfolding set_status
  move_status-HasStates next valid h =
      rw (projects-move_status next)
        (ground (arith, h, HasStates-update id (set_status next) s.projects (λ p e. valid) h))

  choose_status-HasStates :
      (current next msg : String)
      → HasStates s.projects
      → HasStates (choose_status w id current next msg s).0.projects
  unfolding choose_status
  choose_status-HasStates current next msg h =
      ground (arith, h, keep_status-HasStates next msg h, move_status-HasStates next)

  patch_row-HasStates :
      (asked msg : String) (o : Option Project)
      → HasStates s.projects
      → HasStates (patch_row w id asked msg o s).0.projects
  unfolding patch_row
  patch_row-HasStates asked msg none h = h
  patch_row-HasStates asked msg (some p) h =
      choose_status-HasStates p.status (next_status p.status asked) msg h

-- Whatever status is asked for and whatever fails, every project stays in one of the three states.
pub patch_project_status-HasStates :
    (w : StatusWorld) (us : List Member) (r : Caller) (id asked msg : String) (s : Site)
    → HasStates s.projects
    → HasStates (patch_project_status w us r id asked msg s).0.projects
unfolding patch_project_status
patch_project_status-HasStates w us r id asked msg s h = ground (
  arith,
  h,
  patch_row-HasStates w id s asked msg (query_row w.down_current (project_by_id id s.projects)) h,
)
