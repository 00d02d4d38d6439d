-- ===== src/Projects/Lifecycle/Switching.antt =====
-- What a change of state sets off.
use mathlib.Core.Option
use lambs_server.Base.{
  ◌≡◌, refl, sym, ap, ◌∙◌, inl, inr, Bool, true, false, not, ◌||◌, String, Option, none, some, List,
  [], ◌∷◌, ◌++◌, append_assoc, append-nil, if◌then◌else◌, ◌==◌, eq_iff, string_eq, arith,
  Bool-cases,
}
use lambs_server.Store.{Project, query_row, scan_or}
use lambs_server.Access.{Member, Caller, check_project_access}
use lambs_server.Projects.Lifecycle.{
  Call, attach_services, start_proxy, start_process, stop_process, stop_proxy, deploy, notify_admin,
  sync_nginx, Site, project_by_id, update_project, call, detach, is_status, next_status,
  StatusWorld, StatusReply, failure, status, is_remote, switch, announce, set_status, set_message,
  keep_status, move_status, choose_status, patch_row, patch_project_status,
}
use lambs_server.Projects.Lifecycle.Rows.{project_by_id-update_project}

-- The calls for a project in a state that goes to another; `local` says that it runs on this machine.
unfoldable pub calls_for : (local : Bool) → String → (current next : String) → List Call
calls_for local id current next =
    if next == current
    then []
    else (if next == "online"
        then (if local
            then attach_services id ∷ start_proxy id ∷ start_process id ∷ []
            else deploy id ∷ [])
        else stop_process id ∷ stop_proxy id ∷ [])
      ++ notify_admin ∷ sync_nginx ∷ []

-- How a request to change the state may end.
abbrev pub Patched : StatusWorld → String → (asked : String) → Site → Site × StatusReply → Type 0
Patched w id asked s (s', failure c) = s' ≡ s
Patched w id asked s (s', status next) =
    (p : Project) × (project_by_id id s.projects ≡ some p)
    × (next ≡ next_status p.status asked)
    × (is_status next ≡ true)
    × (Option.map (λ q. q.status) (project_by_id id s'.projects) ≡ some next)
    × (s'.calls ≡ s.calls ++ calls_for (w.down_host || not (is_remote p.host)) id p.status next)

module _ (w : StatusWorld) (id asked : String) (s : Site) (p : Project)
    (found : project_by_id id s.projects ≡ some p) where
  moved_host :
      (next : String)
      → Option.map (λ q. q.host) (project_by_id id (update_project id (set_status next) s.projects))
        ≡ some p.host
  unfolding set_status
  moved_host next =
      rw (project_by_id-update_project id (set_status next) s.projects p (λ q. refl) found) refl

  moved_status :
      (next : String)
      → Option.map
          (λ q. q.status)
          (project_by_id id (update_project id (set_status next) s.projects))
        ≡ some next
  unfolding set_status
  moved_status next =
      rw (project_by_id-update_project id (set_status next) s.projects p (λ q. refl) found) refl

  kept_status :
      (msg : String)
      → Option.map
          (λ q. q.status)
          (project_by_id id (update_project id (set_message msg) s.projects))
        ≡ some p.status
  unfolding set_message
  kept_status msg =
      rw (project_by_id-update_project id (set_message msg) s.projects p (λ q. refl) found) refl

  no_calls :
      (local : Bool) (next : String)
      → (next == p.status) ≡ true
      → s.calls ≡ s.calls ++ calls_for local id p.status next
  unfolding calls_for
  no_calls local next same = rw (same) (sym (append-nil s.calls))

  keep_status-Patched :
      (next msg : String)
      → next ≡ next_status p.status asked
      → is_status next ≡ true
      → (next == p.status) ≡ true
      → Patched w id asked s (keep_status w id next msg s)
  unfolding keep_status
  keep_status-Patched next msg chosen valid same =
      let e : p.status ≡ next = sym ((eq_iff next p.status).0 same) in
      let quiet = no_calls (w.down_host || not (is_remote p.host)) next same in
      elim (Bool-cases (msg == "")) [
        | inl silent ↦
            rw silent
              (p, found, chosen, valid, ap (Option.map (λ q. q.status)) found ∙ ap some e, quiet)
        | inr said ↦ elim (Bool-cases w.down_message) [
          | inl failed ↦ simp (said, failed) refl
          | inr done ↦
              let written : Patched w id asked s (
                record s { projects = update_project id (set_message msg) s.projects },
                status next,
              ) =
                (p, found, chosen, valid, kept_status msg ∙ ap some e, quiet) in
              simp (said, done) written
        ]
      ]

  moved : String → Site
  moved next = record s { projects = update_project id (set_status next) s.projects }

  projects-announce-switch :
      (next : String)
      → (announce w id (switch w id next (moved next))).projects
        ≡ update_project id (set_status next) s.projects
  unfolding announce switch call detach moved
  projects-announce-switch next = ground arith

  local_read_host :
      (next : String)
      → is_remote (
          scan_or w.down_host "" (
            Option.map
              (λ q. q.host)
              (project_by_id id (update_project id (set_status next) s.projects))))
        ≡ not (w.down_host || not (is_remote p.host))
  unfolding scan_or is_remote
  local_read_host next = elim (Bool-cases w.down_host) [
    | inl failed ↦ rw failed refl
    | inr done ↦ rw (done, moved_host next) (ground arith)
  ]

  calls-move :
      (next : String)
      → (next == p.status) ≡ false
      → (announce w id (switch w id next (moved next))).calls
        ≡ s.calls ++ calls_for (w.down_host || not (is_remote p.host)) id p.status next
  unfolding announce switch call detach calls_for moved
  calls-move next other =
      let host = local_read_host next in
      elim (Bool-cases (next == "online")) [
        | inl online ↦ elim (Bool-cases (w.down_host || not (is_remote p.host))) [
          | inl here ↦
              simp (host, online, other, here)
                (append_assoc s.calls (attach_services id ∷ start_proxy id ∷ start_process id ∷ [])
                  (notify_admin ∷ sync_nginx ∷ []))
          | inr there ↦
              simp (host, online, other, there)
                (append_assoc s.calls (deploy id ∷ []) (notify_admin ∷ sync_nginx ∷ []))
        ]
        | inr stopped ↦
            simp (stopped, other)
              (append_assoc s.calls (stop_process id ∷ stop_proxy id ∷ [])
                (notify_admin ∷ sync_nginx ∷ []))
      ]

  move_status-Patched :
      (next : String)
      → next ≡ next_status p.status asked
      → is_status next ≡ true
      → (next == p.status) ≡ false
      → Patched w id asked s (move_status w id next s)
  move_status-Patched next chosen valid other = elim (Bool-cases w.down_update) [
    | inl failed ↦ unfold move_status in simp failed refl
    | inr done ↦
        let written : Patched w id asked s
            (announce w id (switch w id next (moved next)), status next) =
          (
            p,
            found,
            chosen,
            valid,
            rw (projects-announce-switch next) (moved_status next),
            calls-move next other,
          ) in
        unfold move_status moved in simp done written
  ]

  choose_status-Patched :
      (next msg : String)
      → next ≡ next_status p.status asked
      → Patched w id asked s (choose_status w id p.status next msg s)
  choose_status-Patched next msg chosen = elim (Bool-cases (is_status next)) [
    | inr bad ↦ unfold choose_status in simp bad refl
    | inl valid ↦ elim (Bool-cases (next == p.status)) [
      | inl same ↦
          unfold choose_status in
          simp (valid, same) (keep_status-Patched next msg chosen valid same)
      | inr other ↦
          unfold choose_status in simp (valid, other) (move_status-Patched next chosen valid other)
    ]
  ]

patch_row-Patched :
    (w : StatusWorld) (id asked msg : String) (s : Site) (o : Option Project)
    → ((p : Project) → o ≡ some p → project_by_id id s.projects ≡ some p)
    → Patched w id asked s (patch_row w id asked msg o s)
unfolding patch_row
patch_row-Patched w id asked msg s none found = refl
patch_row-Patched w id asked msg s (some p) found =
    choose_status-Patched w id asked s p (found p refl) (next_status p.status asked) msg refl

-- A request to change the state either fails and changes nothing, or answers a state that is one of
-- the three and, if none was asked for, the one after the current state; the row holds that state
-- then, and the calls are those for the change: to start the project on this machine if the host of
-- the row cannot be read or is this machine, to deploy it on another, to stop it, or none.
pub patch_project_status-Patched :
    (w : StatusWorld) (us : List Member) (r : Caller) (id asked msg : String) (s : Site)
    → Patched w id asked s (patch_project_status w us r id asked msg s)
unfolding query_row
patch_project_status-Patched w us r id asked msg s =
    let row =
      patch_row-Patched w id asked msg s (query_row w.down_current (project_by_id id s.projects))
        (λ p e. ground (arith, e)) in
    elim (Bool-cases (check_project_access w.down_check us r id)) [
      | inl allowed ↦ unfold patch_project_status in simp allowed row
      | inr refused ↦ unfold patch_project_status in simp refused refl
    ]
