-- ===== src/Projects/Lifecycle.antt =====
-- PatchProjectStatus, DeleteProject, PinProject and ReorderProjects of
-- internal/handlers/projects.go, with the shared services of internal/runtime/procmgr.go that they
-- detach. What is started with `go` is a call in a list.
pub mod Rows
pub mod Status
pub mod Switching
pub mod Deletion
use mathlib.Core.Option
use mathlib.Core.List.{map}
use lambs_server.Base.{
  ℕ, ◌+◌, Bool, true, false, not, ◌&&◌, ◌||◌, String, Option, none, some, List, [], ◌∷◌, ◌++◌, any,
  find, filter, update_where, if◌then◌else◌, ◌==◌, string_eq,
}
use lambs_server.Store.{Project, Service, exec, query_row, scan_or}
use lambs_server.Access.{Member, Caller, Notice, check_project_access}
use lambs_server.Runtime.Ports.{free}
use lambs_server.Runtime.Services.{Services, Declared, detach_services}

-- What the handlers ask of the rest of the server, in order.
pub data Call : Type 0 where
  attach_services start_proxy start_process stop_process stop_proxy deploy create_database
        write_audit :
      String → Call
  notify_admin sync_nginx : Call

-- `projects`, `notifications` with the newest row first, the shared services, and the calls.
pub record Site : Type 0 where
  pub projects : List Project
  pub notices : List Notice
  pub services : Services
  pub calls : List Call

unfoldable pub project_by_id : String → List Project → Option Project
project_by_id id ps = find (λ p. p.id == id) ps

unfoldable pub update_project : String → (Project → Project) → List Project → List Project
update_project id f ps = update_where (λ p. p.id == id) f ps

declare : Service → Declared
declare s = record { name = s.name; start_cmd = s.start_cmd; stop_cmd = s.stop_cmd }

-- `readServices`
unfoldable pub read_services : (down : Bool) → String → List Project → List Declared
unfolding scan_or declare
read_services down id ps =
    scan_or down [] (Option.map (λ p. map declare p.services) (project_by_id id ps))

unfoldable pub call : List Call → Site → Site
call cs s = record s { calls = s.calls ++ cs }

-- `DetachServices`
unfoldable pub detach : (down : Bool) → String → Site → Site
detach down id s = record s {
  services = (detach_services id (read_services down id s.projects) s.services).0;
}

unfoldable pub is_status : String → Bool
is_status x = x == "online" || (x == "offline" || x == "maintenance")

-- The next state, or the one that is asked for.
unfoldable pub next_status : (current asked : String) → String
next_status current asked =
    if asked == ""
    then (if current == "offline"
        then "maintenance"
        else if current == "maintenance"
        then "online"
        else "offline")
    else asked

-- Which statements fail, and the id of the notification.
pub record StatusWorld : Type 0 where
  pub down_check : Bool
  pub down_current : Bool
  pub down_message : Bool
  pub down_update : Bool
  pub down_host : Bool
  pub down_services : Bool
  pub down_notice : Bool
  pub nid : String

pub data StatusReply : Type 0 where
  failure : ℕ → StatusReply
  status : String → StatusReply

unfoldable pub is_remote : String → Bool
is_remote host = not (host == "") && not (host == "lambs")

-- What follows a new status: what is started, or what is stopped.
unfoldable pub switch : StatusWorld → String → String → Site → Site
unfolding call detach is_remote scan_or
switch w id next s =
    if next == "online"
    then (if is_remote
          (scan_or w.down_host "" (Option.map (λ p. p.host) (project_by_id id s.projects)))
        then call (deploy id ∷ []) s
        else call (attach_services id ∷ start_proxy id ∷ start_process id ∷ []) s)
    else detach w.down_services id (call (stop_process id ∷ stop_proxy id ∷ []) s)

unfoldable pub announce : StatusWorld → String → Site → Site
unfolding call exec
announce w id s = call (notify_admin ∷ sync_nginx ∷ []) (record s {
  notices =
      exec w.down_notice
        (λ ns. record { id = w.nid; project_id = id; kind = "status"; is_read = false } ∷ ns)
        s.notices;
})

set_status : String → Project → Project
set_status next p = record p { status = next }

set_message : String → Project → Project
set_message msg p = record p { offline_msg = msg }

-- The status stays: only a message is written.
keep_status : StatusWorld → String → (next msg : String) → Site → Site × StatusReply
keep_status w id next msg s =
    if msg == ""
    then (s, status next)
    else if w.down_message
    then (s, failure 500)
    else (record s { projects = update_project id (set_message msg) s.projects }, status next)

move_status : StatusWorld → String → (next : String) → Site → Site × StatusReply
move_status w id next s = if w.down_update then (s, failure 500) else (
  announce w id
      (switch w id next (record s { projects = update_project id (set_status next) s.projects })),
  status next,
)

choose_status : StatusWorld → String → (current next msg : String) → Site → Site × StatusReply
choose_status w id current next msg s =
    if not (is_status next)
    then (s, failure 400)
    else if next == current
    then keep_status w id next msg s
    else move_status w id next s

patch_row : StatusWorld → String → (asked msg : String) → Option Project → Site → Site × StatusReply
patch_row w id asked msg none s = (s, failure 404)
patch_row w id asked msg (some p) s = choose_status w id p.status (next_status p.status asked) msg s

-- `asked` and `msg` are empty where the body does not decode.
unfoldable pub patch_project_status :
    StatusWorld → List Member → Caller → String → (asked msg : String) → Site → Site × StatusReply
unfolding patch_row choose_status keep_status move_status set_status set_message query_row
patch_project_status w us r id asked msg s =
    if not (check_project_access w.down_check us r id)
    then (s, failure 403)
    else patch_row w id asked msg (query_row w.down_current (project_by_id id s.projects)) s

pub record DeleteWorld : Type 0 where
  pub down_check : Bool
  pub down_services : Bool
  pub down_free : Bool
  pub down_delete : Bool

pub data DeleteReply : Type 0 where
  failure : ℕ → DeleteReply
  deleted : DeleteReply

-- What happens before the row is deleted.
unfoldable pub retire_project : DeleteWorld → String → Site → Site
unfolding call detach
retire_project w id s =
    let stopped = detach w.down_services id (call (stop_process id ∷ stop_proxy id ∷ []) s) in
    record stopped { projects = free w.down_free id stopped.projects }

delete_row : DeleteWorld → String → Site → Site × DeleteReply
delete_row w id s =
    if w.down_delete
    then (s, failure 500)
    else if not (any (λ p. p.id == id) s.projects)
    then (s, failure 404)
    else (
      call (write_audit id ∷ sync_nginx ∷ [])
          (record s { projects = filter (λ p. not (p.id == id)) s.projects }),
      deleted,
    )

unfoldable pub delete_project :
    DeleteWorld → List Member → Caller → String → Site → Site × DeleteReply
unfolding delete_row call
delete_project w us r id s =
    if not (check_project_access w.down_check us r id)
    then (s, failure 403)
    else delete_row w id (retire_project w id s)

-- The reply is the new value, or none for 403.
unfoldable pub pin_project :
    (down_check down_read down_write : Bool)
    → List Member
    → Caller
    → String
    → List Project
    → List Project × Option Bool
unfolding exec scan_or
pin_project down_check down_read down_write us r id ps =
    if not (check_project_access down_check us r id)
    then (ps, none)
    else (let pinned =
          scan_or down_read false (Option.map (λ p. p.is_pinned) (project_by_id id ps)) in
        (
          exec down_write (update_project id (λ p. record p { is_pinned = not pinned })) ps,
          some (not pinned),
        ))

-- The first format of ReorderProjects, from a position on; `down` says which UPDATE fails.
unfoldable pub reorder_projects : (ℕ → Bool) → ℕ → List String → List Project → List Project
unfolding exec
reorder_projects down i [] ps = ps
reorder_projects down i (id ∷ ids) ps =
    reorder_projects down (i + 1) ids
      (exec (down i) (update_project id (λ p. record p { sort_order = i + 1 })) ps)

-- The second format: pairs of an id and a position.
unfoldable pub reorder_pairs :
    (ℕ → Bool) → (i : ℕ) → List (String × ℕ) → List Project → List Project
unfolding exec
reorder_pairs down i [] ps = ps
reorder_pairs down i ((id, order) ∷ rest) ps =
    reorder_pairs down (i + 1) rest
      (exec (down i) (update_project id (λ p. record p { sort_order = order })) ps)
