-- ===== src/Access.antt =====
-- Who may see and change what: CheckProjectView, CheckProjectAccess, AddMember and RemoveMember of
-- internal/handlers/projects.go, usersShareProject of internal/handlers/users.go and
-- canTouchNotification of internal/handlers/notifications.go. The column `project_access` is the
-- list that its JSON text holds; a column that holds no such list is the empty list, as
-- `json.Unmarshal` leaves it.
pub mod Members
use mathlib.Core.Option
use lambs_server.Base.{
  ℕ, Bool, true, false, not, ◌&&◌, ◌||◌, String, Option, none, some, List, [], ◌∷◌, ◌++◌, any,
  filter, find, contains, update_where, if◌then◌else◌, ◌==◌, string_eq,
}
use lambs_server.Store.{exec, query_row, scan_or}

-- The columns of `users` that the checks read.
pub record Member : Type 0 where
  pub id : String
  pub role : String
  pub project_access : List String

-- The headers that RequireAuth sets on a request.
pub record Caller : Type 0 where
  pub user_id : String
  pub role : String

abbrev pub super_admin : String
super_admin = "super_admin"

abbrev pub project_admin : String
project_admin = "project_admin"

-- `SELECT COALESCE(project_access::text,'[]') FROM users WHERE id=$1`
unfoldable pub access_of : String → List Member → Option (List String)
access_of id us = Option.map (λ u. u.project_access) (find (λ u. u.id == id) us)

unfoldable pub check_project_view : (down : Bool) → List Member → Caller → String → Bool
unfolding scan_or
check_project_view down us r project =
    if r.role == super_admin
    then true
    else contains (scan_or down [] (access_of r.user_id us)) project

unfoldable pub check_project_access : (down : Bool) → List Member → Caller → String → Bool
unfolding scan_or
check_project_access down us r project =
    if r.role == super_admin
    then true
    else if not (r.role == project_admin)
    then false
    else contains (scan_or down [] (access_of r.user_id us)) project

-- `read` of usersShareProject, and its two loops over the set `seen`.
unfoldable pub users_share_project : (down : Bool) → List Member → String → String → Bool
unfolding scan_or
users_share_project down us a b =
    any (contains (scan_or down [] (access_of a us))) (scan_or down [] (access_of b us))

-- A row of `notifications`: the project, or "" for a global row.
pub record Notice : Type 0 where
  pub id : String
  pub project_id : String
  pub kind : String
  pub is_read : Bool

unfoldable pub notice_project : String → List Notice → Option String
notice_project nid ns = Option.map (λ n. n.project_id) (find (λ n. n.id == nid) ns)

-- The last query of canTouchNotification: an element 'all' or the project itself.
grants : Option (List String) → String → Bool
grants none project = false
grants (some ids) project = contains ids "all" || contains ids project

-- `down_row` and `down_access` say that the first and the second query fail.
unfoldable pub can_touch_notification :
    (down_row down_access : Bool) → List Member → List Notice → Caller → String → Bool
unfolding query_row grants
can_touch_notification down_row down_access us ns r nid =
    if r.role == super_admin then true else elim (query_row down_row (notice_project nid ns)) [
      | none ↦ false
      | some project ↦
          if project == ""
          then true
          else grants (query_row down_access (access_of r.user_id us)) project
    ]

-- The replies of the two handlers.
pub data Reply : Type 0 where
  forbidden done : Reply

set_access : String → List String → List Member → List Member
set_access id ids us = update_where (λ u. u.id == id) (λ u. record u { project_access = ids }) us

-- `AddMember`: the body names the user. `down_check`, `down_read` and `down_write` say which
-- statements fail.
unfoldable pub add_member :
    (down_check down_read down_write : Bool)
    → Caller
    → (project user : String) → List Member
    → List Member × Reply
unfolding exec scan_or set_access
add_member down_check down_read down_write r project user us =
    if not (check_project_access down_check us r project)
    then (us, forbidden)
    else (let ids = scan_or down_read [] (access_of user us) in
        if contains ids project
        then (us, done)
        else (exec down_write (set_access user (ids ++ project ∷ [])) us, done))

unfoldable pub remove_member :
    (down_check down_read down_write : Bool)
    → Caller
    → (project user : String) → List Member
    → List Member × Reply
unfolding exec scan_or set_access
remove_member down_check down_read down_write r project user us =
    if not (check_project_access down_check us r project)
    then (us, forbidden)
    else (let ids = scan_or down_read [] (access_of user us) in
        (exec down_write (set_access user (filter (λ p. not (p == project)) ids)) us, done))
