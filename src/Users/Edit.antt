-- ===== src/Users/Edit.antt =====
-- internal/handlers/users.go: `UpdateUser` and `DeleteUser`, behind RequireSuperAdmin.
pub mod Grants
pub mod Disabled
use mathlib.Core.Option
use lambs_server.Base.{
  ℕ, ◌+◌, Bool, true, false, not, ◌&&◌, ◌||◌, String, Option, none, some, List, [], ◌∷◌, any,
  filter, if◌then◌else◌, ◌==◌, string_eq, text_eq, Result, ok, err,
}
use lambs_server.Base.Text.{Text}
use lambs_server.Store.{exec, query_row, scan_or}
use lambs_server.Auth.Model.{Account, Tables, Crypto, active, user_by_id, update_user, insert_audit}
use lambs_server.Auth.Password.{wrap, verify_password}
use lambs_server.Access.{Caller, super_admin, project_admin}
use lambs_server.Users.{empty_hash, set_hash}

-- The body of the request: a missing text is the empty one. `project_access` is the list that the
-- JSON text holds, [] for the empty text, and none where PostgreSQL refuses the text.
pub record UserPatch : Type 0 where
  pub username : String
  pub email : String
  pub role : String
  pub status : String
  pub project_access : Option (List String)
  pub password : Text
  pub old_password : Text

-- Which statements fail, and the randomness of bcrypt.
pub record EditWorld : Type 0 where
  pub down_admin : Bool
  pub down_salt : Bool
  pub down_password : Bool
  pub down_password_audit : Bool
  pub down_update : Bool
  pub down_audit : Bool
  pub seed : ℕ

pub data EditReply : Type 0 where
  failure : ℕ → EditReply
  updated : EditReply

unfoldable pub is_role : String → Bool
is_role role = role == super_admin || (role == project_admin || role == "viewer")

unfoldable pub is_account_status : String → Bool
is_account_status status = status == active || status == "disabled"

-- The new password, once the caller's own password is checked.
edit_hash :
    Crypto → EditWorld → Caller → String → UserPatch → Option Account → Tables → Result ℕ Tables
edit_hash c w r id m none t = err 400
edit_hash c w r id m (some admin) t =
    if not (verify_password c admin.password_hash m.old_password admin.pwd_salt).0
    then err 400
    else ok (
        exec w.down_password_audit (insert_audit r.user_id "修改用户") (
          exec w.down_password
            (set_hash id (
              empty_hash (
                c.generate w.seed (
                  wrap c m.password (
                    scan_or w.down_salt []
                      (Option.map (λ u. u.pwd_salt) (user_by_id id t.users)))))))
            t))

unfoldable pub edit_password :
    Crypto → EditWorld → Caller → String → UserPatch → Tables → Result ℕ Tables
unfolding edit_hash query_row
edit_password c w r id m t =
    if m.password == []
    then ok t
    else edit_hash c w r id m (query_row w.down_admin (user_by_id r.user_id t.users)) t

-- `username` is unique.
unfoldable pub is_name_taken : String → String → List Account → Bool
is_name_taken id name us =
    any (λ a. a.id == id) us && any (λ a. a.username == name && not (a.id == id)) us

unfoldable pub with_grants : UserPatch → (access : List String) → Account → Account
with_grants m access a = record a {
  username = m.username;
  email = m.email;
  role = m.role;
  status = m.status;
  project_access = access;
}

edit_columns :
    EditWorld
    → Caller
    → String
    → UserPatch
    → (access : Option (List String)) → Tables
    → Tables × EditReply
unfolding with_grants is_name_taken
edit_columns w r id m none t = (t, failure 400)
edit_columns w r id m (some access) t =
    if w.down_update || is_name_taken id m.username t.users then (t, failure 400) else (
      exec w.down_audit (insert_audit r.user_id "修改用户")
          (record t { users = update_user id (with_grants m access) t.users }),
      updated,
    )

edit_rest :
    EditWorld
    → Caller
    → String
    → UserPatch
    → (before : Tables) → Result ℕ Tables
    → Tables × EditReply
unfolding edit_columns
edit_rest w r id m t (err code) = (t, failure code)
edit_rest w r id m t (ok t') = edit_columns w r id m m.project_access t'

unfoldable pub update_user_row :
    Crypto → EditWorld → Caller → String → UserPatch → Tables → Tables × EditReply
unfolding edit_rest edit_password is_role is_account_status
update_user_row c w r id m t =
    if m.username == ""
    then (t, failure 400)
    else if not (is_role m.role)
    then (t, failure 400)
    else if not (is_account_status m.status)
    then (t, failure 400)
    else edit_rest w r id m t (edit_password c w r id m t)

unfoldable pub delete_user :
    (down_read down_delete down_audit : Bool) → Caller → String → Tables → Tables × EditReply
delete_user down_read down_delete down_audit r id t =
    if down_read || not (any (λ a. a.id == id) t.users)
    then (t, failure 404)
    else if down_delete
    then (t, failure 500)
    else (
      exec down_audit (insert_audit r.user_id "删除用户")
          (record t { users = filter (λ a. not (a.id == id)) t.users }),
      updated,
    )
