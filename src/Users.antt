-- ===== src/Users.antt =====
-- internal/handlers/users.go: `ResetPassword`, by which an administrator sets another account's
-- password.
pub mod Reset
pub mod Edit
use mathlib.Core.Option
use mathlib.Core.List.{map}
use lambs_server.Base.{
  ℕ, ◌+◌, Bool, true, false, not, ◌&&◌, ◌||◌, String, Option, none, some, List, [], ◌∷◌, ◌++◌, ltb,
  if◌then◌else◌, ◌==◌, string_eq, text_eq,
}
use lambs_server.Base.Text.{Text, byte_len}
use lambs_server.Store.{exec, scan_or}
use lambs_server.Auth.Model.{Account, Tables, Crypto, user_by_id, update_user, insert_audit}
use lambs_server.Auth.Password.{wrap}
use lambs_server.Access.{Member, Caller, super_admin, project_admin, users_share_project}

-- Which statements fail, and the randomness of bcrypt. `down_share` is for the two reads of
-- usersShareProject.
pub record ResetWorld : Type 0 where
  pub down_role : Bool
  pub down_share : Bool
  pub down_salt : Bool
  pub down_update : Bool
  pub down_audit : Bool
  pub seed : ℕ

pub data ResetReply : Type 0 where
  failure : ℕ → ResetReply
  changed : ResetReply

-- The columns of `users` that usersShareProject reads.
unfoldable pub member_of : Account → Member
member_of u = record { id = u.id; role = u.role; project_access = u.project_access }

unfoldable pub role_of : String → List Account → Option String
role_of id us = Option.map (λ u. u.role) (user_by_id id us)

-- The gate behind the checks of the input.
unfoldable pub may_reset : ResetWorld → Caller → String → List Account → Bool
may_reset w r id us =
    if r.role == super_admin
    then true
    else if not (r.role == project_admin)
    then false
    else if scan_or w.down_role "" (role_of id us) == super_admin
    then false
    else users_share_project w.down_share (map member_of us) r.user_id id

unfoldable pub reset_salt : ResetWorld → String → List Account → Text
reset_salt w id us = scan_or w.down_salt [] (Option.map (λ u. u.pwd_salt) (user_by_id id us))

-- An error of bcrypt is ignored, and leaves the empty hash.
unfoldable pub empty_hash : Option String → String
empty_hash none = ""
empty_hash (some hash) = hash

unfoldable pub set_hash : String → String → Tables → Tables
set_hash id hash t = record t {
  users =
      update_user id (λ a. record a { password_hash = hash; token_version = a.token_version + 1 })
        t.users;
}

unfoldable pub store_reset :
    Crypto → ResetWorld → Caller → String → Text → Tables → Tables × ResetReply
unfolding empty_hash
store_reset c w r id new t = if w.down_update then (t, failure 500) else (
  exec w.down_audit (insert_audit r.user_id "重置密码")
      (set_hash id (empty_hash (c.generate w.seed (wrap c new (reset_salt w id t.users)))) t),
  changed,
)

-- The new password is the empty text where the body does not decode.
unfoldable pub reset_password :
    Crypto → ResetWorld → Caller → String → Text → Tables → Tables × ResetReply
reset_password c w r id new t =
    if new == []
    then (t, failure 400)
    else if ltb (byte_len new) 6
    then (t, failure 400)
    else if not (may_reset w r id t.users)
    then (t, failure 403)
    else store_reset c w r id new t
