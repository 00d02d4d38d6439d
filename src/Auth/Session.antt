-- ===== src/Auth/Session.antt =====
-- `RequireAuth` and `RequireSuperAdmin` of internal/auth/auth.go, with the database connected.
pub mod Guard
pub mod Stale
use lambs_server.Base.{
  ℕ, Bool, true, false, not, ◌&&◌, ◌||◌, String, Option, none, some, List, Result, ok, err, ◌>>=◌,
  if◌then◌else◌, ◌==◌, string_eq, nat_eq, text_eq,
}
use lambs_server.Base.Text.{Text, codes, has_prefix, trim_prefix}
use lambs_server.Store.{query_row}
use lambs_server.Auth.Model.{Account, Tables, Claims, Jwt, active, user_by_id}

-- What the middleware writes into the headers for the handler behind it.
pub record Identity : Type 0 where
  pub user_id : String
  pub username : String
  pub role : String

abbrev pub bearer : Text
bearer = codes "Bearer "

-- The tests on the row: the account is active, and the version of the token is the row's.
check_row : Claims → Option Account → Result ℕ Identity
check_row claims none = err 401
check_row claims (some row) = if not (row.status == active) then err 401 else elim claims.tv [
  | none ↦ err 401
  | some v ↦
      if not (v == row.token_version)
      then err 401
      else ok (record { user_id = claims.user_id; username = claims.username; role = row.role })
]

unfoldable pub check_token : (down : Bool) → List Account → Option Claims → Result ℕ Identity
unfolding check_row query_row
check_token down us none = err 401
check_token down us (some claims) = check_row claims (query_row down (user_by_id claims.user_id us))

-- `header` is the Authorization header, empty if there is none. An error is the status of the reply,
-- and `ok` is the call of the handler behind the middleware.
unfoldable pub require_auth : Jwt → (down : Bool) → List Account → Text → Result ℕ Identity
require_auth jwt down us header =
    if header == codes "" || not (has_prefix header bearer)
    then err 401
    else check_token down us (jwt.parse (trim_prefix header bearer))

super_only : Identity → Result ℕ Identity
super_only who = if not (who.role == "super_admin") then err 403 else ok who

unfoldable pub require_super_admin : Jwt → (down : Bool) → List Account → Text → Result ℕ Identity
unfolding super_only
require_super_admin jwt down us header = do who ← require_auth jwt down us header; super_only who
