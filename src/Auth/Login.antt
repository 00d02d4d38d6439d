-- ===== src/Auth/Login.antt =====
-- `HandleLogin` of internal/auth/auth.go. `fresh` is what NewSaltHex returns (empty where the random
-- source fails), `seed` the randomness of bcrypt, `now` the time.
pub mod Upgrade
use lambs_server.Base.{
  ℕ, Bool, true, false, not, ◌&&◌, ◌||◌, String, Option, none, some, List, [], ◌∷◌, ◌++◌,
  if◌then◌else◌, ◌==◌, string_eq, text_eq,
}
use lambs_server.Base.Text.{Text}
use lambs_server.Store.{exec, query_row}
use lambs_server.Auth.Model.{
  Account, Tables, Crypto, Claims, Jwt, active, user_by_name, update_user, insert_audit,
}
use lambs_server.Auth.Password.{verify_password}

pub record LoginRequest : Type 0 where
  pub username : String
  pub password : Text

-- An error reply with its status, or a token for the account.
pub data LoginReply : Type 0 where
  failure : ℕ → LoginReply
  success : Text → Account → LoginReply

-- The statements, each of which may fail.
pub record LoginFaults : Type 0 where
  pub select : Bool
  pub upgrade : Bool
  pub touch : Bool
  pub audit : Bool

-- `UPDATE users SET pwd_salt=$1, password_hash=$2 WHERE id=$3` for an account without a salt.
upgrade_row : Text → Option String → Account → Tables → Bool → Tables
upgrade_row fresh none u t down = t
upgrade_row fresh (some hash) u t down =
    exec down
      (λ t. record t {
        users = update_user u.id (λ a. record a { pwd_salt = fresh; password_hash = hash }) t.users;
      })
      t

unfoldable pub upgrade_legacy :
    Crypto → (seed : ℕ) → (fresh password : Text) → Bool → Account → Bool → Tables → Tables
unfolding upgrade_row exec
upgrade_legacy c seed fresh password legacy u down t =
    if legacy && (u.pwd_salt == [] && not (fresh == []))
    then upgrade_row fresh (c.generate seed (c.sha256_hex (password ++ fresh))) u t down
    else t

unfoldable pub claims_of : Account → Claims
claims_of u = record {
  user_id = u.id;
  username = u.username;
  role = u.role;
  tv = some u.token_version;
}

issue : Option Text → Account → LoginReply
issue none u = failure 500
issue (some token) u = success token u

module _ (c : Crypto) (jwt : Jwt) (seed now : ℕ) (fresh : Text) (down : LoginFaults) where
  -- What follows the checks: the upgrade, the time of the login, the audit row and the token.
  unfoldable pub admit_login : Text → Bool → Account → Tables → Tables × LoginReply
  unfolding issue
  admit_login password legacy u t =
      let t1 = upgrade_legacy c seed fresh password legacy u down.upgrade t in
      let t2 =
        exec down.touch
          (λ t. record t { users = update_user u.id (λ a. record a { last_login = now }) t.users })
          t1 in
      let t3 = exec down.audit (insert_audit u.id "登录") t2 in (t3, issue (jwt.sign (claims_of u)) u)

  check_login : Option Account → Text → Tables → Tables × LoginReply
  check_login none password t = (t, failure 401)
  check_login (some u) password t =
      if not (u.status == active)
      then (t, failure 403)
      else (let (matched, legacy) = verify_password c u.password_hash password u.pwd_salt in
          if not matched then (t, failure 401) else admit_login password legacy u t)

  -- `none` is a body that does not decode.
  unfoldable pub handle_login : Option LoginRequest → Tables → Tables × LoginReply
  unfolding check_login
  handle_login none t = (t, failure 400)
  handle_login (some req) t =
      check_login (query_row down.select (user_by_name req.username t.users)) req.password t
