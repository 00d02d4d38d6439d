-- ===== src/Auth/Change.antt =====
-- `HandleMePassword` of internal/auth/auth.go: a user changes the own password.
pub mod Revocation
use lambs_server.Base.{
  ℕ, ◌+◌, Bool, true, false, not, ◌&&◌, ◌||◌, String, Option, none, some, List, [], ◌∷◌, ◌++◌, ltb,
  if◌then◌else◌, ◌==◌, string_eq, text_eq,
}
use lambs_server.Base.Text.{Text, byte_len}
use lambs_server.Store.{exec, query_row}
use lambs_server.Auth.Model.{Account, Tables, Crypto, user_by_id, update_user, insert_audit}
use lambs_server.Auth.Password.{verify_password, wrap}

pub record ChangeRequest : Type 0 where
  pub old : Text
  pub new : Text

pub data ChangeReply : Type 0 where
  failure : ℕ → ChangeReply
  changed : ChangeReply

-- What may fail, and what is random: the second salt and hash are for an account without a salt.
pub record ChangeWorld : Type 0 where
  pub down_select : Bool
  pub down_update : Bool
  pub down_audit : Bool
  pub seed : ℕ
  pub seed_again : ℕ
  pub fresh : Text

-- The hash and the salt that are written. An account without a salt gets the fresh one, and what the
-- client sent is wrapped with it, whatever its form; an error of that second `generate` is ignored,
-- and leaves the empty hash.
or_empty : Option String → String
or_empty none = ""
or_empty (some hash) = hash

unfoldable pub stored_for :
    Crypto → ChangeWorld → (hash : String) → (salt new : Text) → String × Text
unfolding or_empty
stored_for c w hash salt new =
    if salt == []
    then (or_empty (c.generate w.seed_again (c.sha256_hex (new ++ w.fresh))), w.fresh)
    else (hash, salt)

-- `UPDATE users SET password_hash=$1, pwd_salt=$2, token_version=COALESCE(token_version,0)+1`
unfoldable pub set_password : String → String × Text → Tables → Tables
set_password id s t = record t {
  users =
      update_user id
        (λ a. record a { password_hash = s.0; pwd_salt = s.1; token_version = a.token_version + 1 })
        t.users;
}

module _ (c : Crypto) (w : ChangeWorld) (user_id username : String) where
  write_change : (hash : String) → Account → Text → Tables → Tables × ChangeReply
  write_change hash u new t = if w.down_update then (t, failure 500) else (
    exec w.down_audit (insert_audit user_id "修改密码")
        (set_password user_id (stored_for c w hash u.pwd_salt new) t),
    changed,
  )

  hash_change : Option String → Account → Text → Tables → Tables × ChangeReply
  hash_change none u new t = (t, failure 500)
  hash_change (some hash) u new t = write_change hash u new t

  check_change : Option Account → ChangeRequest → Tables → Tables × ChangeReply
  check_change none req t = (t, failure 404)
  check_change (some u) req t =
      if not (verify_password c u.password_hash req.old u.pwd_salt).0
      then (t, failure 400)
      else hash_change (c.generate w.seed (wrap c req.new u.pwd_salt)) u req.new t

  -- `none` is a body that does not decode; `user_id` is the header X-User-ID.
  unfoldable pub handle_me_password : Option ChangeRequest → Tables → Tables × ChangeReply
  unfolding check_change hash_change write_change
  handle_me_password none t = (t, failure 400)
  handle_me_password (some req) t =
      if req.new == [] || ltb (byte_len req.new) 6
      then (t, failure 400)
      else check_change (query_row w.down_select (user_by_id user_id t.users)) req t
