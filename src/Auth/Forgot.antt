-- ===== src/Auth/Forgot.antt =====
-- internal/auth/forgot.go: the two handlers of a forgotten password. `mac` is the keyed HMAC of a
-- code, times are seconds of the one clock that the server and its database share.
pub mod Log
pub mod Once
pub mod Reset
pub mod Table
use mathlib.Core.Option
use lambs_server.Base.{
  ℕ, ◌+◌, ◌-◌, Bool, true, false, not, ◌&&◌, ◌||◌, String, Option, none, some, List, [], ◌∷◌, ◌++◌,
  ltb, leb, length, find, update_where, any, replicate, if◌then◌else◌, ◌==◌, nat_eq, string_eq,
  text_eq,
}
use lambs_server.Base.Text.{Text, codes, byte_len, trim_space, itoa}
use lambs_server.Store.{exec, query_row, scan_or}
use lambs_server.Auth.Model.{Account, Crypto, active}
use lambs_server.Auth.Password.{wrap}

-- A row of `verification_codes`.
pub record CodeRow : Type 0 where
  pub id : ℕ
  pub username : Text
  pub email : Text
  pub code : Text
  pub used : Bool
  pub attempts : ℕ
  pub created_at : ℕ
  pub expires_at : ℕ

-- The rows of codes from the newest id on, the next id of the sequence, and the accounts.
pub record ForgotTables : Type 0 where
  pub rows : List CodeRow
  pub next_id : ℕ
  pub users : List Account

pub data ForgotReply : Type 0 where
  failure : ℕ → ForgotReply
  wrong_code : (left : ℕ) → ForgotReply
  sent reset : ForgotReply

pub record ForgotRequest : Type 0 where
  pub username : Text
  pub email : Text

pub record VerifyRequest : Type 0 where
  pub username : Text
  pub email : Text
  pub code : Text
  pub new_password : Text

-- What the surroundings of HandleForgotRequest decide: statements that fail, the number that
-- `crand.Int` draws below a million, and whether the mail goes out.
pub record RequestWorld : Type 0 where
  pub now : ℕ
  pub down_user : Bool
  pub down_last : Bool
  pub down_retire : Bool
  pub down_insert : Bool
  pub drawn : Option ℕ
  pub mail_fails : Bool

pub record VerifyWorld : Type 0 where
  pub now : ℕ
  pub down_select : Bool
  pub down_recent : Bool
  pub down_attempt : Bool
  pub down_salt : Bool
  pub down_update : Bool
  pub down_used : Bool
  pub seed : ℕ

-- `%06d`
unfoldable pub six_digits : ℕ → Text
six_digits n = replicate (6 - length (itoa n)) b'0' ++ itoa n

has_line_break : Text → Bool
has_line_break t = any (λ c. c == 13 || c == 10) t

-- `SELECT id FROM users WHERE username=$1 AND email=$2 AND status='active'`
unfoldable pub active_user : Text → Text → List Account → Option Account
active_user name email us =
    find (λ u. codes u.username == name && (codes u.email == email && u.status == active)) us

-- `MAX(created_at)` of the name's rows.
later_of : ℕ → Option ℕ → Option ℕ
later_of t none = some t
later_of t (some u) = if ltb u t then some t else some u

unfoldable pub last_created : Text → List CodeRow → Option ℕ
unfolding later_of
last_created name [] = none
last_created name (r ∷ rs) =
    let rest = last_created name rs in
    if r.username == name then later_of r.created_at rest else rest

-- Less than a minute since the last code; without a row, or where the query fails, it is a day or
-- more.
unfoldable pub is_cooling : ℕ → Option ℕ → Bool
is_cooling now none = false
is_cooling now (some t) = ltb (now - t) 60

-- `UPDATE verification_codes SET used=TRUE WHERE username=$1 AND used=FALSE`
unfoldable pub retire : Text → List CodeRow → List CodeRow
retire name rows =
    update_where (λ r. r.username == name && not r.used) (λ r. record r { used = true }) rows

module _ (mac : Text → Text) where
  unfoldable pub new_row : RequestWorld → ForgotRequest → ℕ → ℕ → CodeRow
  unfolding six_digits
  new_row w req id n = record {
    id = id;
    username = req.username;
    email = req.email;
    code = mac (six_digits n);
    used = false;
    attempts = 0;
    created_at = w.now;
    expires_at = w.now + 300;
  }

  -- The two statements, and the mail.
  unfoldable pub issue_code :
      RequestWorld → ForgotRequest → Option ℕ → ForgotTables → ForgotTables × ForgotReply
  issue_code w req none t = (t, failure 500)
  issue_code w req (some n) t =
      let retired = exec w.down_retire (retire req.username) t.rows in
      if w.down_insert then (record t { rows = retired }, failure 500) else (
        record t { rows = new_row w req t.next_id n ∷ retired; next_id = t.next_id + 1 },
        if w.mail_fails then failure 503 else sent,
      )

  request_user :
      RequestWorld → ForgotRequest → Option Account → ForgotTables → ForgotTables × ForgotReply
  unfolding query_row
  request_user w req none t = (t, failure 400)
  request_user w req (some u) t =
      if is_cooling w.now (if w.down_last then none else last_created req.username t.rows)
      then (t, failure 429)
      else issue_code w req w.drawn t

  request_trimmed : RequestWorld → ForgotRequest → ForgotTables → ForgotTables × ForgotReply
  unfolding has_line_break
  request_trimmed w req t =
      if req.username == [] || req.email == []
      then (t, failure 400)
      else if has_line_break req.email || has_line_break req.username
      then (t, failure 400)
      else request_user w req (query_row w.down_user (active_user req.username req.email t.users)) t

  -- `none` is a body that does not decode.
  unfoldable pub handle_forgot_request :
      RequestWorld → Option ForgotRequest → ForgotTables → ForgotTables × ForgotReply
  unfolding request_trimmed request_user
  handle_forgot_request w none t = (t, failure 400)
  handle_forgot_request w (some req) t =
      request_trimmed w
        (record { username = trim_space req.username; email = trim_space req.email }) t

-- The newest row that is not used and has not expired.
unfoldable pub is_open : Text → Text → ℕ → CodeRow → Bool
is_open name email now r =
    r.username == name && (r.email == email && (not r.used && ltb now r.expires_at))

unfoldable pub open_code : Text → Text → ℕ → List CodeRow → Option CodeRow
unfolding is_open
open_code name email now rows = find (is_open name email now) rows

-- `SUM(attempts)` over the last ten minutes.
unfoldable pub recent_fails : Text → ℕ → List CodeRow → ℕ
recent_fails name now [] = 0
recent_fails name now (r ∷ rs) =
    (if r.username == name && ltb now (r.created_at + 600) then r.attempts else 0)
    + recent_fails name now rs

-- `UPDATE verification_codes SET attempts=attempts+1 WHERE id=$1`
unfoldable pub bump : ℕ → List CodeRow → List CodeRow
bump id rows = update_where (λ r. r.id == id) (λ r. record r { attempts = r.attempts + 1 }) rows

-- `UPDATE verification_codes SET used=TRUE WHERE id=$1`
unfoldable pub use_up : ℕ → List CodeRow → List CodeRow
use_up id rows = update_where (λ r. r.id == id) (λ r. record r { used = true }) rows

-- `UPDATE users SET password_hash=$1, token_version=COALESCE(token_version,0)+1 WHERE username=$2`
unfoldable pub reset_account : Text → String → List Account → List Account
reset_account name hash us =
    update_where (λ u. codes u.username == name)
      (λ u. record u { password_hash = hash; token_version = u.token_version + 1 }) us

unfoldable pub salt_of : Text → List Account → Option Text
salt_of name us = Option.map (λ u. u.pwd_salt) (find (λ u. codes u.username == name) us)

-- bcrypt's input: the client's digest, or the plaintext wrapped with the account's salt.
unfoldable pub new_payload : Crypto → VerifyWorld → VerifyRequest → List Account → Text
new_payload c w req us = wrap c req.new_password (scan_or w.down_salt [] (salt_of req.username us))

module _ (mac : Text → Text) (c : Crypto) (w : VerifyWorld) (req : VerifyRequest) where
  store_password : CodeRow → Option String → ForgotTables → ForgotTables × ForgotReply
  store_password row none t = (t, failure 500)
  store_password row (some hash) t = if w.down_update then (t, failure 500) else (
    record t {
      users = reset_account req.username hash t.users;
      rows = exec w.down_used (use_up row.id) t.rows;
    },
    reset,
  )

  verify_row : Option CodeRow → ForgotTables → ForgotTables × ForgotReply
  verify_row none t = (t, failure 400)
  verify_row (some row) t =
      if leb 5 row.attempts
      then (t, failure 400)
      else if leb 20 (if w.down_recent then 0 else recent_fails req.username w.now t.rows)
      then (t, failure 429)
      else if not (row.code == mac req.code)
      then (
        record t { rows = exec w.down_attempt (bump row.id) t.rows },
        wrong_code (5 - row.attempts - 1),
      )
      else store_password row (c.generate w.seed (new_payload c w req t.users)) t

  unfoldable pub verify_trimmed : ForgotTables → ForgotTables × ForgotReply
  unfolding verify_row store_password
  verify_trimmed t =
      if req.new_password == [] || ltb (byte_len req.new_password) 6
      then (t, failure 400)
      else verify_row (query_row w.down_select (open_code req.username req.email w.now t.rows)) t

unfoldable pub trimmed : VerifyRequest → VerifyRequest
trimmed req = record req {
  username = trim_space req.username;
  email = trim_space req.email;
  code = trim_space req.code;
}

unfoldable pub handle_forgot_verify :
    (Text → Text)
    → Crypto
    → VerifyWorld
    → Option VerifyRequest
    → ForgotTables
    → ForgotTables × ForgotReply
unfolding verify_trimmed trimmed
handle_forgot_verify mac c w none t = (t, failure 400)
handle_forgot_verify mac c w (some req) t = verify_trimmed mac c w (trimmed req) t
