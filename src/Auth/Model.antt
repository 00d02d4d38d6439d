-- ===== src/Auth/Model.antt =====
-- The rows that internal/auth reads and writes, and what it takes from other code: bcrypt, SHA-256
-- and the JSON web tokens of golang-jwt.

use lambs_server.Base.{
  ℕ, ◌≡◌, Bool, true, String, Option, some, List, ◌∷◌, find, update_where, ◌==◌, string_eq,
}
use lambs_server.Base.Text.{Text}

-- The columns of `users`, with COALESCE applied to the nullable ones.
pub record Account : Type 0 where
  pub id : String
  pub username : String
  pub email : String
  pub password_hash : String
  pub pwd_salt : Text
  pub role : String
  pub status : String
  pub token_version : ℕ
  pub last_login : ℕ
  pub project_access : List String

-- `users`, and `audit_logs` as pairs of a user and an action, the newest first.
pub record Tables : Type 0 where
  pub users : List Account
  pub audit : List (String × String)

-- bcrypt and SHA-256. `generate` has the randomness of bcrypt as its first argument, and fails on a
-- payload that is too long.
pub record Crypto : Type 0 where
  pub compares : String → Text → Bool
  pub generate : ℕ → Text → Option String
  pub sha256_hex : Text → Text

-- What bcrypt promises of its own hashes.
pub record IsBcrypt (c : Crypto) : Type 0 where
  pub accepts :
      (seed : ℕ) (payload : Text) (hash : String)
      → c.generate seed payload ≡ some hash
      → c.compares hash payload ≡ true
  pub rejects :
      (seed : ℕ) (payload other : Text) (hash : String)
      → c.generate seed payload ≡ some hash
      → c.compares hash other ≡ true
      → payload ≡ other

-- The claims of a token; a claim of another type, or none, is the empty text. `tv` is none where the
-- claim is no number.
pub record Claims : Type 0 where
  pub user_id : String
  pub username : String
  pub role : String
  pub tv : Option ℕ

-- golang-jwt under the server's key: `parse` is none for a token that is malformed, expired, badly
-- signed or not signed by HS256.
pub record Jwt : Type 0 where
  pub sign : Claims → Option Text
  pub parse : Text → Option Claims

abbrev pub active : String
active = "active"

unfoldable pub user_by_id : String → List Account → Option Account
user_by_id id us = find (λ u. u.id == id) us

unfoldable pub user_by_name : String → List Account → Option Account
user_by_name name us = find (λ u. u.username == name) us

unfoldable pub update_user : String → (Account → Account) → List Account → List Account
update_user id f us = update_where (λ u. u.id == id) f us

unfoldable pub insert_audit : String → String → Tables → Tables
insert_audit user action t = record t { audit = (user, action) ∷ t.audit }
