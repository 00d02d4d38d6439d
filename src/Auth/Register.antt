-- ===== src/Auth/Register.antt =====
-- `HandleRegister` of internal/auth/auth.go. `is_han` is the class of Han characters of `usernameRe`.
pub mod Roles
use lambs_server.Base.{
  ℕ, ◌+◌, Bool, true, false, not, ◌&&◌, ◌||◌, String, Option, none, some, List, [], ◌∷◌, ◌++◌, ltb,
  leb, length, all, if◌then◌else◌, ◌==◌, nat_eq, string_eq, text_eq,
}
use Prim.Native.Char.{code}
use Prim.Native.String
use lambs_server.Base.Text.{Text, codes, byte_len, has_substring, split, is_space}
use lambs_server.Store.{exec}
use lambs_server.Auth.Model.{Account, Tables, Crypto, Claims, Jwt, active, insert_audit}
use lambs_server.Auth.Password.{is_sha256_hex, is_salt_hex}

pub record RegisterRequest : Type 0 where
  pub username : String
  pub email : String
  pub password : Text
  pub salt : Text

pub data RegisterReply : Type 0 where
  failure : ℕ → RegisterReply
  registered : Text → RegisterReply

-- `closed` is LAMBS_ALLOW_REGISTER=false, `new_id` what gen_random_uuid() gives. The INSERT fails for
-- a taken name too.
pub record RegisterWorld : Type 0 where
  pub closed : Bool
  pub down_count : Bool
  pub down_insert : Bool
  pub down_audit : Bool
  pub seed : ℕ
  pub new_id : String

-- `strings.TrimSpace` on a native string.
trim_start : String → String
trim_start String.[] = String.[]
trim_start (String.◌∷◌ c s) = if is_space (code c) then trim_start s else String.◌∷◌ c s

reverse_onto : String → String → String
reverse_onto String.[] done = done
reverse_onto (String.◌∷◌ c s) done = reverse_onto s (String.◌∷◌ c done)

unfoldable pub trim_string : String → String
unfolding trim_start reverse_onto
trim_string s = reverse_onto (trim_start (reverse_onto (trim_start s) String.[])) String.[]

-- One character of `usernameRe`.
unfoldable pub is_name_char : (ℕ → Bool) → ℕ → Bool
is_name_char is_han c =
    leb b'a' c && leb c b'z'
    || (leb b'A' c && leb c b'Z'
        || (leb b'0' c && leb c b'9' || (c == b'_' || (c == b'.' || (c == b'-' || is_han c)))))

last_part : List Text → Text
last_part [] = []
last_part (x ∷ []) = x
last_part (x ∷ y ∷ xs) = last_part (y ∷ xs)

unfoldable pub is_mail : Text → Bool
unfolding last_part
is_mail email =
    has_substring email (codes "@") && has_substring (last_part (split b'@' email)) (codes ".")

-- The checks of the trimmed request, each of which answers 400.
unfoldable pub is_valid : (ℕ → Bool) → RegisterRequest → Bool
unfolding is_name_char is_mail
is_valid is_han req =
    not (req.username == "" || ltb 64 (byte_len (codes req.username)))
    && (all (is_name_char is_han) (codes req.username)
        && (is_mail (codes req.email)
            && (not (ltb (byte_len req.password) 6) && (req.salt == [] || is_salt_hex req.salt))))

-- `userCount == 0`, where a query that fails leaves the initial 0.
unfoldable pub is_first : RegisterWorld → List Account → Bool
is_first w us = (if w.down_count then 0 else length us) == 0

unfoldable pub new_account : RegisterWorld → RegisterRequest → String → List Account → Account
new_account w req hash us = record {
  id = w.new_id;
  username = req.username;
  email = req.email;
  password_hash = hash;
  pwd_salt = req.salt;
  role = if is_first w us then "super_admin" else "viewer";
  status = active;
  token_version = 0;
  last_login = 0;
  project_access = if is_first w us then "all" ∷ [] else [];
}

-- A plaintext is hashed without the salt.
unfoldable pub register_payload : Crypto → Text → Text
register_payload c password = if is_sha256_hex password then password else c.sha256_hex password

unfoldable pub register_names : RegisterRequest → RegisterRequest
register_names req = record req {
  username = trim_string req.username;
  email = trim_string req.email;
}

module _ (is_han : ℕ → Bool) (c : Crypto) (jwt : Jwt) (w : RegisterWorld) where
  issue_token : Option Text → RegisterReply
  issue_token none = failure 500
  issue_token (some token) = registered token

  insert_account : RegisterRequest → String → Tables → Tables × RegisterReply
  insert_account req hash t =
      let row = new_account w req hash t.users in
      if w.down_insert then (t, failure 400) else (
        exec w.down_audit (insert_audit w.new_id "注册") (record t { users = t.users ++ row ∷ [] }),
        issue_token (
            jwt.sign (record {
              user_id = w.new_id;
              username = req.username;
              role = row.role;
              tv = some 0;
            })),
      )

  hash_register : RegisterRequest → Option String → Tables → Tables × RegisterReply
  hash_register req none t = (t, failure 500)
  hash_register req (some hash) t = if w.closed then (t, failure 403) else insert_account req hash t

  register_trimmed : RegisterRequest → Tables → Tables × RegisterReply
  register_trimmed req t =
      if not (is_valid is_han req)
      then (t, failure 400)
      else hash_register req (c.generate w.seed (register_payload c req.password)) t

  -- `none` is a body that does not decode.
  unfoldable pub handle_register : Option RegisterRequest → Tables → Tables × RegisterReply
  unfolding register_trimmed hash_register insert_account issue_token
  handle_register none t = (t, failure 400)
  handle_register (some req) t = register_trimmed (register_names req) t
