-- ===== src/Tests/Auth.antt =====
-- One account, and a toy in place of bcrypt, SHA-256 and the tokens that keeps what they promise.
use lambs_server.Base.{
  ℕ, ◌≡◌, ◌≤◌, refl, sym, ◌∙◌, ap, ◌↔◌, ◌⊎◌, inl, inr, Bool, true, false, String, Option, some,
  none, List, [], ◌∷◌, ◌++◌, if◌then◌else◌, ◌==◌, text_eq, eq_iff, arith, ok, err, Bool-cases,
  contains, not, ◌&&◌,
}
use lambs_server.Base.Text.{Text, codes, trim_space}
use lambs_server.Auth.Model.{Account, Tables, Crypto, IsBcrypt, Claims, Jwt, user_by_id}
use lambs_server.Auth.Limiter.Traces.{
  decisions, plain_decisions, accepted, in_window, decisions-eq-plain_decisions,
  in_window-accepted-le-max,
}
use lambs_server.Auth.Password.{verify_password, wrap}
use lambs_server.Auth.Session.{Identity, require_auth, require_super_admin}
use lambs_server.Auth.Session.Guard.{IsCurrent, require_auth_iff}
use lambs_server.Auth.Login.{LoginRequest, success, claims_of, handle_login}
use lambs_server.Auth.Login.Upgrade.{Logs, all_up, handle_login_iff}
use lambs_server.Auth.Change.{ChangeRequest, ChangeWorld, handle_me_password}
use lambs_server.Auth.Register.{RegisterRequest, RegisterWorld, register_names, handle_register}
use lambs_server.Auth.Register.Roles.{Registers, handle_register-Registers}
use lambs_server.Auth.Change.Revocation.{handle_me_password-revokes}

-- One payload can be stored: the digest that every text has.
abbrev toy_compares : String → Text → Bool
toy_compares hash payload = codes hash == payload

abbrev toy_generate : ℕ → Text → Option String
toy_generate seed payload = if payload == codes "digest" then some "digest" else none

abbrev pub toy : Crypto
toy = record { compares = toy_compares; generate = toy_generate; sha256_hex = λ t. codes "digest" }

stored_digest :
    (seed : ℕ) (payload : Text) (hash : String)
    → toy_generate seed payload ≡ some hash
    → (payload ≡ codes "digest") × (hash ≡ "digest")
stored_digest seed payload hash e = elim (Bool-cases (payload == codes "digest")) [
  | inl same ↦ ((eq_iff payload (codes "digest")).0 same, ground arith)
  | inr other ↦ ground arith
]

toy-IsBcrypt : IsBcrypt toy
toy-IsBcrypt = record {
  accepts = λ seed payload hash e.
      let (p, h) = stored_digest seed payload hash e in
      (eq_iff (codes hash) payload).1 (ap codes h ∙ sym p);
  rejects = λ seed payload other hash e c.
      let (p, h) = stored_digest seed payload hash e in
      p ∙ sym (ap codes h) ∙ (eq_iff (codes hash) other).0 c;
}

abbrev pub ann : Account
ann = record {
  id = "u1";
  username = "ann";
  email = "ann@example.org";
  password_hash = "digest";
  pwd_salt = codes "salt";
  role = "super_admin";
  status = "active";
  token_version = 3;
  last_login = 0;
  project_access = "p1" ∷ [];
}

abbrev tables : Tables
tables = record { users = ann ∷ []; audit = [] }

abbrev token_claims : Claims
token_claims = record { user_id = "u1"; username = "ann"; role = "viewer"; tv = some 3 }

abbrev jwt : Jwt
jwt = record {
  sign = λ c. some (codes "t");
  parse = λ t. if t == codes "t" then some token_claims else none;
}

abbrev header : Text
header = codes "Bearer t"

abbrev who : Identity
who = record { user_id = "u1"; username = "ann"; role = "super_admin" }

abbrev request : ChangeRequest
request = record { old = codes "secret"; new = codes "secret2" }

abbrev world : ChangeWorld
world = record {
  down_select = false;
  down_update = false;
  down_audit = false;
  seed = 0;
  seed_again = 0;
  fresh = [];
}

abbrev login : LoginRequest
login = record { username = "ann"; password = codes "secret" }

require_auth_iff_example :
    (require_auth jwt false tables.users header ≡ ok who)
    ↔ ((false ≡ false) × IsCurrent jwt tables.users header who)
require_auth_iff_example = require_auth_iff jwt tables.users header who false

handle_login_iff_example :
    ((handle_login toy jwt 0 9 (codes "fresh") all_up (some login) tables).1
      ≡ success (codes "t") ann)
    ↔ (Logs toy tables login ann × (jwt.sign (claims_of ann) ≡ some (codes "t")))
handle_login_iff_example =
    handle_login_iff toy jwt 0 9 (codes "fresh") all_up login tables ann (codes "t") refl

handle_me_password-revokes_example :
    require_auth jwt false
      (handle_me_password toy world "u1" "ann" (some request) tables).0.users
      header
    ≡ err 401
unfolding require_auth handle_me_password lambs_server.Base.text_beq
    lambs_server.Base.Text.has_prefix lambs_server.Auth.Session.check_token
    lambs_server.Base.Text.trim_prefix user_by_id lambs_server.Base.find
    lambs_server.Base.Text.byte_len verify_password wrap lambs_server.Auth.Password.is_sha256_hex
handle_me_password-revokes_example =
    handle_me_password-revokes toy world jwt header who request tables false false refl refl

-- Three requests of one address in one window of ten, of which two are let through.
decisions-eq-plain_decisions_example :
    decisions 10 2 [] (("a", 1) ∷ ("a", 4) ∷ ("a", 9) ∷ [])
    ≡ plain_decisions 10 2 [] (("a", 1) ∷ ("a", 4) ∷ ("a", 9) ∷ [])
decisions-eq-plain_decisions_example =
    decisions-eq-plain_decisions 10 2 (("a", 1) ∷ ("a", 4) ∷ ("a", 9) ∷ [])
      (omega arith, (omega arith, (omega arith, tt)))

in_window-accepted-le-max_example :
    in_window 10 2 "a" 0 (accepted 10 2 [] (("a", 1) ∷ ("a", 4) ∷ ("a", 9) ∷ [])) ≤ 2
in_window-accepted-le-max_example =
    in_window-accepted-le-max 10 2 (("a", 1) ∷ ("a", 4) ∷ ("a", 9) ∷ []) "a" 0
      (omega arith, (omega arith, (omega arith, tt)))

abbrev register_request : RegisterRequest
register_request = record {
  username = " bob";
  email = "bob@example.org";
  password = codes "secret";
  salt = [];
}

abbrev register_world : Bool → RegisterWorld
register_world down_count = record {
  closed = false;
  down_count = down_count;
  down_insert = false;
  down_audit = false;
  seed = 0;
  new_id = "u2";
}

handle_register-Registers_example :
    Registers
      (λ n. false)
      (register_world false)
      (register_names register_request)
      tables
      (handle_register (λ n. false) toy jwt (register_world false) (some register_request) tables).0
unfolding handle_register lambs_server.Auth.Register.is_valid register_names
    lambs_server.Auth.Register.trim_string lambs_server.Base.Text.is_space
    lambs_server.Base.Text.byte_len lambs_server.Base.all lambs_server.Base.Text.has_substring
    lambs_server.Base.Text.split lambs_server.Base.text_beq
    lambs_server.Auth.Register.register_payload lambs_server.Auth.Password.is_sha256_hex
handle_register-Registers_example =
    handle_register-Registers (λ n. false) toy jwt (register_world false) register_request tables
      (codes "t") refl

abbrev no_port : Text → Option Text
no_port remote = none
