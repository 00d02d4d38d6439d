-- ===== src/Auth/Login/Upgrade.antt =====
-- A login, and the same login after it.
use mathlib.Core.Option
use lambs_server.Base.{
  ℕ, ◌≡◌, ◌↔◌, refl, ◌∙◌, Bool, true, false, not, ◌&&◌, String, Option, none, some, List, [], ◌++◌,
  if◌then◌else◌, ◌==◌, eq_iff, find-update_where, string_eq, text_eq, arith, Bool-cases, inl, inr,
}
use lambs_server.Base.Text.{Text}
use lambs_server.Store.{exec, query_row}
use lambs_server.Auth.Model.{
  Account, Tables, Crypto, IsBcrypt, Jwt, active, user_by_name, update_user, insert_audit,
}
use lambs_server.Auth.Password.{verify_password}
use lambs_server.Auth.Login.{
  LoginRequest, success, LoginFaults, upgrade_row, upgrade_legacy, claims_of, issue, admit_login,
  check_login, handle_login,
}

-- No statement of the login fails.
abbrev pub all_up : LoginFaults
all_up = record { select = false; upgrade = false; touch = false; audit = false }

-- The account that the login finds, and what it checks.
pub record Logs (c : Crypto) (t : Tables) (req : LoginRequest) (u : Account) : Type 0 where
  pub found : user_by_name req.username t.users ≡ some u
  pub is_active : u.status ≡ active
  pub verified : (verify_password c u.password_hash req.password u.pwd_salt).0 ≡ true

module _ (c : Crypto) (jwt : Jwt) (seed now : ℕ) (fresh : Text) (down : LoginFaults)
    (req : LoginRequest) (t : Tables) where
  admit_login-success :
      (password : Text) (legacy : Bool) (u v : Account) (token : Text)
      → (admit_login c jwt seed now fresh down password legacy u t).1 ≡ success token v
      → (u ≡ v) × (jwt.sign (claims_of u) ≡ some token)
  unfolding admit_login
  admit_login-success password legacy u v token e = ground arith

  check_login-success :
      (o : Option Account) (u : Account) (token : Text)
      → (check_login c jwt seed now fresh down o req.password t).1 ≡ success token u
      → (o ≡ some u)
        × (u.status ≡ active)
        × ((verify_password c u.password_hash req.password u.pwd_salt).0 ≡ true)
        × (jwt.sign (claims_of u) ≡ some token)
  unfolding check_login
  check_login-success none u token e = cc
  check_login-success (some v) u token e = ground (
    arith,
    eq_iff v.status active,
    admit_login-success req.password (verify_password c v.password_hash req.password v.pwd_salt).1 v
        u token,
  )

  -- A login that succeeds was made with the password of an active account of that name, and its
  -- token says who the account is, its role and its current version.
  pub handle_login-Logs :
      (u : Account) (token : Text)
      → (handle_login c jwt seed now fresh down (some req) t).1 ≡ success token u
      → Logs c t req u × (jwt.sign (claims_of u) ≡ some token)
  unfolding handle_login
  handle_login-Logs u token e =
      let (read, is_active, verified, signed) =
        check_login-success (query_row down.select (user_by_name req.username t.users)) u token e in
      (
        record {
          found = unfold query_row in ground arith;
          is_active = is_active;
          verified = verified;
        },
        signed,
      )

user_by_name-update_user :
    (name id : String) (f : Account → Account) (us : List Account)
    → ((a : Account) → (f a).username ≡ a.username)
    → user_by_name name (update_user id f us)
      ≡ Option.map (λ a. if a.id == id then f a else a) (user_by_name name us)
unfolding user_by_name update_user
user_by_name-update_user name id f us names =
    find-update_where (λ a. a.username == name) (λ a. a.id == id) f us (λ a. rw (names a))

-- The account under the same name after an update of its row that keeps the name, the status and
-- what is accepted as its password.
Logs-update :
    (c : Crypto) (t : Tables) (req : LoginRequest) (u : Account) (f : Account → Account)
    → ((a : Account) → (f a).username ≡ a.username)
    → (f u).status ≡ u.status
    → (verify_password c (f u).password_hash req.password (f u).pwd_salt).0 ≡ true
    → Logs c t req u
    → Logs c (record t { users = update_user u.id f t.users }) req (f u)
Logs-update c t req u f names status accepts l = record {
  found =
      user_by_name-update_user req.username u.id f t.users names
      ∙ rw l.found (ground (arith, eq_iff u.id u.id));
  is_active = status ∙ l.is_active;
  verified = accepts;
}

-- The account that the next login finds, beside the one that this login found.
pub record LogsAgain (c : Crypto) (t : Tables) (req : LoginRequest) (u : Account) : Type 0 where
  pub row : Account
  pub logs : Logs c t req row
  pub same_id : row.id ≡ u.id
  pub same_role : row.role ≡ u.role
  pub same_version : row.token_version ≡ u.token_version

module _ (c : Crypto) (laws : IsBcrypt c) (seed now : ℕ) (fresh : Text) (req : LoginRequest) where
  upgraded-accepts :
      (hash : String)
      → c.generate seed (c.sha256_hex (req.password ++ fresh)) ≡ some hash
      → (verify_password c hash req.password fresh).0 ≡ true
  unfolding verify_password
  upgraded-accepts hash e =
      ground (arith, laws.accepts seed (c.sha256_hex (req.password ++ fresh)) hash e)

  LogsAgain-refl : (t : Tables) (u : Account) → Logs c t req u → LogsAgain c t req u
  LogsAgain-refl t u l = record {
    row = u;
    logs = l;
    same_id = refl;
    same_role = refl;
    same_version = refl;
  }

  upgrade_row-LogsAgain :
      (t : Tables) (u : Account) (down : Bool) (o : Option String)
      → c.generate seed (c.sha256_hex (req.password ++ fresh)) ≡ o
      → Logs c t req u
      → LogsAgain c (upgrade_row fresh o u t down) req u
  unfolding upgrade_row exec
  upgrade_row-LogsAgain t u down none e l = LogsAgain-refl t u l
  upgrade_row-LogsAgain t u true (some hash) e l = LogsAgain-refl t u l
  upgrade_row-LogsAgain t u false (some hash) e l = record {
    row = record u { pwd_salt = fresh; password_hash = hash };
    logs =
        Logs-update c t req u (λ a. record a { pwd_salt = fresh; password_hash = hash }) (λ a. refl)
          refl (upgraded-accepts hash e) l;
    same_id = refl;
    same_role = refl;
    same_version = refl;
  }

  upgrade_legacy-LogsAgain :
      (t : Tables) (u : Account) (legacy down : Bool)
      → Logs c t req u
      → LogsAgain c (upgrade_legacy c seed fresh req.password legacy u down t) req u
  unfolding upgrade_legacy
  upgrade_legacy-LogsAgain t u legacy down l =
      elim (Bool-cases (legacy && (u.pwd_salt == [] && not (fresh == [])))) [
        | inl old ↦ rw old (
            upgrade_row-LogsAgain t u down (c.generate seed (c.sha256_hex (req.password ++ fresh)))
              refl l)
        | inr new ↦ rw new (LogsAgain-refl t u l)
      ]

  touch-LogsAgain :
      (t : Tables) (u : Account) (down : Bool)
      → LogsAgain c t req u
      → LogsAgain c
          (exec down
            (λ t. record t {
              users = update_user u.id (λ a. record a { last_login = now }) t.users;
            })
            t)
          req
          u
  unfolding exec
  touch-LogsAgain t u true l = l
  touch-LogsAgain t u false l = record {
    row = record (l.row) { last_login = now };
    logs = rw (← l.same_id) (
        Logs-update c t req l.row (λ a. record a { last_login = now }) (λ a. refl) refl
          l.logs.verified l.logs);
    same_id = l.same_id;
    same_role = l.same_role;
    same_version = l.same_version;
  }

  audit-LogsAgain :
      (t : Tables) (u : Account) (down : Bool) (user action : String)
      → LogsAgain c t req u
      → LogsAgain c (exec down (insert_audit user action) t) req u
  unfolding exec insert_audit
  audit-LogsAgain t u true user action l = l
  audit-LogsAgain t u false user action l = record {
    row = l.row;
    logs = record {
      found = l.logs.found;
      is_active = l.logs.is_active;
      verified = l.logs.verified;
    };
    same_id = l.same_id;
    same_role = l.same_role;
    same_version = l.same_version;
  }

module _ (c : Crypto) (jwt : Jwt) (seed now : ℕ) (fresh : Text) (down : LoginFaults)
    (req : LoginRequest) (t : Tables) where
  check_login-tables :
      (o : Option Account) (u : Account) (token : Text)
      → (check_login c jwt seed now fresh down o req.password t).1 ≡ success token u
      → (check_login c jwt seed now fresh down o req.password t).0
        ≡ (admit_login c jwt seed now fresh down req.password
            (verify_password c u.password_hash req.password u.pwd_salt).1
            u
            t).0
  unfolding check_login
  check_login-tables none u token e = cc
  check_login-tables (some v) u token e = ground (
    arith,
    admit_login-success c jwt seed now fresh down req t req.password
        (verify_password c v.password_hash req.password v.pwd_salt).1 v u token,
  )

  -- The transparent upgrade of an account without a salt never locks it out: after a successful
  -- login, whichever of its later statements failed, the same request finds an active account of the
  -- same id, role and token version, and its password is accepted.
  pub handle_login-LogsAgain :
      (u : Account) (token : Text)
      → IsBcrypt c
      → (handle_login c jwt seed now fresh down (some req) t).1 ≡ success token u
      → LogsAgain c (handle_login c jwt seed now fresh down (some req) t).0 req u
  unfolding handle_login
  handle_login-LogsAgain u token laws e =
      let (l, signed) = handle_login-Logs c jwt seed now fresh down req t u token e in
      let legacy = (verify_password c u.password_hash req.password u.pwd_salt).1 in
      let t1 = upgrade_legacy c seed fresh req.password legacy u down.upgrade t in
      let l1 = upgrade_legacy-LogsAgain c laws seed now fresh req t u legacy down.upgrade l in
      let l2 = touch-LogsAgain c laws seed now fresh req t1 u down.touch l1 in
      rw (check_login-tables (query_row down.select (user_by_name req.username t.users)) u token e)
        (unfold admit_login in
          audit-LogsAgain c laws seed now fresh req _ u down.audit u.id "登录" l2)

  handle_login_complete :
      (u : Account) (token : Text)
      → down.select ≡ false
      → Logs c t req u
      → jwt.sign (claims_of u) ≡ some token
      → (handle_login c jwt seed now fresh down (some req) t).1 ≡ success token u
  unfolding handle_login check_login admit_login query_row issue
  handle_login_complete u token up l signed =
      rw (up, l.found) (ground (arith, l.is_active, l.verified, signed, eq_iff u.status active))

  -- Where the first query does not fail, a login succeeds with a token for an account if and only if
  -- that account is the one of the name, is active, its password is accepted, and the token could be
  -- signed for its id, name, role and current version.
  pub handle_login_iff :
      (u : Account) (token : Text)
      → down.select ≡ false
      → ((handle_login c jwt seed now fresh down (some req) t).1 ≡ success token u)
        ↔ (Logs c t req u × (jwt.sign (claims_of u) ≡ some token))
  handle_login_iff u token up = (
    handle_login-Logs c jwt seed now fresh down req t u token,
    λ h. handle_login_complete u token up h.0 h.1,
  )
