-- ===== src/Auth/Change/Revocation.antt =====
-- A changed password revokes the tokens of the account, and what it accepts afterwards.

use lambs_server.Base.{
  ◌+◌, ◌≡◌, ltb, refl, sym, Bool, true, false, ◌||◌, String, Option, none, some, [], ◌==◌,
  string_eq, text_eq, nat_eq, arith, Bool-cases, inl, inr, ok, err, subst,
}
use lambs_server.Base.Text.{Text, byte_len}
use lambs_server.Store.{exec, query_row}
use lambs_server.Auth.Model.{Account, Tables, Crypto, IsBcrypt, Jwt, user_by_id, insert_audit}
use lambs_server.Auth.Accounts.{user_by_id-update_self}
use lambs_server.Auth.Password.{verify_password, wrap}
use lambs_server.Auth.Password.Contract.{wrap-accepted}
use lambs_server.Auth.Session.{Identity, require_auth}
use lambs_server.Auth.Session.Guard.{require_auth_iff}
use lambs_server.Auth.Session.Stale.{require_auth_stale}
use lambs_server.Auth.Change.{
  ChangeRequest, ChangeReply, changed, ChangeWorld, stored_for, set_password, write_change,
  hash_change, check_change, handle_me_password,
}

-- The row of an account after `UPDATE users SET password_hash, pwd_salt, token_version + 1`.
abbrev pub with_password : String × Text → Account → Account
with_password s a = record a {
  password_hash = s.0;
  pwd_salt = s.1;
  token_version = a.token_version + 1;
}

pub user_by_id-set_password :
    (id : String) (s : String × Text) (t : Tables) (u : Account)
    → user_by_id id t.users ≡ some u
    → user_by_id id (set_password id s t).users ≡ some (with_password s u)
unfolding set_password
user_by_id-set_password id s t u found =
    user_by_id-update_self id (with_password s) t.users u (λ a. refl) found

module _ (c : Crypto) (w : ChangeWorld) (user_id username : String) (req : ChangeRequest)
    (t : Tables) where
  -- What a successful change was based on, and the rows that it leaves.
  pub record Changed : Type 0 where
    pub row : Account
    pub hash : String
    pub found : user_by_id user_id t.users ≡ some row
    pub verified : (verify_password c row.password_hash req.old row.pwd_salt).0 ≡ true
    pub hashed : c.generate w.seed (wrap c req.new row.pwd_salt) ≡ some hash
    pub after :
        user_by_id user_id (handle_me_password c w user_id username (some req) t).0.users
        ≡ some (with_password (stored_for c w hash row.pwd_salt req.new) row)

  users-audit :
      (down : Bool) (user action : String) (t : Tables)
      → (exec down (insert_audit user action) t).users ≡ t.users
  unfolding exec insert_audit
  users-audit true user action t = refl
  users-audit false user action t = refl

  write_change-changed :
      (hash : String) (u : Account)
      → (write_change c w user_id username hash u req.new t).1 ≡ changed
      → (write_change c w user_id username hash u req.new t).0.users
        ≡ (set_password user_id (stored_for c w hash u.pwd_salt req.new) t).users
  unfolding write_change stored_for
  write_change-changed hash u e = elim (Bool-cases w.down_update) [
    | inl failed ↦ ground arith
    | inr done ↦ rw done (
        users-audit w.down_audit user_id "修改密码"
          (set_password user_id (stored_for c w hash u.pwd_salt req.new) t))
  ]

  -- The checks that a change has passed.
  record Checked (o : Option Account) (r : Tables × ChangeReply) : Type 0 where
    row : Account
    hash : String
    found : o ≡ some row
    verified : (verify_password c row.password_hash req.old row.pwd_salt).0 ≡ true
    hashed : c.generate w.seed (wrap c req.new row.pwd_salt) ≡ some hash
    written : r ≡ write_change c w user_id username hash row req.new t

  hash_change-changed :
      (g : Option String) (u : Account)
      → (hash_change c w user_id username g u req.new t).1 ≡ changed
      → (hash : String) × (g ≡ some hash)
        × (hash_change c w user_id username g u req.new t
            ≡ write_change c w user_id username hash u req.new t)
  unfolding hash_change
  hash_change-changed none u e = cc
  hash_change-changed (some hash) u e = (hash, refl, refl)

  check_change-changed :
      (o : Option Account)
      → (check_change c w user_id username o req t).1 ≡ changed
      → Checked o (check_change c w user_id username o req t)
  unfolding check_change
  check_change-changed none e = cc
  check_change-changed (some u) e =
      elim (Bool-cases (verify_password c u.password_hash req.old u.pwd_salt).0) [
        | inr wrong ↦ ground arith
        | inl right ↦
            let (hash, hashed, written) =
              hash_change-changed (c.generate w.seed (wrap c req.new u.pwd_salt)) u
                (rw right at e) in
            record {
              row = u;
              hash = hash;
              found = refl;
              verified = right;
              hashed = hashed;
              written = rw right written;
            }
      ]

  query-some :
      (down : Bool) (o : Option Account) (u : Account) → query_row down o ≡ some u → o ≡ some u
  unfolding query_row
  query-some true o u e = cc
  query-some false o u e = e

  handle-checks :
      (req.new == [] || ltb (byte_len req.new) 6) ≡ false
      → handle_me_password c w user_id username (some req) t
        ≡ check_change c w user_id username
            (query_row w.down_select (user_by_id user_id t.users))
            req
            t
  unfolding handle_me_password
  handle-checks long = simp long

  handle-Checked :
      (handle_me_password c w user_id username (some req) t).1 ≡ changed
      → Checked
          (query_row w.down_select (user_by_id user_id t.users))
          (handle_me_password c w user_id username (some req) t)
  unfolding handle_me_password
  handle-Checked e = elim (Bool-cases (req.new == [] || ltb (byte_len req.new) 6)) [
    | inl short ↦ ground arith
    | inr long ↦
        subst (λ r. Checked (query_row w.down_select (user_by_id user_id t.users)) r)
          (sym (handle-checks long))
          (check_change-changed (query_row w.down_select (user_by_id user_id t.users))
            (subst (λ r. r.1 ≡ changed) (handle-checks long) e))
  ]

  pub handle_me_password-Changed :
      (handle_me_password c w user_id username (some req) t).1 ≡ changed → Changed
  handle_me_password-Changed e =
      let k = handle-Checked e in
      let found = query-some w.down_select (user_by_id user_id t.users) k.row k.found in
      record {
        row = k.row;
        hash = k.hash;
        found = found;
        verified = k.verified;
        hashed = k.hashed;
        after = rw (k.written) (
            rw (write_change-changed k.hash k.row (rw k.written at e)) (
              user_by_id-set_password user_id (stored_for c w k.hash k.row.pwd_salt req.new) t k.row
                found));
      }

-- A token that was accepted for an account is refused after the account has changed its password.
pub handle_me_password-revokes :
    (c : Crypto) (w : ChangeWorld) (jwt : Jwt) (header : Text) (who : Identity)
    (req : ChangeRequest) (t : Tables) (down_before down : Bool)
    → require_auth jwt down_before t.users header ≡ ok who
    → (handle_me_password c w who.user_id who.username (some req) t).1 ≡ changed
    → require_auth jwt down
        (handle_me_password c w who.user_id who.username (some req) t).0.users
        header
      ≡ err 401
handle_me_password-revokes c w jwt header who req t down_before down accepted done =
    let k = handle_me_password-Changed c w who.user_id who.username req t done in
    require_auth_stale jwt header t.users
      (handle_me_password c w who.user_id who.username (some req) t).0.users who k.row down
      ((require_auth_iff jwt t.users header who down_before).0 accepted).1 k.found
      (with_password (stored_for c w k.hash k.row.pwd_salt req.new) k.row, k.after, refl)

-- After a change the owner gets in with the new password, where the account has a salt and the hash is
-- bcrypt's.
pub handle_me_password-accepted :
    (c : Crypto) (w : ChangeWorld) (user_id username : String) (req : ChangeRequest) (t : Tables)
    (u : Account)
    → IsBcrypt c
    → user_by_id user_id t.users ≡ some u
    → (u.pwd_salt == []) ≡ false
    → (handle_me_password c w user_id username (some req) t).1 ≡ changed
    → (u' : Account) × (user_by_id user_id
          (handle_me_password c w user_id username (some req) t).0.users
        ≡ some u')
      × ((verify_password c u'.password_hash req.new u'.pwd_salt).0 ≡ true)
unfolding stored_for
handle_me_password-accepted c w user_id username req t u laws found salted done =
    let k = handle_me_password-Changed c w user_id username req t done in
    let same : k.row ≡ u = cc (k.found, found) in
    let salted' : (k.row.pwd_salt == []) ≡ false = rw same salted in
    (_, k.after, simp (salted', wrap-accepted c w.seed k.hash req.new k.row.pwd_salt laws k.hashed))
