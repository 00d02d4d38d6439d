-- ===== src/Auth/Session/Guard.antt =====
-- Who gets past the middleware.
use lambs_server.Base.{
  ◌≡◌, refl, ◌↔◌, Bool, true, false, Option, none, some, List, [], ◌∷◌, text_beq, ok, >>=-eq-ok,
  ◌==◌, eq_iff, string_eq, nat_eq, text_eq, arith,
}
use lambs_server.Base.Text.{Text, codes, has_prefix, trim_prefix}
use lambs_server.Store.{query_row}
use lambs_server.Auth.Model.{Account, Claims, Jwt, active, user_by_id}
use lambs_server.Auth.Session.{
  Identity, bearer, check_row, check_token, super_only, require_auth, require_super_admin,
}

-- The header carries a token of an active account, in the account's current version; the role is the
-- account's, whatever the token says.
pub record IsCurrent (jwt : Jwt) (us : List Account) (header : Text) (who : Identity) : Type 0 where
  pub claims : Claims
  pub row : Account
  pub prefix : has_prefix header bearer ≡ true
  pub parsed : jwt.parse (trim_prefix header bearer) ≡ some claims
  pub found : user_by_id claims.user_id us ≡ some row
  pub is_active : row.status ≡ active
  pub version : claims.tv ≡ some row.token_version
  pub user_id : who.user_id ≡ claims.user_id
  pub username : who.username ≡ claims.username
  pub role : who.role ≡ row.role

pub not_empty : (header : Text) → has_prefix header bearer ≡ true → (header == codes "") ≡ false
unfolding has_prefix text_beq
not_empty [] e = cc
not_empty (x ∷ xs) e = refl

module _ (jwt : Jwt) (us : List Account) (header : Text) (who : Identity) where
  check_row_sound :
      (claims : Claims) (row : Account)
      → has_prefix header bearer ≡ true
      → jwt.parse (trim_prefix header bearer) ≡ some claims
      → user_by_id claims.user_id us ≡ some row
      → check_row claims (some row) ≡ ok who
      → IsCurrent jwt us header who
  unfolding check_row
  check_row_sound claims row prefix parsed found e = record {
    claims = claims;
    row = row;
    prefix = prefix;
    parsed = parsed;
    found = found;
    is_active = ground (arith, eq_iff row.status active);
    version = ground arith;
    user_id = ground arith;
    username = ground arith;
    role = ground arith;
  }

  -- What stands behind the tests on the header.
  header_lem :
      (down : Bool)
      → require_auth jwt down us header ≡ ok who
      → (has_prefix header bearer ≡ true)
        × (check_token down us (jwt.parse (trim_prefix header bearer)) ≡ ok who)
  unfolding require_auth
  header_lem down e = ground arith

  check_token-row :
      (down : Bool) (o : Option Claims)
      → check_token down us o ≡ ok who
      → (claims : Claims) × (o ≡ some claims)
        × (check_row claims (query_row down (user_by_id claims.user_id us)) ≡ ok who)
  unfolding check_token
  check_token-row down none e = cc
  check_token-row down (some claims) e = (claims, refl, e)

  query-row :
      (down : Bool) (claims : Claims) (o : Option Account)
      → check_row claims (query_row down o) ≡ ok who
      → (row : Account) × (down ≡ false) × (o ≡ some row) × (check_row claims (some row) ≡ ok who)
  unfolding query_row
  query-row true claims o e = unfold check_row in cc
  query-row false claims none e = unfold check_row in cc
  query-row false claims (some row) e = (row, refl, refl, e)

  require_auth_sound :
      (down : Bool)
      → require_auth jwt down us header ≡ ok who
      → (down ≡ false) × IsCurrent jwt us header who
  require_auth_sound down e =
      let (prefix, token) = header_lem down e in
      let (claims, parsed, read) = check_token-row down _ token in
      let (row, up, found, checked) = query-row down claims _ read in
      (up, check_row_sound claims row prefix parsed found checked)

  require_auth_complete : IsCurrent jwt us header who → require_auth jwt false us header ≡ ok who
  unfolding require_auth check_token query_row check_row
  require_auth_complete c =
      rw (not_empty header c.prefix, c.prefix, c.parsed, c.found)
        (ground (
          arith,
          c.is_active,
          c.version,
          c.user_id,
          c.username,
          c.role,
          eq_iff c.row.status active,
        ))

  -- The handler behind RequireAuth is called, as this identity, if and only if the query succeeds and
  -- the header carries a token of an active account in the account's current version. The role is
  -- the one of the row, not the one of the token.
  pub require_auth_iff :
      (down : Bool)
      → (require_auth jwt down us header ≡ ok who) ↔ ((down ≡ false) × IsCurrent jwt us header who)
  require_auth_iff down = (require_auth_sound down, λ h. rw h.0 (require_auth_complete h.1))

  last_test : (w : Identity) → super_only w ≡ ok who → (who.role ≡ "super_admin") × (w ≡ who)
  unfolding super_only
  last_test w h = ground (arith, eq_iff w.role "super_admin")

  -- The handler behind RequireSuperAdmin is called only for an account whose row says super_admin.
  pub require_super_admin_sound :
      (down : Bool)
      → require_super_admin jwt down us header ≡ ok who
      → (who.role ≡ "super_admin") × (down ≡ false) × IsCurrent jwt us header who
  unfolding require_super_admin
  require_super_admin_sound down e =
      let (w, passed, last) = >>=-eq-ok (require_auth jwt down us header) _ e in
      let (super, same) = last_test w last in
      let (up, c) = require_auth_sound down (rw (← same) passed) in (super, up, c)
