-- ===== src/Auth/Session/Stale.antt =====
-- Tokens of an older version.
use lambs_server.Base.{◌+◌, ◌≡◌, Bool, some, List, eq_iff, string_eq, text_eq, nat_eq, arith, err}
use lambs_server.Base.Text.{Text}
use lambs_server.Store.{query_row}
use lambs_server.Auth.Model.{Account, Jwt, active, user_by_id}
use lambs_server.Auth.Session.{Identity, check_row, check_token, require_auth}
use lambs_server.Auth.Session.Guard.{IsCurrent, not_empty}

-- A token that was accepted for an account is refused once the version in the row has moved on.
pub require_auth_stale :
    (jwt : Jwt) (header : Text) (us us' : List Account) (who : Identity) (row : Account)
    (down : Bool)
    → IsCurrent jwt us header who
    → user_by_id who.user_id us ≡ some row
    → (row' : Account) × (user_by_id who.user_id us' ≡ some row')
      × (row'.token_version ≡ row.token_version + 1)
    → require_auth jwt down us' header ≡ err 401
unfolding require_auth check_token query_row check_row
require_auth_stale jwt header us us' who row down c before (row', after, moved) =
    let found' : user_by_id c.claims.user_id us' ≡ some row' = rw (← c.user_id) after in
    let same : c.row ≡ row = cc (c.found, before, c.user_id) in
    rw (not_empty header c.prefix, c.prefix, c.parsed)
      (ground (arith, found', same, moved, c.version, eq_iff row'.status active))
