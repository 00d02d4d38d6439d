-- ===== src/Auth/Forgot/Table.antt =====
-- Both handlers keep the table of codes in order.
use lambs_server.Base.{
  ℕ, ◌+◌, ◌<◌, ◌≡◌, refl, Bool, true, false, not, ◌&&◌, String, Option, none, some, List, ◌∷◌, ◌==◌,
  nat_eq, text_eq, arith,
}
use lambs_server.Base.Text.{Text}
use lambs_server.Store.{exec, query_row}
use lambs_server.Auth.Model.{Account, Crypto}
use lambs_server.Auth.Forgot.{
  CodeRow, ForgotTables, ForgotRequest, RequestWorld, VerifyRequest, VerifyWorld, is_open,
  open_code, retire, new_row, issue_code, request_user, request_trimmed, handle_forgot_request,
  active_user, bump, use_up, reset_account, new_payload, store_password, verify_row, verify_trimmed,
  trimmed, handle_forgot_verify,
}
use lambs_server.Auth.Forgot.Log.{
  IsLog, IsSingle, IsLog-bump, IsLog-use_up, IsLog-retire, IsSingle-bump, IsSingle-used,
  All-retired,
}

-- Ids in order below the next one, no code with more than five attempts, one open code for a name.
pub record IsTable (t : ForgotTables) : Type 0 where
  pub log : IsLog t.next_id t.rows
  pub single : IsSingle t.rows

module _ (mac : Text → Text) (c : Crypto) (w : VerifyWorld) (req : VerifyRequest) (t : ForgotTables)
    (ok' : IsTable t) where
  bumped :
      (row : CodeRow) (down : Bool)
      → open_code req.username req.email w.now t.rows ≡ some row
      → row.attempts < 5
      → IsTable (record t { rows = exec down (bump row.id) t.rows })
  unfolding exec open_code
  bumped row true e few = record { log = ok'.log; single = ok'.single }
  bumped row false e few = record {
    log = IsLog-bump (is_open req.username req.email w.now) t.next_id t.rows row e few ok'.log;
    single = IsSingle-bump row.id t.rows ok'.single;
  }

  used_up :
      (row : CodeRow) (down : Bool) (us : List Account)
      → open_code req.username req.email w.now t.rows ≡ some row
      → IsTable (record t { users = us; rows = exec down (use_up row.id) t.rows })
  unfolding exec open_code
  used_up row true us e = record { log = ok'.log; single = ok'.single }
  used_up row false us e = record {
    log = IsLog-use_up (is_open req.username req.email w.now) t.next_id t.rows row e ok'.log;
    single = unfold use_up in IsSingle-used (λ r. r.id == row.id) t.rows ok'.single;
  }

  store_password-IsTable :
      (row : CodeRow) (o : Option String)
      → open_code req.username req.email w.now t.rows ≡ some row
      → IsTable (store_password mac c w req row o t).0
  unfolding store_password
  store_password-IsTable row none e = ok'
  store_password-IsTable row (some hash) e =
      ground (arith, ok', used_up row w.down_used (reset_account req.username hash t.users) e)

  verify_row-IsTable :
      (o : Option CodeRow)
      → ((row : CodeRow) → o ≡ some row → open_code req.username req.email w.now t.rows ≡ some row)
      → IsTable (verify_row mac c w req o t).0
  unfolding verify_row
  verify_row-IsTable none e = ok'
  verify_row-IsTable (some row) e = ground (
    arith,
    ok',
    bumped row w.down_attempt (e row refl),
    store_password-IsTable row (c.generate w.seed (new_payload c w req t.users)) (e row refl),
  )

  verify_trimmed-IsTable : IsTable (verify_trimmed mac c w req t).0
  unfolding verify_trimmed
  verify_trimmed-IsTable =
      let inner =
        verify_row-IsTable (query_row w.down_select (open_code req.username req.email w.now t.rows))
          (λ row e. unfold query_row in ground arith) in
      ground (arith, ok', inner)

-- HandleForgotVerify keeps the table of codes in order, whatever it is sent and whatever fails; so a
-- code never has more than five attempts.
pub handle_forgot_verify-IsTable :
    (mac : Text → Text) (c : Crypto) (w : VerifyWorld) (req : Option VerifyRequest)
    (t : ForgotTables)
    → IsTable t
    → IsTable (handle_forgot_verify mac c w req t).0
unfolding handle_forgot_verify
handle_forgot_verify-IsTable mac c w none t h = h
handle_forgot_verify-IsTable mac c w (some req) t h =
    verify_trimmed-IsTable mac c w (trimmed req) t h

module _ (mac : Text → Text) (w : RequestWorld) (up : w.down_retire ≡ false) (t : ForgotTables)
    (ok' : IsTable t) where
  retired-IsSingle : (name : Text) → IsSingle (retire name t.rows)
  unfolding retire
  retired-IsSingle name = IsSingle-used (λ r. r.username == name && not r.used) t.rows ok'.single

  retired-IsTable : (name : Text) → IsTable (record t { rows = retire name t.rows })
  retired-IsTable name = record {
    log = IsLog-retire name t.next_id t.rows ok'.log;
    single = retired-IsSingle name;
  }

  added-IsTable :
      (req : ForgotRequest) (n : ℕ)
      → IsTable (record t {
        rows = new_row mac w req t.next_id n ∷ retire req.username t.rows;
        next_id = t.next_id + 1;
      })
  unfolding new_row
  added-IsTable req n = record {
    log = (omega arith, omega arith, IsLog-retire req.username t.next_id t.rows ok'.log);
    single = (All-retired (new_row mac w req t.next_id n) t.rows, retired-IsSingle req.username);
  }

  issue_code-IsTable : (req : ForgotRequest) (o : Option ℕ) → IsTable (issue_code mac w req o t).0
  unfolding issue_code exec
  issue_code-IsTable req none = ok'
  issue_code-IsTable req (some n) =
      ground (arith, up, retired-IsTable req.username, added-IsTable req n)

  request_user-IsTable :
      (req : ForgotRequest) (o : Option Account) → IsTable (request_user mac w req o t).0
  unfolding request_user
  request_user-IsTable req none = ok'
  request_user-IsTable req (some u) = ground (arith, ok', issue_code-IsTable req w.drawn)

  request_trimmed-IsTable : (req : ForgotRequest) → IsTable (request_trimmed mac w req t).0
  unfolding request_trimmed
  request_trimmed-IsTable req = ground (
    arith,
    ok',
    request_user-IsTable req (query_row w.down_user (active_user req.username req.email t.users)),
  )

-- HandleForgotRequest keeps the table of codes in order, where the statement that retires the older
-- codes does not fail.
pub handle_forgot_request-IsTable :
    (mac : Text → Text) (w : RequestWorld) (req : Option ForgotRequest) (t : ForgotTables)
    → w.down_retire ≡ false
    → IsTable t
    → IsTable (handle_forgot_request mac w req t).0
unfolding handle_forgot_request
handle_forgot_request-IsTable mac w none t up h = h
handle_forgot_request-IsTable mac w (some req) t up h = request_trimmed-IsTable mac w up t h _
