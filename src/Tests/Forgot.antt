-- ===== src/Tests/Forgot.antt =====
-- A forgotten password of the account of the tests of accounts.
use lambs_server.Base.{
  ℕ, ◌≡◌, ◌≤◌, refl, sym, ◌∙◌, ap, ◌↔◌, ◌⊎◌, inl, inr, Bool, true, false, String, Option, some,
  none, List, [], ◌∷◌, ◌++◌, if◌then◌else◌, ◌==◌, text_eq, eq_iff, arith, ok, err, Bool-cases,
}
use lambs_server.Base.Text.{Text, codes}
use lambs_server.Auth.Password.{wrap}
use lambs_server.Tests.Auth.{toy, ann}
use lambs_server.Auth.Forgot.{
  CodeRow, ForgotTables, ForgotRequest, RequestWorld, VerifyRequest, VerifyWorld, failure, trimmed,
  handle_forgot_request, handle_forgot_verify,
}
use lambs_server.Auth.Forgot.Reset.{handle_forgot_verify-once}
use lambs_server.Auth.Forgot.Table.{IsTable}

-- One open code, which is its own keyed digest here.
abbrev mac : Text → Text
mac t = t

abbrev forgot : ForgotTables
forgot = record {
  rows =
      record {
        id = 1;
        username = codes "ann";
        email = codes "ann@example.org";
        code = codes "000123";
        used = false;
        attempts = 4;
        created_at = 100;
        expires_at = 400;
      }
      ∷ [];
  next_id = 2;
  users = ann ∷ [];
}

forgot-IsTable : IsTable forgot
forgot-IsTable = record { log = (omega arith, omega arith, tt); single = (tt, tt) }

abbrev verify_world : VerifyWorld
verify_world = record {
  now = 200;
  down_select = false;
  down_recent = false;
  down_attempt = false;
  down_salt = false;
  down_update = false;
  down_used = false;
  seed = 0;
}

abbrev verify_request : VerifyRequest
verify_request = record {
  username = codes " ann";
  email = codes "ann@example.org";
  code = codes "000123";
  new_password = codes "secret3";
}

handle_forgot_verify-once_example :
    handle_forgot_verify mac toy verify_world
      (some verify_request)
      (handle_forgot_verify mac toy verify_world (some verify_request) forgot).0
    ≡ ((handle_forgot_verify mac toy verify_world (some verify_request) forgot).0, failure 400)
unfolding handle_forgot_verify lambs_server.Base.text_beq lambs_server.Base.Text.byte_len
    lambs_server.Store.query_row lambs_server.Auth.Forgot.open_code lambs_server.Base.find
    lambs_server.Base.Text.trim_space lambs_server.Auth.Forgot.recent_fails
    lambs_server.Auth.Forgot.new_payload wrap lambs_server.Auth.Password.is_sha256_hex
handle_forgot_verify-once_example =
    handle_forgot_verify-once mac toy verify_world verify_world verify_request verify_request forgot
      forgot-IsTable.single refl refl refl

abbrev request_world : RequestWorld
request_world = record {
  now = 300;
  down_user = false;
  down_last = false;
  down_retire = false;
  down_insert = false;
  drawn = some 42;
  mail_fails = false;
}

abbrev forgot_request : ForgotRequest
forgot_request = record { username = codes "ann"; email = codes "ann@example.org" }
