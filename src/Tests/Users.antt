-- ===== src/Tests/Users.antt =====
-- Two accounts that share a project, with the toy bcrypt of the tests of accounts.
use lambs_server.Base.{Bool, false, String, some, [], ◌∷◌, ◌==◌, text_eq, string_eq}
use lambs_server.Base.Text.{codes}
use lambs_server.Auth.Model.{Account, Tables, Crypto, Jwt}
use lambs_server.Auth.Session.{Identity}
use lambs_server.Access.{Caller}
use lambs_server.Users.{ResetWorld, reset_password}
use lambs_server.Users.Reset.{Resetting, reset_password-Resetting}
use lambs_server.Users.Edit.{UserPatch, EditWorld, update_user_row}
use lambs_server.Users.Edit.Grants.{Edits, update_user_row-Edits}

abbrev crypto : Crypto
crypto = record {
  compares = λ h p. codes h == p;
  generate = λ seed p. some "digest";
  sha256_hex = λ t. codes "digest";
}

abbrev account : String → String → Account
account id role = record {
  id = id;
  username = id;
  email = "";
  password_hash = "digest";
  pwd_salt = codes "salt";
  role = role;
  status = "active";
  token_version = 3;
  last_login = 0;
  project_access = "p1" ∷ [];
}

abbrev tables : Tables
tables = record {
  users = account "u1" "super_admin" ∷ account "u2" "project_admin" ∷ [];
  audit = [];
}

abbrev jwt : Jwt
jwt = record {
  sign = λ c. some (codes "t");
  parse = λ t. some (record { user_id = "u2"; username = "u2"; role = "viewer"; tv = some 3 });
}

abbrev world : Bool → ResetWorld
world down_role = record {
  down_role = down_role;
  down_share = false;
  down_salt = false;
  down_update = false;
  down_audit = false;
  seed = 0;
}

abbrev super : Caller
super = record { user_id = "u1"; role = "super_admin" }

abbrev who : Identity
who = record { user_id = "u2"; username = "u2"; role = "project_admin" }

reset_password-Resetting_example :
    Resetting crypto
      (world false)
      super
      "u2"
      (codes "secret")
      tables
      (reset_password crypto (world false) super "u2" (codes "secret") tables)
reset_password-Resetting_example =
    reset_password-Resetting crypto (world false) super "u2" (codes "secret") tables

abbrev edit_world : EditWorld
edit_world = record {
  down_admin = false;
  down_salt = false;
  down_password = false;
  down_password_audit = false;
  down_update = false;
  down_audit = false;
  seed = 0;
}

abbrev disabling : UserPatch
disabling = record {
  username = "u2";
  email = "";
  role = "viewer";
  status = "disabled";
  project_access = some ("p1" ∷ []);
  password = [];
  old_password = [];
}

update_user_row-Edits_example :
    Edits "u2" disabling tables (update_user_row crypto edit_world super "u2" disabling tables)
update_user_row-Edits_example = update_user_row-Edits crypto edit_world super "u2" disabling tables

abbrev first : Identity
first = record { user_id = "u1"; username = "u1"; role = "super_admin" }

abbrev first_jwt : Jwt
first_jwt = record {
  sign = λ c. some (codes "t");
  parse = λ t. some (record { user_id = "u1"; username = "u1"; role = "viewer"; tv = some 3 });
}
