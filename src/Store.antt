-- ===== src/Store.antt =====
-- The rows of the server's own PostgreSQL tables, with the columns that the modelled code reads or
-- writes, and statements that may fail. A statement that fails changes nothing and has no result.
use lambs_server.Base.{ℕ, String, Bool, false, Option, none, some, List, [], if◌then◌else◌}
use lambs_server.Base.Text.{Text}

-- An element of the column `datasources`: what its JSON object holds under "id", "type", "dsn" and
-- "is_primary", where a missing key or one of another type is none, and false for the last.
pub record Source : Type 0 where
  pub id : Option Text
  pub kind : Option Text
  pub dsn : Option Text
  pub is_primary : Bool

-- An element of the column `services`, with a missing text as the empty one.
pub record Service : Type 0 where
  pub name : String
  pub start_cmd : String
  pub stop_cmd : String

-- A row of `projects` without NULL, and without the columns for the repository, the icon's class,
-- statistics, features, tabs and times; `tags` is the text of its JSON.
pub record Project : Type 0 where
  pub id : String
  pub name : String
  pub description : String
  pub icon_url : Text
  pub icon_thumb : Text
  pub stack : String
  pub port : Text
  pub db_type : Text
  pub dsn : Text
  pub status : String
  pub sort_order : ℕ
  pub is_pinned : Bool
  pub base_path : Text
  pub backend_url : Text
  pub service_name : String
  pub startup_command : Text
  pub health_url : String
  pub tags : String
  pub offline_msg : String
  pub datasources : List Source
  pub services : List Service
  pub backup_interval_hours : ℕ
  pub backup_retention_days : ℕ
  pub host : String
  pub git_url : String
  pub auto_update : Bool

-- `var p models.Project`
abbrev pub no_project : Project
no_project = record {
  id = "";
  name = "";
  description = "";
  icon_url = [];
  icon_thumb = [];
  stack = "";
  port = [];
  db_type = [];
  dsn = [];
  status = "";
  sort_order = 0;
  is_pinned = false;
  base_path = [];
  backend_url = [];
  service_name = "";
  startup_command = [];
  health_url = "";
  tags = "[]";
  offline_msg = "";
  datasources = [];
  services = [];
  backup_interval_hours = 0;
  backup_retention_days = 0;
  host = "";
  git_url = "";
  auto_update = false;
}

-- `db.DB.Exec`, where `down` says that the statement fails.
unfoldable pub exec {ℓ} : {T : Type ℓ} → (down : Bool) → (T → T) → T → T
exec down change t = if down then t else change t

-- `db.DB.QueryRow(…).Scan(…)`: no row, or a failure, is an error.
unfoldable pub query_row {ℓ} : {A : Type ℓ} → (down : Bool) → Option A → Option A
query_row down row = if down then none else row

-- The same with the error ignored: the variable keeps its initial value.
unfoldable pub scan_or {ℓ} : {A : Type ℓ} → (down : Bool) → A → Option A → A
scan_or down default row = if down then default else elim row [ none ↦ default | some a ↦ a ]
