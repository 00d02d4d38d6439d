-- ===== src/Projects/Update.antt =====
-- UpdateProject of internal/handlers/projects.go. `lower` is unicode.ToLower on one code point,
-- `marshal` is json.Marshal on a text, and `scale` the image library behind makeThumb: none is an
-- error.
pub mod Guarded
pub mod Updating
use mathlib.Core.Option
use lambs_server.Base.{
  ℕ, ◌+◌, Bool, true, false, not, ◌&&◌, ◌||◌, String, Option, none, some, List, [], ◌∷◌, ◌++◌,
  contains, if◌then◌else◌, ◌==◌, nat_eq, text_eq, string_eq, Result, ok, err, ◌>>=◌,
}
use lambs_server.Base.Text.{Text, codes, has_prefix, ℤ, pos, negsuc, atoi, lt_int}
use lambs_server.Store.{Project, Source, Service, no_project, exec, query_row}
use lambs_server.Access.{Member, Caller, super_admin, check_project_access}
use lambs_server.Projects.Sources.{SourceError, primary_datasource, normalize_datasources}
use lambs_server.Projects.Lifecycle.{Call, sync_nginx, Site, project_by_id, update_project, call}

-- The body of the request: a missing text is the empty one. `tags` is the JSON text of a value that
-- is sent and not null; the last four are none where the key is missing, and the two lists hold
-- what parseDatasources makes of the value.
pub record Patch : Type 0 where
  pub name : String
  pub description : String
  pub icon_url : Text
  pub stack : String
  pub port : Text
  pub db_type : Text
  pub dsn : Text
  pub base_path : Text
  pub service_name : String
  pub backend_url : Text
  pub startup_command : Text
  pub health_url : String
  pub offline_msg : String
  pub host : String
  pub git_url : String
  pub auto_update : Bool
  pub tags : Option String
  pub backup_interval_hours : Option ℕ
  pub backup_retention_days : Option ℕ
  pub datasources : Option (List Source)
  pub services : Option (List Service)

-- What a caller who is not super_admin must not write is emptied.
unfoldable pub shield : Caller → Patch → Patch
shield r m =
    if not (r.role == super_admin)
    then record m {
      dsn = [];
      startup_command = [];
      service_name = "";
      backend_url = [];
      health_url = "";
      port = [];
    }
    else m

port_number : Option ℤ → Bool
port_number none = false
port_number (some n) = not (lt_int n (pos 1) || lt_int (pos 65535) n)

-- The text is one of a port, as strconv.Atoi reads it.
unfoldable pub is_port : Text → Bool
unfolding port_number
is_port t = port_number (atoi t)

abbrev pub or_text : (sent current : Text) → Text
or_text sent current = if sent == [] then current else sent

abbrev pub or_string : (sent current : String) → String
or_string sent current = if sent == "" then current else sent

abbrev pub given {ℓ} : {A : Type ℓ} → Option A → A → A
given none current = current
given (some a) current = a

-- The primary source is mirrored by the columns `dsn` and `db_type`.
unfoldable pub with_primary : Option Source → Project → Project
with_primary none p = p
with_primary (some s) p = record p { dsn = given s.dsn p.dsn; db_type = given s.kind p.db_type }

unfoldable pub unique_services : (seen : List String) → List Service → List Service
unique_services seen [] = []
unique_services seen (s ∷ ss) =
    let skipped = unique_services seen ss in
    let added = unique_services (s.name ∷ seen) ss in
    if not (s.name == "") && not (contains seen s.name) then s ∷ added else skipped

-- The services that are sent count only for a super_admin.
unfoldable pub choose_services : Caller → Option (List Service) → Project → Project
unfolding unique_services
choose_services r none p = p
choose_services r (some ss) p =
    if r.role == super_admin then record p { services = unique_services [] ss } else p

unfoldable pub other_thumb : (icon : Text) → Option Text → Text
other_thumb icon none = []
other_thumb icon (some t) = if not (t == icon) then t else []

-- The UPDATE, from the values that are sent to it and the thumbnail.
unfoldable pub write_columns : Project → (thumb : Text) → Project → Project
write_columns p thumb q = record q {
  name = p.name;
  description = p.description;
  icon_url = p.icon_url;
  icon_thumb = or_text thumb q.icon_thumb;
  stack = p.stack;
  port = p.port;
  db_type = p.db_type;
  dsn = p.dsn;
  backend_url = p.backend_url;
  service_name = p.service_name;
  base_path = p.base_path;
  tags = p.tags;
  offline_msg = p.offline_msg;
  startup_command = p.startup_command;
  health_url = p.health_url;
  backup_interval_hours = p.backup_interval_hours;
  backup_retention_days = p.backup_retention_days;
  datasources = p.datasources;
  services = p.services;
  host = or_string p.host q.host;
  git_url = or_string p.git_url q.git_url;
  auto_update = p.auto_update;
}

-- Which statements fail.
pub record UpdateWorld : Type 0 where
  pub down_check : Bool
  pub down_read : Bool
  pub down_write : Bool

pub data UpdateReply : Type 0 where
  failure : ℕ → UpdateReply
  updated : UpdateReply

-- What is not sent keeps its current value.
unfoldable pub merge : (marshal : String → String) → Patch → (current : Project) → Project
merge marshal m cur = record no_project {
  name = or_string m.name cur.name;
  description = or_string m.description cur.description;
  icon_url = or_text (if has_prefix m.icon_url (codes "/") then [] else m.icon_url) cur.icon_url;
  stack = or_string m.stack cur.stack;
  port = or_text m.port cur.port;
  db_type = or_text m.db_type cur.db_type;
  dsn = or_text m.dsn cur.dsn;
  base_path = or_text m.base_path cur.base_path;
  service_name = or_string m.service_name cur.service_name;
  backend_url = or_text m.backend_url cur.backend_url;
  startup_command = or_text m.startup_command cur.startup_command;
  health_url = or_string m.health_url cur.health_url;
  offline_msg = or_string m.offline_msg cur.offline_msg;
  tags = given m.tags (marshal cur.tags);
  backup_interval_hours = given m.backup_interval_hours cur.backup_interval_hours;
  backup_retention_days = given m.backup_retention_days cur.backup_retention_days;
  datasources = cur.datasources;
  services = cur.services;
  host = m.host;
  git_url = m.git_url;
  auto_update = m.auto_update;
}

with_sources : Project → Result SourceError (List Source) → Result SourceError Project
unfolding with_primary
with_sources p (err e) = err e
with_sources p (ok ss) = ok (record (with_primary (primary_datasource ss) p) { datasources = ss })

-- The datasources that are sent count only for a super_admin.
unfoldable pub choose_sources :
    (lower : ℕ → ℕ) → Caller → Option (List Source) → Project → Result SourceError Project
unfolding with_sources
choose_sources lower r none p = ok p
choose_sources lower r (some ss) p =
    if r.role == super_admin then with_sources p (normalize_datasources lower ss) else ok p

unfoldable pub icon_thumb : (scale : Text → Option Text) → (icon current : Text) → Text
unfolding other_thumb
icon_thumb scale icon current =
    if has_prefix icon (codes "data:") && not (icon == current)
    then other_thumb icon (scale icon)
    else []

write_row :
    (scale : Text → Option Text)
    → UpdateWorld
    → String
    → (current p : Project) → Site
    → Site × UpdateReply
unfolding icon_thumb write_columns call
write_row scale w id cur p s = if w.down_write then (s, failure 500) else (
  call (sync_nginx ∷ []) (record s {
    projects =
        update_project id (write_columns p (icon_thumb scale p.icon_url cur.icon_url)) s.projects;
  }),
  updated,
)

write_chosen :
    (scale : Text → Option Text)
    → UpdateWorld
    → Caller
    → String
    → Patch
    → (current : Project) → Result SourceError Project
    → Site
    → Site × UpdateReply
unfolding write_row choose_services
write_chosen scale w r id m cur (err e) s = (s, failure 400)
write_chosen scale w r id m cur (ok p) s =
    write_row scale w id cur (choose_services r m.services p) s

module _ (lower : ℕ → ℕ) (marshal : String → String) (scale : Text → Option Text) where
  update_read : UpdateWorld → Caller → String → Patch → Option Project → Site → Site × UpdateReply
  unfolding write_chosen merge choose_sources
  update_read w r id m none s = (s, failure 404)
  update_read w r id m (some cur) s =
      write_chosen scale w r id m cur (choose_sources lower r m.datasources (merge marshal m cur)) s

  update_valid : UpdateWorld → Caller → String → Patch → Site → Site × UpdateReply
  unfolding update_read query_row is_port
  update_valid w r id m s =
      if not (m.port == []) && not (is_port m.port)
      then (s, failure 400)
      else update_read w r id m (query_row w.down_read (project_by_id id s.projects)) s

  -- `body` is none where it does not decode.
  unfoldable pub update_project_row :
      UpdateWorld
      → List Member
      → Caller
      → String
      → (body : Option Patch) → Site
      → Site × UpdateReply
  unfolding update_valid shield
  update_project_row w us r id body s =
      if not (check_project_access w.down_check us r id)
      then (s, failure 403)
      else elim body [ none ↦ (s, failure 400) | some m ↦ update_valid w r id (shield r m) s ]
