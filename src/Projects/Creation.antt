-- ===== src/Projects/Creation.antt =====
-- CreateProject of internal/handlers/projects.go. `lower` and `scale` are as in Projects.Update.
pub mod Port
pub mod Born
pub mod Created
use mathlib.Core.Option
use lambs_server.Base.{
  ℕ, ◌+◌, Bool, true, false, not, ◌&&◌, ◌||◌, String, Option, none, some, List, [], ◌∷◌, ◌++◌, any,
  leb, if◌then◌else◌, ◌==◌, nat_eq, text_eq, string_eq, Result, ok, err,
}
use lambs_server.Base.Text.{Text, codes, itoa}
use lambs_server.Store.{Project, Source, Service}
use lambs_server.Runtime.Ports.{Host, PortError, port_mgr, allocate}
use lambs_server.Projects.Sources.{SourceError, is_given, primary_datasource, normalize_datasources}
use lambs_server.Projects.Lifecycle.{
  Call, attach_services, start_proxy, start_process, deploy, create_database, sync_nginx, Site,
  call, is_remote,
}
use lambs_server.Projects.Update.{with_primary, unique_services, other_thumb}
use lambs_server.Projects.Hosts.{Machine, HostError, alloc_host}

-- The body of the request: the field `repo`, and the columns. There `tags` is the JSON text of the
-- value, "[]" where it is missing, and the two lists hold what parseDatasources makes of the value.
pub record Draft : Type 0 where
  pub repo : String
  pub row : Project

-- What the surroundings decide: the DSN that deploy.CreateDatabase returns, or none where it fails,
-- the ports, the table `machines`, and which statements fail.
pub record CreateWorld : Type 0 where
  pub database : Option Text
  pub ports : Host
  pub machines : List Machine
  pub down_machines : Bool
  pub down_insert : Bool

pub data CreateReply : Type 0 where
  failure : ℕ → CreateReply
  created : Project → CreateReply

is_id_char : ℕ → Bool
is_id_char c =
    leb b'a' c && leb c b'z'
    || leb b'A' c && leb c b'Z'
    || leb b'0' c && leb c b'9'
    || c == b'.'
    || c == b'_'
    || c == b'-'

-- `^[a-zA-Z0-9._-]+$`
unfoldable pub is_id : Text → Bool
unfolding is_id_char
is_id t = not (t == []) && not (any (λ c. not (is_id_char c)) t)

-- The id and the defaults.
unfoldable pub with_defaults : Draft → Project
with_defaults d = record d.row {
  id = if d.row.id == "" then d.repo else d.row.id;
  status = if d.row.status == "" then "online" else d.row.status;
  sort_order = if d.row.sort_order == 0 then 999 else d.row.sort_order;
  backup_interval_hours =
      if d.row.backup_interval_hours == 0 then 24 else d.row.backup_interval_hours;
}

is_missing : List Source → Bool
is_missing [] = true
is_missing (s ∷ ss) = false

-- The sources that are sent, or one for the DSN.
unfoldable pub sources_or_dsn : Project → List Source
unfolding is_given is_missing
sources_or_dsn p =
    if is_missing p.datasources && is_given p.dsn
    then record {
      id = some (codes "ds1");
      kind = some p.db_type;
      dsn = some p.dsn;
      is_primary = true;
    }
      ∷ []
    else p.datasources

-- What a new project that is online sets off.
unfoldable pub start_calls : Project → List Call
unfolding is_remote
start_calls p =
    if p.status == "online"
    then (if is_remote p.host
        then deploy p.id ∷ []
        else attach_services p.id ∷ start_proxy p.id ∷ start_process p.id ∷ [])
    else []

-- A second row with the id violates the primary key.
insert_row : CreateWorld → Project → Site → Site × CreateReply
unfolding call start_calls
insert_row w p s =
    if w.down_insert || any (λ q. q.id == p.id) s.projects
    then (s, failure 400)
    else (call (sync_nginx ∷ start_calls p) (record s { projects = p ∷ s.projects }), created p)

unfoldable pub new_thumb : (scale : Text → Option Text) → Text → Text
new_thumb scale icon = if icon == [] then [] else other_thumb icon (scale icon)

place :
    (scale : Text → Option Text)
    → CreateWorld
    → Project
    → Result HostError String
    → Site
    → Site × CreateReply
unfolding insert_row new_thumb
place scale w p (err why) s = (s, failure 400)
place scale w p (ok host) s =
    insert_row w (record p { host = host; icon_thumb = new_thumb scale p.icon_url }) s

-- A failed allocation leaves the port as it was sent.
with_port : Project → List Project × Result PortError ℕ → Site → Site × Project
with_port p (ps, err why) s = (record s { projects = ps }, p)
with_port p (ps, ok port) s = (record s { projects = ps }, record p { port = itoa port })

unfoldable pub choose_port : CreateWorld → Project → Site → Site × Project
unfolding with_port is_given
choose_port w p s =
    if is_given p.port then (s, p) else with_port p (allocate port_mgr w.ports p.id s.projects) s

unfoldable pub place_ported :
    (scale : Text → Option Text) → CreateWorld → Site × Project → Site × CreateReply
unfolding place
place_ported scale w (s, p) = place scale w p (alloc_host w.down_machines w.machines p.host) s

create_sourced :
    (scale : Text → Option Text)
    → CreateWorld
    → Project
    → Result SourceError (List Source)
    → Site
    → Site × CreateReply
unfolding place_ported choose_port
create_sourced scale w p (err why) s = (s, failure 400)
create_sourced scale w p (ok ss) s = place_ported scale w (
    choose_port w
      (record (with_primary (primary_datasource ss) p) {
        datasources = ss;
        services = unique_services [] p.services;
      })
      s)

module _ (lower : ℕ → ℕ) (scale : Text → Option Text) where
  create_provided : CreateWorld → Project → Site → Site × CreateReply
  unfolding create_sourced sources_or_dsn
  create_provided w p s =
      create_sourced scale w p (normalize_datasources lower (sources_or_dsn p)) s

  -- A PostgreSQL project without a DSN gets a database of its own.
  create_bare : CreateWorld → Project → (database : Option Text) → Site → Site × CreateReply
  unfolding create_provided call
  create_bare w p none s = (call (create_database p.id ∷ []) s, failure 400)
  create_bare w p (some dsn) s =
      create_provided w (record p { dsn = dsn }) (call (create_database p.id ∷ []) s)

  create_named : CreateWorld → Project → Site → Site × CreateReply
  unfolding create_bare is_given
  create_named w p s =
      if not (is_id (codes p.id))
      then (s, failure 400)
      else if p.db_type == codes "postgres" && not (is_given p.dsn)
      then create_bare w p w.database s
      else create_provided w p s

  -- `body` is none where it does not decode.
  unfoldable pub create_project : CreateWorld → (body : Option Draft) → Site → Site × CreateReply
  unfolding create_named with_defaults
  create_project w none s = (s, failure 400)
  create_project w (some d) s = create_named w (with_defaults d) s
