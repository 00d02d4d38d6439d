-- ===== src/Tests/Projects.antt =====
-- A project and a machine, and requests to change them.
use lambs_server.Base.{
  ℕ, ◌≡◌, refl, Bool, true, false, String, Option, some, none, List, [], ◌∷◌, Result, ok, err, All,
}
use mathlib.Core.List.{map}
use lambs_server.Base.Text.{Text, codes}
use lambs_server.Store.{Project, Source, no_project}
use lambs_server.Access.{Member, Caller}
use lambs_server.Projects.Sources.{normalize_datasources}
use lambs_server.Projects.Sources.Normal.{is_normal, mark_first, normalize_datasources-normal}
use lambs_server.Projects.Lifecycle.{
  Site, StatusWorld, DeleteWorld, patch_project_status, delete_project, next_status,
}
use lambs_server.Projects.Lifecycle.Switching.{Patched, patch_project_status-Patched}
use lambs_server.Projects.Lifecycle.Deletion.{Deleting, delete_project-Deleting}
use lambs_server.Projects.Update.{Patch, UpdateWorld, update_project_row}
use lambs_server.Projects.Update.Updating.{Updating, update_project_row-Updating}
use lambs_server.Projects.Hosts.{Machine}
use lambs_server.Projects.Creation.{Draft, CreateWorld, create_project, is_id}
use lambs_server.Projects.Creation.Created.{Creating, create_project-Creating}

abbrev shop : Project
shop = record no_project {
  id = "p1";
  name = "Shop";
  status = "offline";
  port = codes "3510";
  services = record { name = "redis"; start_cmd = "redis-server"; stop_cmd = "" } ∷ [];
}

abbrev site : Site
site = record { projects = shop ∷ []; notices = []; services = []; calls = [] }

abbrev team : List Member
team = record { id = "u2"; role = "project_admin"; project_access = "p1" ∷ [] } ∷ []

abbrev admin : Caller
admin = record { user_id = "u2"; role = "project_admin" }

abbrev machines : List Machine
machines =
    record {
      id = "m1";
      role = codes "compute";
      os = "ubuntu";
      status = "online";
      mem_gb = 32;
      disk_gb = 500;
      ts_ip = "100.64.0.2";
      arch = "amd64";
      cpu_cores = 8;
    }
    ∷ []

abbrev sources : List Source
sources =
    record { id = none; kind = none; dsn = some (codes "redis://cache"); is_primary = false } ∷ []

abbrev patch : Patch
patch = record {
  name = "Store";
  description = "";
  icon_url = [];
  stack = "";
  port = codes "80";
  db_type = [];
  dsn = codes "postgres://evil";
  base_path = [];
  service_name = "";
  backend_url = [];
  startup_command = codes "sh";
  health_url = "";
  offline_msg = "";
  host = "m1";
  git_url = "https://evil";
  auto_update = true;
  tags = none;
  backup_interval_hours = none;
  backup_retention_days = none;
  datasources = some sources;
  services = none;
}

abbrev status_world : StatusWorld
status_world = record {
  down_check = false;
  down_current = false;
  down_message = false;
  down_update = false;
  down_host = false;
  down_services = false;
  down_notice = false;
  nid = "n1";
}

abbrev delete_world : DeleteWorld
delete_world = record {
  down_check = false;
  down_services = false;
  down_free = false;
  down_delete = true;
}

abbrev update_world : UpdateWorld
update_world = record { down_check = false; down_read = false; down_write = false }

abbrev create_world : CreateWorld
create_world = record {
  database = none;
  ports = record { down = λ q. false; listens = λ p. true };
  machines = machines;
  down_machines = false;
  down_insert = false;
}

abbrev draft : Draft
draft = record { repo = "blog"; row = record no_project { name = "Blog"; datasources = sources } }

is_id_test : (is_id (codes "a.b-c_9") ≡ true) × (is_id (codes "../x") ≡ false)
unfolding is_id lambs_server.Base.text_beq lambs_server.Base.any
is_id_test = (refl, refl)

next_status_test :
    (next_status "offline" "" ≡ "maintenance")
    × (next_status "maintenance" "" ≡ "online")
    × (next_status "online" "" ≡ "offline")
unfolding next_status
next_status_test = (refl, refl, refl)

update_project_row-Updating_example : Updating admin patch "p1" site (
    update_project_row (λ c. c) (λ t. t) (λ t. none) update_world team admin "p1" (some patch) site)
update_project_row-Updating_example =
    update_project_row-Updating (λ c. c) (λ t. t) (λ t. none) update_world team admin patch "p1"
      site

create_project-Creating_example :
    Creating
      (λ c. c)
      create_world
      draft
      site
      (create_project (λ c. c) (λ t. none) create_world (some draft) site)
create_project-Creating_example =
    create_project-Creating (λ c. c) (λ t. none) create_world draft site

patch_project_status-Patched_example :
    Patched status_world "p1" "online" site
      (patch_project_status status_world team admin "p1" "online" "" site)
patch_project_status-Patched_example =
    patch_project_status-Patched status_world team admin "p1" "online" "" site

delete_project-Deleting_example :
    Deleting delete_world "p1" site (delete_project delete_world team admin "p1" site)
delete_project-Deleting_example = delete_project-Deleting delete_world team admin "p1" site

abbrev saved : List Source
saved =
    record {
      id = some (codes "ds1");
      kind = none;
      dsn = some (codes "redis://cache");
      is_primary = true;
    }
    ∷ []

normalize_datasources-normal_example :
    All (λ s. is_normal (λ c. c) s ≡ true) saved
    × (map (λ s. s.dsn) saved ≡ map (λ s. s.dsn) sources)
    × (map (λ s. s.is_primary) saved ≡ mark_first (map (λ s. s.is_primary) sources))
unfolding normalize_datasources lambs_server.Projects.Sources.normalize_all
    lambs_server.Projects.Sources.normalize_one lambs_server.Base.text_beq
    lambs_server.Projects.Sources.check_dsn_shape lambs_server.Base.Text.cut_text
    lambs_server.Base.contains lambs_server.Projects.Sources.scheme_of lambs_server.Base.Text.cut
    lambs_server.Projects.Sources.mark_primary lambs_server.Base.any lambs_server.Base.Text.itoa
normalize_datasources-normal_example = normalize_datasources-normal (λ c. c) sources saved refl
