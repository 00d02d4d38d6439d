-- ===== src/Machines.antt =====
-- internal/handlers/machines.go and the heartbeats of internal/runtime/nodes.go: the registry of
-- machines. Loads in per cent and the columns for tags, notes and the LAN are left out, and so is the
-- time of a row.
pub mod Reconciled
use lambs_server.Base.{
  ℕ, ◌<◌, Bool, true, false, not, ◌&&◌, ◌||◌, String, Option, none, some, List, [], ◌∷◌, any,
  filter, update_where, insert, ltb, if◌then◌else◌, ◌==◌, nat_eq, string_eq, text_eq,
}
use lambs_server.Base.Text.{Text, codes}
use lambs_server.Store.{exec}
use lambs_server.Projects.Hosts.{Machine}

-- `NodeLive`
pub record NodeLive : Type 0 where
  pub mem_used_mb : ℕ
  pub ts : ℕ

-- The table, and `liveMetrics`.
pub record Registry : Type 0 where
  pub machines : List Machine
  pub live : List (String × NodeLive)

-- The body of a heartbeat.
pub record Beat : Type 0 where
  pub id : String
  pub os : String
  pub arch : String
  pub cpu_cores : ℕ
  pub mem_gb : ℕ
  pub disk_gb : ℕ
  pub mem_used_mb : ℕ

pub data MachineReply : Type 0 where
  failure : (status : ℕ) → MachineReply
  done : (id : String) → MachineReply

-- `COALESCE(NULLIF($1,''),os)`
unfoldable pub or_old : (given old : String) → String
or_old given old = if given == "" then old else given

-- `CASE WHEN mem_gb=0 THEN $4 ELSE mem_gb END`
unfoldable pub fill : (given old : ℕ) → ℕ
fill given old = if old == 0 then given else old

-- The UPDATE of a heartbeat, on the row.
unfoldable pub fill_row : Beat → Machine → Machine
unfolding or_old fill
fill_row b m = record m {
  os = or_old b.os m.os;
  arch = or_old b.arch m.arch;
  cpu_cores = fill b.cpu_cores m.cpu_cores;
  mem_gb = fill b.mem_gb m.mem_gb;
  disk_gb = fill b.disk_gb m.disk_gb;
  status = "online";
}

-- `StoreLive`, and the statement where the body has a capacity.
unfoldable pub store_beat : (down : Bool) → (now : ℕ) → String → Beat → Registry → Registry
unfolding exec fill_row
store_beat down now id b s = record {
  live = insert id (record { mem_used_mb = b.mem_used_mb; ts = now }) s.live;
  machines =
      if not (b.os == "") || ltb 0 b.cpu_cores || ltb 0 b.mem_gb || ltb 0 b.disk_gb
      then exec down (update_where (λ m. m.id == id) (fill_row b)) s.machines
      else s.machines;
}

-- HandleHeartbeat: `expect` is MACHINE_HEARTBEAT_TOKEN, empty where it is unset, `token` what stands
-- behind "Bearer " in the header, and `lower` is `strings.ToLower`; none is a body that does not parse.
unfoldable pub handle_heartbeat :
    (lower : String → String)
    → (down : Bool) → (now : ℕ) → (expect : String) → (token : Option String) → Option Beat
    → Registry
    → Registry × MachineReply
unfolding store_beat
handle_heartbeat lower down now expect token body s =
    if expect == "" || not (elim token [ none ↦ false | some t ↦ t == expect ])
    then (s, failure 401)
    else elim body [
      | none ↦ (s, failure 400)
      | some b ↦
          if b.id == ""
          then (s, failure 400)
          else (store_beat down now (lower b.id) b s, done (lower b.id))
    ]

-- UpsertMachine, on the modelled columns; none is a body that does not parse.
unfoldable pub upsert : Machine → List Machine → List Machine
upsert m ms =
    if any (λ x. x.id == m.id) ms then update_where (λ x. x.id == m.id) (λ x. m) ms else m ∷ ms

unfoldable pub upsert_machine :
    (down : Bool) → Option Machine → List Machine → List Machine × MachineReply
unfolding upsert
upsert_machine down none ms = (ms, failure 400)
upsert_machine down (some m) ms =
    if m.id == ""
    then (ms, failure 400)
    else if down
    then (ms, failure 500)
    else (upsert m ms, done m.id)

-- `UPDATE machines SET status=$1 WHERE id=$2`
unfoldable pub set_machine_status : (id status : String) → List Machine → List Machine
set_machine_status id status ms =
    update_where (λ m. m.id == id) (λ m. record m { status = status }) ms

unfoldable pub patch_machine_status :
    (down : Bool) → String → (status : Option String) → List Machine → List Machine × MachineReply
unfolding set_machine_status
patch_machine_status down id none ms = (ms, failure 400)
patch_machine_status down id (some status) ms =
    if status == ""
    then (ms, failure 400)
    else if down
    then (ms, failure 500)
    else (set_machine_status id status ms, done id)

unfoldable pub delete_machine : (down : Bool) → String → List Machine → List Machine × MachineReply
delete_machine down id ms =
    if down then (ms, failure 500) else (filter (λ m. not (m.id == id)) ms, done id)

-- What ReconcileMachines meets: the query fails, `DialTimeout` connects to an address and a port, and
-- the statement for a machine fails.
pub record Probes : Type 0 where
  pub down_query : Bool
  pub connects : (ip port : String) → Bool
  pub down_update : String → Bool

-- The status that the probe of a machine gives.
unfoldable pub probed : Probes → Machine → String
probed w m =
    if w.connects m.ts_ip (if m.os == "windows" then "19527" else "22") then "online" else "offline"

-- The loop over the rows that were read; true is success.
unfoldable pub reconcile_all : Probes → List Machine → List Machine → List Machine × Bool
unfolding probed set_machine_status
reconcile_all w [] ms = (ms, true)
reconcile_all w (r ∷ rs) ms =
    let rest = reconcile_all w rs (set_machine_status r.id (probed w r) ms) in
    if w.down_update r.id then (ms, false) else rest

-- `ReconcileMachines`
unfoldable pub reconcile_machines : Probes → List Machine → List Machine × Bool
unfolding reconcile_all
reconcile_machines w ms = if w.down_query then (ms, false) else reconcile_all w ms ms
