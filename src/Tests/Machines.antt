-- ===== src/Tests/Machines.antt =====
-- Two machines, one of which is not reached.
use lambs_server.Base.{
  ℕ, ◌≡◌, ◌⊎◌, refl, inl, Bool, true, false, ◌&&◌, String, ◌==◌, string_eq, List, [], ◌∷◌, any, ok,
}
use lambs_server.Base.Text.{codes}
use lambs_server.Projects.Hosts.{Machine}
use lambs_server.Machines.{Probes, reconcile_machines}
use lambs_server.Machines.Reconciled.{is_reached, reconcile_machines-alloc_host}

abbrev near : Machine
near = record {
  id = "near";
  role = codes "compute";
  ts_ip = "100.64.0.2";
  os = "ubuntu";
  arch = "amd64";
  status = "offline";
  mem_gb = 8;
  disk_gb = 100;
  cpu_cores = 4;
}

abbrev far : Machine
far = record near { id = "far"; ts_ip = "100.64.0.3"; status = "online"; mem_gb = 64 }

abbrev probes : Probes
probes = record {
  down_query = false;
  connects = λ ip port. ip == "100.64.0.2" && port == "22";
  down_update = λ id. false;
}

reconcile_machines-alloc_host_example :
    (◌≡◌ {A = String} "near" "lambs")
    ⊎ (any
          (λ m. m.id == "near" && is_reached probes m)
          (reconcile_machines probes (near ∷ far ∷ [])).0
        ≡ true)
unfolding reconcile_machines lambs_server.Projects.Hosts.alloc_host
    lambs_server.Projects.Hosts.largest lambs_server.Base.update_where
    lambs_server.Projects.Hosts.is_compute lambs_server.Base.Text.has_substring
reconcile_machines-alloc_host_example =
    reconcile_machines-alloc_host probes (near ∷ far ∷ []) false "auto" "near"
      (((λ e. (refl, refl)), ((λ e. cc e), tt)), (((λ e. cc e), ((λ e. (refl, refl)), tt)), tt))
      refl refl
