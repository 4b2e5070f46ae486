-- ===== src/Tests/Managers.antt =====
-- The process on a manager that only logs, and the reconcilers' returns at concrete inputs.
use netbox_herald.Base.{◌≡◌, refl, ap, String, List, [], ◌∷◌, ◌++◌, ok}
use netbox_herald.Base.Triple.{Triple}
use netbox_herald.Controller.Common.{Requeue, requeue_after, resolve_resync_interval}
use netbox_herald.Controller.NodeController.{count_nodes, reconcile_live_node}
use netbox_herald.Controller.Requeues.{
  ComesBack, node_work, service_work, reconcile_live_node-ComesBack,
  reconcile_live_service-ComesBack, reconcile_aggregates-ComesBack,
}
use netbox_herald.Server.Tables.{Db}
use netbox_herald.Manager.Options.{default_flags}
use netbox_herald.Manager.Main.{Runtime, main}
use netbox_herald.Manager.Laws.{
  Action, managed, controls, live_check, ready_check, ran, IsLogged, course, EndedEarly,
  main-course,
}
use netbox_herald.Controller.Common.{no_requeue, resolve_managed_tag_slug}
use netbox_herald.Controller.ServiceController.{reconcile_live_service}
use netbox_herald.Controller.PodCidrController.{
  count_pod_cidrs, sync_aggregates, reconcile_aggregates,
}
use netbox_herald.NetBox.Tags.{ensure_managed_tag}
use netbox_herald.NetBox.Services.{count_managed_service_ips}
use netbox_herald.NetBox.Nodes.{ensure_device, count_managed_devices}
use netbox_herald.NetBox.PodCidrs.{delete_pod_cidr_aggregate, count_managed_prefixes}
use netbox_herald.Supernet.{compute_supernets}
use netbox_herald.Config.{new_store}
use netbox_herald.Controller.Common.{Request}
use netbox_herald.Controller.HeraldConfigController.{Herald}
use netbox_herald.Manager.Main.{Reconciler, herald_config_reconciler, node_reconciler, reconcile}
use netbox_herald.Manager.Reach.{
  IsBootstrapped, started, configured, synced_node, Reached-IsBootstrapped,
}
use netbox_herald.Tests.Memory.{memory, fresh_db}
use netbox_herald.Tests.Controllers.{
  kube, spec, filled, web, worker, parse_none, parse_no_cidr, show_any, libraries,
}

abbrev recorder : Runtime Db (List (Action Db))
recorder = record {
  new_manager = λ options l. (ok tt, l ++ managed options ∷ []);
  complete = λ r c l. (ok tt, l ++ controls r c ∷ []);
  add_healthz_check = λ name l. (ok tt, l ++ live_check name ∷ []);
  add_readyz_check = λ name l. (ok tt, l ++ ready_check name ∷ []);
  start = λ l. (ok tt, l ++ ran ∷ []);
  getenv = λ key l. "herald-system";
}

abbrev environment : String → String
environment key = "herald-system"

abbrev same_log : List (Action Db) → List (Action Db)
same_log l = l

recorder-IsLogged : IsLogged same_log recorder environment
recorder-IsLogged = record {
  new_manager_logs = λ options l. record { run = λ s h. ap (λ k. k ++ managed options ∷ []) h };
  complete_logs = λ r c l. record { run = λ s h. ap (λ k. k ++ controls r c ∷ []) h };
  add_healthz_check_logs = λ name l. record { run = λ s h. ap (λ k. k ++ live_check name ∷ []) h };
  add_readyz_check_logs = λ name l. record { run = λ s h. ap (λ k. k ++ ready_check name ∷ []) h };
  start_logs = λ l. record { run = λ s h. ap (λ k. k ++ ran ∷ []) h };
  getenv_lem = λ key s. refl;
}

main-course_example :
    Triple
      (λ l. same_log l ≡ [])
      (main kube recorder default_flags)
      (λ _ l. l ≡ course kube default_flags "herald-system")
      (EndedEarly kube recorder same_log environment recorder-IsLogged default_flags)
main-course_example = main-course kube recorder same_log environment recorder-IsLogged default_flags

-- a Service with an ingress IP that does not parse
service_run :
    reconcile_live_service parse_none kube filled memory spec web fresh_db
    ≡ (ok no_requeue, (reconcile_live_service parse_none kube filled memory spec web fresh_db).1)
unfolding reconcile_live_service ensure_managed_tag count_managed_service_ips
service_run = refl

reconcile_live_service-ComesBack_example :
    ComesBack spec (service_work kube filled memory spec parse_none web fresh_db).0 no_requeue
reconcile_live_service-ComesBack_example =
    reconcile_live_service-ComesBack kube filled memory spec no_requeue fresh_db
      (reconcile_live_service parse_none kube filled memory spec web fresh_db).1 parse_none web
      service_run

-- a Node whose Device is created
abbrev resync : Requeue
resync = requeue_after (resolve_resync_interval spec)

node_run :
    reconcile_live_node kube filled memory spec worker fresh_db
    ≡ (ok resync, (reconcile_live_node kube filled memory spec worker fresh_db).1)
unfolding reconcile_live_node ensure_managed_tag ensure_device count_nodes count_managed_devices
node_run = refl

reconcile_live_node-ComesBack_example :
    ComesBack spec (node_work memory spec worker fresh_db) resync
reconcile_live_node-ComesBack_example =
    reconcile_live_node-ComesBack kube filled memory spec resync fresh_db
      (reconcile_live_node kube filled memory spec worker fresh_db).1 worker node_run

-- a cluster with no Node
aggregates_run :
    reconcile_aggregates parse_no_cidr show_any kube filled memory spec fresh_db
    ≡ (ok resync, (reconcile_aggregates parse_no_cidr show_any kube filled memory spec fresh_db).1)
unfolding reconcile_aggregates ensure_managed_tag compute_supernets delete_pod_cidr_aggregate
    count_pod_cidrs count_managed_prefixes
aggregates_run = refl

reconcile_aggregates-ComesBack_example :
    ComesBack spec
      (sync_aggregates parse_no_cidr show_any kube filled memory
        (resolve_managed_tag_slug spec)
        spec
        fresh_db).0
      resync
reconcile_aggregates-ComesBack_example =
    reconcile_aggregates-ComesBack kube filled memory spec resync fresh_db
      (reconcile_aggregates parse_no_cidr show_any kube filled memory spec fresh_db).1 parse_no_cidr
      show_any aggregates_run

abbrev asked : Request
asked = record { namespace = ""; name = "default" }

abbrev at_start : Herald Db
at_start = record { store = new_store; world = fresh_db }

abbrev operate : Reconciler → Herald Db → Herald Db
operate r h = (reconcile kube libraries parse_none parse_no_cidr show_any r asked h).1

Reached-IsBootstrapped_example :
    IsBootstrapped kube libraries "herald-system"
      (operate node_reconciler (operate (herald_config_reconciler "herald-system") at_start)).store
Reached-IsBootstrapped_example =
    Reached-IsBootstrapped kube libraries "herald-system" parse_none parse_no_cidr show_any
      (operate node_reconciler (operate (herald_config_reconciler "herald-system") at_start))
      (synced_node (operate (herald_config_reconciler "herald-system") at_start) asked
        (configured at_start asked (started fresh_db)))
