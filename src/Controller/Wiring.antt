-- ===== src/Controller/Wiring.antt =====
-- The SetupWithManager functions of internal/controller: what each reconciler is called for.
use netbox_herald.Base.{String, Bool, true, false, Option, none, some, List, Exec}
use netbox_herald.Controller.Kube.{Kube}
use netbox_herald.Controller.Common.{Request}
use netbox_herald.Controller.NodeController.{enqueue_all_nodes}
use netbox_herald.Controller.ServiceController.{enqueue_all_services}
use netbox_herald.Controller.PodCidrController.{enqueue_all_pod_cidr_nodes}

-- the kinds of Kubernetes objects that a controller is told of
pub data Watched : Type 0 where
  herald_config : Watched
  node : Watched
  service : Watched

-- What `ctrl.NewControllerManagedBy(mgr)` is given before `Complete`.
pub record Registration (S : Type 0) : Type 0 where
  -- `Named`
  pub named : String
  -- `For`, and whether with `GenerationChangedPredicate`
  pub for_kind : Watched
  pub for_generation_changed : Bool
  -- `Watches(&HeraldConfig{}, EnqueueRequestsFromMapFunc(…))` with `GenerationChangedPredicate`:
  -- the requests for a change of the HeraldConfig
  pub on_config_changed : Option (Exec S (List Request))

module _ {S : Type 0} where
  unfoldable pub setup_herald_config : Registration S
  setup_herald_config = record {
    named = "heraldconfig";
    for_kind = herald_config;
    for_generation_changed = true;
    on_config_changed = none;
  }

  unfoldable pub setup_cluster : Registration S
  setup_cluster = record {
    named = "cluster";
    for_kind = herald_config;
    for_generation_changed = true;
    on_config_changed = none;
  }

  module _ (kube : Kube S) where
    unfoldable pub setup_node : Registration S
    unfolding enqueue_all_nodes
    setup_node = record {
      named = "node";
      for_kind = node;
      for_generation_changed = false;
      on_config_changed = some (enqueue_all_nodes kube);
    }

    unfoldable pub setup_service : Registration S
    unfolding enqueue_all_services
    setup_service = record {
      named = "service";
      for_kind = service;
      for_generation_changed = false;
      on_config_changed = some (enqueue_all_services kube);
    }

    unfoldable pub setup_pod_cidr : Registration S
    unfolding enqueue_all_pod_cidr_nodes
    setup_pod_cidr = record {
      named = "podcidr";
      for_kind = node;
      for_generation_changed = false;
      on_config_changed = some (enqueue_all_pod_cidr_nodes kube);
    }
