-- ===== src/Manager/Main.antt =====
-- `main` of cmd/main.go, after its flags are parsed. The calls of controller-runtime and of the
-- environment are parameters.
use netbox_herald.Base.{
  ℕ, String, Option, Result, ok, [], ◌∷◌, wrapped, Exec, gets, context, ◌>>=◌, ◌>>◌,
}
use netbox_herald.NetBox.Connect.{Libraries}
use netbox_herald.Controller.Kube.{Kube}
use netbox_herald.Controller.Common.{Request, Requeue}
use netbox_herald.Controller.HeraldConfigController.{Herald, outside, reconcile_config}
use netbox_herald.Controller.ClusterController.{reconcile_cluster}
use netbox_herald.Controller.NodeController.{reconcile_node}
use netbox_herald.Controller.ServiceController.{reconcile_service}
use netbox_herald.Controller.PodCidrController.{reconcile_pod_cidr}
use netbox_herald.Controller.Wiring.{
  Registration, setup_herald_config, setup_cluster, setup_node, setup_service, setup_pod_cidr,
}
use netbox_herald.Supernet.{IpNet}
use netbox_herald.Manager.Options.{
  Flags, ManagerOptions, manager_options, operator_namespace_or_default,
}

-- The five reconcilers. Each holds the one store of the process, which is not written out here.
pub data Reconciler : Type 0 where
  herald_config_reconciler : String → Reconciler
  cluster_reconciler : Reconciler
  node_reconciler : Reconciler
  service_reconciler : Reconciler
  pod_cidr_reconciler : Reconciler

-- controller-runtime's manager, whose state is part of `M`, and the environment.
pub record Runtime (S M : Type 0) : Type 0 where
  -- `ctrl.NewManager(ctrl.GetConfigOrDie(), …)`
  pub new_manager : ManagerOptions → Exec M Unit
  -- `Complete(r)` of a builder
  pub complete : Registration S → Reconciler → Exec M Unit
  pub add_healthz_check : String → Exec M Unit
  pub add_readyz_check : String → Exec M Unit
  -- returns when the process is told to end
  pub start : Exec M Unit
  -- `os.Getenv`
  pub getenv : String → M → String

-- the registration of each reconciler by its SetupWithManager
module _ {S : Type 0} (kube : Kube S) where
  unfoldable pub registration : Reconciler → Registration S
  unfolding setup_herald_config setup_cluster setup_node setup_service setup_pod_cidr
  registration (herald_config_reconciler operator_namespace) = setup_herald_config
  registration cluster_reconciler = setup_cluster
  registration node_reconciler = setup_node kube
  registration service_reconciler = setup_service kube
  registration pod_cidr_reconciler = setup_pod_cidr kube

module _ {S M : Type 0} (kube : Kube S) (runtime : Runtime S M) where
  -- `(…).SetupWithManager(mgr)`, and what `main` says where it fails
  unfoldable pub setup_with_manager : Reconciler → Exec M Unit
  unfolding registration
  setup_with_manager r =
      context (wrapped "Failed to create controller" ((registration kube r).named ∷ []))
        (runtime.complete (registration kube r) r)

  -- An error is logged and ends the process with exit code 1.
  unfoldable pub main : Flags → Exec M Unit
  unfolding setup_with_manager manager_options operator_namespace_or_default
  main flags = do
    context (wrapped "Failed to start manager" []) (runtime.new_manager (manager_options flags))
    namespace ← gets (runtime.getenv "POD_NAMESPACE")
    setup_with_manager (herald_config_reconciler (operator_namespace_or_default namespace))
    setup_with_manager cluster_reconciler
    setup_with_manager node_reconciler
    setup_with_manager service_reconciler
    setup_with_manager pod_cidr_reconciler
    context (wrapped "Failed to set up health check" []) (runtime.add_healthz_check "healthz")
    context (wrapped "Failed to set up ready check" []) (runtime.add_readyz_check "readyz")
    context (wrapped "Failed to run manager" []) runtime.start

-- the exit code of the process
unfoldable pub exit_code : Result (Unit {0}) → ℕ
exit_code (ok tt) = 0
exit_code _ = 1

-- What `Complete` is given: the reconciler's Reconcile, on the store that all five share.
module _ {S : Type 0} (kube : Kube S) (libraries : Libraries S) (parse_ip : String → Option ℕ)
    (parse_cidr : String → Option IpNet) (show_net : IpNet → String) where
  unfoldable pub reconcile : Reconciler → Request → Exec (Herald S) Requeue
  unfolding reconcile_config reconcile_cluster reconcile_node reconcile_service reconcile_pod_cidr
  reconcile (herald_config_reconciler operator_namespace) request =
      reconcile_config kube libraries operator_namespace request.name
  reconcile cluster_reconciler request =
      λ h. outside (reconcile_cluster kube h.store request.name) h
  reconcile node_reconciler request =
      λ h. outside (reconcile_node kube h.store h.store request.name) h
  reconcile service_reconciler request = λ h.
      outside (reconcile_service parse_ip kube h.store h.store request.namespace request.name) h
  reconcile pod_cidr_reconciler request =
      λ h. outside (reconcile_pod_cidr parse_cidr show_net kube h.store h.store request.name) h
