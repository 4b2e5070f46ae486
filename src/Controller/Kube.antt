-- ===== src/Controller/Kube.antt =====
-- Kubernetes as the reconcilers see it: the fields that they read, and the calls, which are
-- parameters.
use netbox_herald.Base.{ℕ, String, Option, List, Exec}
use netbox_herald.Api.Status.{HeraldConfig, Condition}

-- `corev1.Node`
pub record Node : Type 0 where
  pub name : String
  pub uid : String
  pub pod_cidrs : List String

-- `corev1.Service`; `ingress_ips` are the `IP` fields of `status.loadBalancer.ingress`.
pub record Service : Type 0 where
  pub namespace : String
  pub name : String
  pub kind : String
  pub ingress_ips : List String

-- The client and the clock. A `Get` returns `none` for an error that `IsNotFound`.
pub record Kube (S : Type 0) : Type 0 where
  pub get_herald_config : String → Exec S (Option HeraldConfig)
  pub update_status : HeraldConfig → Exec S Unit
  pub get_node : String → Exec S (Option Node)
  pub list_nodes : Exec S (List Node)
  pub get_service : String → String → Exec S (Option Service)
  pub list_services : Exec S (List Service)
  pub get_namespace_uid : String → Exec S (Option String)
  -- the values of a Secret's `data`, by its namespace and name
  pub get_secret : String → String → Exec S (Option (List (String × String)))
  -- `metav1.Now()`
  pub now : S → ℕ
  -- `meta.SetStatusCondition`
  pub set_status_condition : Condition → List Condition → List Condition
