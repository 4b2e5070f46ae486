-- ===== src/Controller/ServiceController.antt =====
-- internal/controller/service_controller.go
use netbox_herald.Base.{
  ℕ, ◌/◌, ◌^◌, ◌==◌, String, ◌<>◌, Bool, true, false, not, Option, none, some, List, [], ◌∷◌, ◌++◌,
  map, str_eq, ◌||◌, ◌&&◌, Error, message, wrapped, Result, ok, err, Exec, pure, context, attempt,
  ◌>>=◌, ◌>>◌, if◌then◌else◌,
}
use netbox_herald.Api.Spec.{HeraldConfigSpec}
use netbox_herald.Config.{Store, get_store}
use netbox_herald.NetBox.Model.{Tag, NetBoxApi}
use netbox_herald.NetBox.ExternalId.{external_id_for_service_address}
use netbox_herald.NetBox.Tags.{ensure_managed_tag}
use netbox_herald.NetBox.Services.{
  ensure_service_ip, list_service_ips, delete_service_ips, count_managed_service_ips,
}
use netbox_herald.Controller.Kube.{Kube, Service}
use netbox_herald.Controller.Common.{
  Requeue, Request, no_requeue, requeue_after, resolve_managed_tag_slug, resolve_resync_interval,
  store_not_ready_poll_interval,
}
use netbox_herald.Controller.SyncStatus.{sync_status}
use netbox_herald.Controller.Prune.{prune}

abbrev pub load_balancer : String
load_balancer = "LoadBalancer"

-- `net.IP.To4`, of the 16 bytes that `net.ParseIP` returns, as a number: an address below
-- ::ffff:0:0/96 is one of IPv4.
unfoldable pub is_to4 : ℕ → Bool
is_to4 ip = ip / 2 ^ 32 == 0xffff

module _ (parse_ip : String → Option ℕ) where
  -- `parse_ip` is `net.ParseIP`.
  unfoldable pub cidr_for_ip : String → Result String
  unfolding is_to4
  cidr_for_ip ip = elim (parse_ip ip) [
    | none ↦ err (message "invalid IP address %q" (ip ∷ []))
    | some parsed ↦ ok (if is_to4 parsed then ip <> "/32" else ip <> "/128")
  ]

  module _ {S : Type 0} (client : NetBoxApi S) where
    -- The turn of the loop for an IP that is not empty; the external id comes back.
    unfoldable pub ensure_address : Tag → Service → String → Exec S String
    unfolding cidr_for_ip
    ensure_address tag svc ip = do
      address ←
          context (wrapped "service %s/%s" (svc.namespace ∷ svc.name ∷ []))
            (λ s. (cidr_for_ip ip, s))
      let external_id = external_id_for_service_address svc.namespace svc.name ip
      ensure_service_ip client (record {
        address = address;
        description = "Kubernetes Service " <> (svc.namespace <> ("/" <> svc.name));
        external_id = external_id;
        managed_tag = tag;
      })
      pure external_id

    -- The loop over the ingresses; `desired` is `desiredExternalIDs`.
    unfoldable pub ensure_addresses :
        Tag → Service → List String → List String → Exec S (List String)
    unfolding ensure_address
    ensure_addresses tag svc [] desired = pure desired
    ensure_addresses tag svc (ip ∷ ips) desired = elim (str_eq ip "") [
      | true ↦ ensure_addresses tag svc ips desired
      | false ↦ do
        external_id ← ensure_address tag svc ip
        ensure_addresses tag svc ips (desired ++ external_id ∷ [])
    ]

    unfoldable pub sync_service_addresses : String → Service → Exec S Unit
    unfolding ensure_addresses
    sync_service_addresses slug svc = do
      tag ← ensure_managed_tag client slug
      desired ← ensure_addresses tag svc svc.ingress_ips []
      owned ← list_service_ips client slug svc.namespace svc.name
      prune client.ip_addresses "deleting NetBox IP address (id %d)" desired owned

-- `syncServicesStatus`, with the store as it is by then
unfoldable pub sync_services_status :
    {S : Type 0} → Kube S → Store S → String → HeraldConfigSpec → Option Error → Exec S Unit
unfolding sync_status
sync_services_status kube store slug spec =
    sync_status kube store (λ client. count_managed_service_ips client slug)
      spec.resources.services.enabled (λ status statuses. record statuses { services = status })

module _ {S : Type 0} (parse_ip : String → Option ℕ) (kube : Kube S) (later : Store S) where
  unfoldable pub report_services :
      HeraldConfigSpec → String → Requeue → Option Error → Exec S Requeue
  unfolding sync_services_status
  report_services spec slug requeue sync_error = do
    sync_services_status kube later slug spec sync_error
    pure requeue

  abbrev pub service_qualifies : HeraldConfigSpec → Service → Bool
  service_qualifies spec svc = spec.resources.services.enabled && str_eq svc.kind load_balancer

  unfoldable pub reconcile_live_service : NetBoxApi S → HeraldConfigSpec → Service → Exec S Requeue
  unfolding report_services sync_service_addresses
  reconcile_live_service client spec svc =
      let slug = resolve_managed_tag_slug spec in
      let resync = requeue_after (resolve_resync_interval spec) in
      if service_qualifies spec svc
      then attempt (sync_service_addresses parse_ip client slug svc)
          (λ e. report_services spec slug no_requeue (some e))
          (λ _. report_services spec slug resync none)
      else if spec.resources.services.enabled || not spec.resources.services.retain_on_disable
      then attempt (delete_service_ips client slug svc.namespace svc.name)
          (λ e. report_services spec slug no_requeue (some e))
          (λ _. report_services spec slug resync none)
      else report_services spec slug resync none

  unfoldable pub reconcile_found_service :
      NetBoxApi S → HeraldConfigSpec → String → String → Option Service → Exec S Requeue
  unfolding report_services reconcile_live_service
  reconcile_found_service client spec namespace name none =
      let slug = resolve_managed_tag_slug spec in
      attempt (delete_service_ips client slug namespace name)
        (λ e. report_services spec slug no_requeue (some e))
        (λ _. report_services spec slug no_requeue none)
  reconcile_found_service client spec namespace name (some svc) =
      reconcile_live_service client spec svc

  -- the test of `spec` and `netboxClient` for nil
  unfoldable pub reconcile_service_with :
      String → String → Option HeraldConfigSpec × Option (NetBoxApi S) → Exec S Requeue
  unfolding reconcile_found_service
  reconcile_service_with namespace name (some spec, some client) = do
    found ← kube.get_service namespace name
    reconcile_found_service client spec namespace name found
  reconcile_service_with namespace name _ = pure (requeue_after store_not_ready_poll_interval)

  -- `ServiceReconciler.Reconcile` of a namespaced name, on the store as it is at the start
  unfoldable pub reconcile_service : Store S → String → String → Exec S Requeue
  unfolding reconcile_service_with get_store
  reconcile_service store namespace name = reconcile_service_with namespace name (get_store store)

abbrev pub service_request : Service → Request
service_request svc = record { namespace = svc.namespace; name = svc.name }

-- `enqueueAllServices`: a request for each Service; an error leaves none.
unfoldable pub enqueue_all_services : {S : Type 0} → Kube S → Exec S (List Request)
enqueue_all_services kube =
    attempt kube.list_services (λ e. pure []) (λ services. pure (map service_request services))
