-- ===== src/Sync/Resyncs.antt =====
-- A reconcile of a Service that is there returns and comes back, where the cluster and NetBox
-- answer every call.
use netbox_herald.Base.{
  ℕ, ◌≡◌, refl, String, false, not, ◌||◌, Option, none, some, List, [], ◌∷◌, Error, Exec, attempt,
}
use netbox_herald.Base.Int.{is_nonpositive}
use netbox_herald.Base.Triple.{Triple-context, Triple-attempt, Triple-if}
use netbox_herald.Api.Spec.{HeraldConfigSpec}
use netbox_herald.Api.Status.{HeraldConfig}
use netbox_herald.Config.{Store, get_store}
use netbox_herald.NetBox.Model.{Object, IpAddressData, NetBoxApi}
use netbox_herald.NetBox.Write.{delete_object, delete_all, count_managed}
use netbox_herald.NetBox.Services.{count_managed_service_ips, delete_service_ips}
use netbox_herald.Controller.Kube.{Kube, Service}
use netbox_herald.Controller.Common.{
  Requeue, requeue_after, resolve_managed_tag_slug, resolve_resync_interval,
}
use netbox_herald.Controller.SyncStatus.{write_status, status_of_found, sync_status}
use netbox_herald.Controller.Requeues.{resolve_resync_interval_positive}
use netbox_herald.Controller.ServiceController.{
  sync_services_status, report_services, service_qualifies, reconcile_live_service,
  reconcile_found_service, reconcile_service_with, reconcile_service,
}
use netbox_herald.Sync.Inspects.{Triple-inspect}
use netbox_herald.Sync.Works.{
  Returns, Works, IsUp, IsParsable, returned, then_, list_service_ips-Returns,
  sync_service_addresses_returns,
}

-- The Kubernetes API answers the calls that write a status.
pub record IsAnswering {S : Type 0} (kube : Kube S) : Type 0 where
  pub get_herald_config_works : (name : String) → Works (kube.get_herald_config name)
  pub update_status_works : (cr : HeraldConfig) → Works (kube.update_status cr)

-- another reconcile after the resync interval, which is positive
abbrev pub IsResync : HeraldConfigSpec → Requeue → Type 0
IsResync spec r =
    (r ≡ requeue_after (resolve_resync_interval spec)) × (is_nonpositive r.after ≡ false)

handled :
    {S A B : Type 0} (P : B → Type 0) (m : Exec S A) (handle : Error → Exec S B) (k : A → Exec S B)
    → Works m
    → ((a : A) → Returns P (k a))
    → Returns P (attempt m handle k)
handled P m handle k tm tk =
    Triple-attempt {mid = λ _ _. Unit} {halt = λ _. ⊥} m handle k tm
      (λ e. record { run = λ s h. absurd h }) tk (λ s h. h)

module _ {S : Type 0} (client : NetBoxApi S) (up : IsUp client) (slug : String) where
  delete_all-Works :
      (deleting : String) (os : List (Object IpAddressData))
      → Works (delete_all client.ip_addresses deleting os)
  unfolding delete_all delete_object
  delete_all-Works deleting [] = returned _ tt tt
  delete_all-Works deleting (o ∷ os) =
      then_ _ _ _ _ (Triple-context _ (up.delete_works o.id)) λ _ _. delete_all-Works deleting os

  delete_service_ips-Works :
      (namespace name : String) → Works (delete_service_ips client slug namespace name)
  unfolding delete_service_ips
  delete_service_ips-Works namespace name =
      then_ _ _ _ _ (list_service_ips-Returns client up slug namespace name)
        λ os _. delete_all-Works _ os

  count_managed_service_ips-Works : Works (count_managed_service_ips client slug)
  unfolding count_managed_service_ips count_managed
  count_managed_service_ips-Works =
      then_ _ _ _ _ (Triple-context _ (up.list_works _)) λ p _. returned _ _ tt

module _ {S : Type 0} (kube : Kube S) (answers : IsAnswering kube) (later : Store S)
    (later_up : (client : NetBoxApi S) → later.client ≡ some client → IsUp client) (slug : String)
    (spec : HeraldConfigSpec) (sync_error : Option Error) where
  -- The count's error, if any, is part of the status.
  write_status-Works :
      (cr : HeraldConfig) (o : Option (NetBoxApi S))
      → ((client : NetBoxApi S) → o ≡ some client → IsUp client)
      → Works (
          write_status kube later
            (λ client. count_managed_service_ips client slug)
            spec.resources.services.enabled
            (λ status statuses. record statuses { services = status })
            sync_error
            cr
            o)
  unfolding write_status
  write_status-Works cr none ups = returned _ tt tt
  write_status-Works cr (some client) ups =
      Triple-inspect {halt = λ _. ⊥} _ _
        (count_managed_service_ips-Works client (ups client refl) slug)
        (λ n. record { run = λ s h. (answers.update_status_works _).run s tt })
        (λ e. record { run = λ s h. absurd h }) (λ s h. h)

  status_of_found-Works :
      (found : Option HeraldConfig)
      → Works (
          status_of_found kube later
            (λ client. count_managed_service_ips client slug)
            spec.resources.services.enabled
            (λ status statuses. record statuses { services = status })
            sync_error
            found)
  unfolding status_of_found get_store
  status_of_found-Works none = returned _ tt tt
  status_of_found-Works (some cr) = write_status-Works cr later.client later_up

  sync_services_status-Works : Works (sync_services_status kube later slug spec sync_error)
  unfolding sync_services_status sync_status
  sync_services_status-Works =
      then_ _ _ _ _ (answers.get_herald_config_works _) λ found _. status_of_found-Works found

module _ {S : Type 0} (kube : Kube S) (answers : IsAnswering kube) (later : Store S)
    (later_up : (client : NetBoxApi S) → later.client ≡ some client → IsUp client)
    (client : NetBoxApi S) (up : IsUp client) (spec : HeraldConfigSpec)
    (parse_ip : String → Option ℕ) where
  report_services-Resync : Returns (IsResync spec) (
      report_services parse_ip kube later spec
        (resolve_managed_tag_slug spec)
        (requeue_after (resolve_resync_interval spec))
        none)
  unfolding report_services
  report_services-Resync =
      then_ _ _ _ _ (sync_services_status-Works kube answers later later_up _ spec none)
        λ _ _. returned _ _ (refl, resolve_resync_interval_positive spec)

  reconcile_live_service-Resync :
      (svc : Service)
      → IsParsable client up (resolve_managed_tag_slug spec) parse_ip svc.ingress_ips
      → Returns (IsResync spec) (reconcile_live_service parse_ip kube later client spec svc)
  unfolding reconcile_live_service
  reconcile_live_service-Resync svc parses =
      Triple-if (service_qualifies parse_ip kube later spec svc) _ _
        (λ _.
          handled _ _ _ _ (sync_service_addresses_returns client up _ parse_ip svc parses)
            λ _. report_services-Resync)
        λ _.
          Triple-if
            (spec.resources.services.enabled || not spec.resources.services.retain_on_disable) _ _
            (λ _.
              handled _ _ _ _ (delete_service_ips-Works client up _ svc.namespace svc.name)
                λ _. report_services-Resync)
            λ _. report_services-Resync

  found_service-Resync :
      (namespace name : String) (found : Option Service)
      → (svc : Service) × (found ≡ some svc)
        × IsParsable client up (resolve_managed_tag_slug spec) parse_ip svc.ingress_ips
      → Returns
          (IsResync spec)
          (reconcile_found_service parse_ip kube later client spec namespace name found)
  unfolding reconcile_found_service
  found_service-Resync namespace name found (svc, is, parses) =
      rw is (reconcile_live_service-Resync svc parses)

  -- If the store holds a spec and a client, NetBox answers the calls of this client on tags and IP
  -- addresses and those of the client that the store holds when the status is written, the
  -- Kubernetes API answers the calls that write a status and returns the Service, and the parser
  -- accepts each of its ingress IPs that is not empty, then a reconcile of the Service returns
  -- from every state, with no error and no panic, and asks for another one after the resync
  -- interval, which is positive.
  pub reconcile_service-Returns :
      (store : Store S)
      → store.spec ≡ some spec
      → store.client ≡ some client
      → (namespace name : String)
      → Returns
          (λ found.
            (svc : Service) × (found ≡ some svc)
            × IsParsable client up (resolve_managed_tag_slug spec) parse_ip svc.ingress_ips)
          (kube.get_service namespace name)
      → Returns (IsResync spec) (reconcile_service parse_ip kube later store namespace name)
  unfolding reconcile_service reconcile_service_with get_store
  reconcile_service-Returns store has_spec has_client namespace name got =
      rw (has_spec, has_client)
        (then_ _ _ _ _ got λ found is. found_service-Resync namespace name found is)
