-- ===== src/Manager/Reach.antt =====
-- The states of the running process: the store that the reconcilers share, whatever they are
-- called for and in whatever order.
use mathlib.Core.Path.{subst}
use netbox_herald.Base.{
  ℕ, ◌≡◌, refl, sym, ◌⊎◌, inl, inr, String, Bool, true, false, Option, none, some, Result, ok, err,
  panic, continue, ◌>>=◌, pure, str_eq, if◌then◌else◌,
}
use netbox_herald.Api.Spec.{HeraldConfigSpec}
use netbox_herald.Api.Status.{HeraldConfig}
use netbox_herald.Config.{Store, new_store, set_store}
use netbox_herald.NetBox.Model.{NetBoxApi}
use netbox_herald.NetBox.Connect.{Libraries}
use netbox_herald.Supernet.{IpNet}
use netbox_herald.Controller.Kube.{Kube}
use netbox_herald.Controller.Common.{Request, no_requeue, singleton_name}
use netbox_herald.Controller.HeraldConfigController.{
  Herald, outside, set_shared, bootstrap, reconcile_found_config, reconcile_config,
}
use netbox_herald.Controller.Laws.{published, reconcile_found_config_store}
use netbox_herald.Manager.Main.{
  herald_config_reconciler, cluster_reconciler, node_reconciler, service_reconciler,
  pod_cidr_reconciler, reconcile,
}

module _ {S : Type 0} (kube : Kube S) (libraries : Libraries S) (operator_namespace : String) where
  -- The store is empty, or it holds a spec with a client that a bootstrap of that spec returned.
  abbrev pub IsBootstrapped : Store S → Type 0
  IsBootstrapped store =
      ((store.spec ≡ none) × (store.client ≡ none))
      ⊎ ((spec : HeraldConfigSpec) × (client : NetBoxApi S) × (version : String) × (w : S)
          × (store.spec ≡ some spec)
          × (store.client ≡ some client)
          × ((bootstrap kube libraries operator_namespace spec w).0 ≡ ok (client, version)))

  published-IsBootstrapped :
      (spec : HeraldConfigSpec) (r : Result (NetBoxApi S × String)) (store : Store S) (w : S)
      → (bootstrap kube libraries operator_namespace spec w).0 ≡ r
      → IsBootstrapped store
      → IsBootstrapped (published kube libraries operator_namespace spec r store)
  published-IsBootstrapped spec (ok (client, version)) store w e h =
      inr (spec, client, version, w, refl, refl, e)
  published-IsBootstrapped spec (err x) store w e h = inl (refl, refl)
  published-IsBootstrapped spec panic store w e h = h

  found-IsBootstrapped :
      (o : Option HeraldConfig) (h : Herald S)
      → IsBootstrapped h.store
      → IsBootstrapped (reconcile_found_config kube libraries operator_namespace o h).1.store
  unfolding reconcile_found_config set_shared set_store
  found-IsBootstrapped none h p = inl (refl, refl)
  found-IsBootstrapped (some cr) h p =
      subst IsBootstrapped
        (sym (reconcile_found_config_store kube libraries operator_namespace cr h))
        (published-IsBootstrapped cr.spec _ h.store h.world refl p)

  answered-IsBootstrapped :
      (r : Result (Option HeraldConfig)) (h : Herald S)
      → IsBootstrapped h.store
      → IsBootstrapped
          (continue r (reconcile_found_config kube libraries operator_namespace) h).1.store
  answered-IsBootstrapped (ok o) h p = found-IsBootstrapped o h p
  answered-IsBootstrapped (err e) h p = p
  answered-IsBootstrapped panic h p = p

  named-IsBootstrapped :
      (b : Bool) (name : String) (h : Herald S)
      → IsBootstrapped h.store
      → IsBootstrapped
          ((if b
              then (outside (kube.get_herald_config name)
                  >>= reconcile_found_config kube libraries operator_namespace)
              else pure no_requeue)
            h).1.store
  named-IsBootstrapped true name h p =
      answered-IsBootstrapped (kube.get_herald_config name h.world).0
        (record h { world = (kube.get_herald_config name h.world).1 }) p
  named-IsBootstrapped false name h p = p

  config-IsBootstrapped :
      (name : String) (h : Herald S)
      → IsBootstrapped h.store
      → IsBootstrapped (reconcile_config kube libraries operator_namespace name h).1.store
  unfolding reconcile_config
  config-IsBootstrapped name h p = named-IsBootstrapped (str_eq name singleton_name) name h p

  module _ (parse_ip : String → Option ℕ) (parse_cidr : String → Option IpNet)
      (show_net : IpNet → String) where
    -- The process starts with an empty store. Its reconcilers are called for any request, in any
    -- order, and between the calls the world changes.
    pub data Reached : Herald S → Type 0 where
      started : (w : S) → Reached (record { store = new_store; world = w })
      configured :
          (h : Herald S) (request : Request)
          → Reached h
          → Reached
              (reconcile kube libraries parse_ip parse_cidr show_net
                (herald_config_reconciler operator_namespace)
                request
                h).1
      synced_cluster :
          (h : Herald S) (request : Request)
          → Reached h
          → Reached
              (reconcile kube libraries parse_ip parse_cidr show_net cluster_reconciler request h).1
      synced_node :
          (h : Herald S) (request : Request)
          → Reached h
          → Reached
              (reconcile kube libraries parse_ip parse_cidr show_net node_reconciler request h).1
      synced_service :
          (h : Herald S) (request : Request)
          → Reached h
          → Reached
              (reconcile kube libraries parse_ip parse_cidr show_net service_reconciler request h).1
      synced_pod_cidr :
          (h : Herald S) (request : Request)
          → Reached h
          → Reached
              (reconcile kube libraries parse_ip parse_cidr show_net pod_cidr_reconciler request
                h).1
      changed : (h : Herald S) (w : S) → Reached h → Reached (record h { world = w })

    -- Start the process with an empty store, let each reconciler be called for any request, in any
    -- order, and let the world change in between: then the store is empty, or it holds a spec and
    -- a client that a bootstrap of this spec returned in some state of the world.
    pub Reached-IsBootstrapped : (h : Herald S) → Reached h → IsBootstrapped h.store
    unfolding reconcile new_store
    Reached-IsBootstrapped _ (started w) = inl (refl, refl)
    Reached-IsBootstrapped _ (configured h request r) =
        config-IsBootstrapped request.name h (Reached-IsBootstrapped h r)
    Reached-IsBootstrapped _ (synced_cluster h request r) = Reached-IsBootstrapped h r
    Reached-IsBootstrapped _ (synced_node h request r) = Reached-IsBootstrapped h r
    Reached-IsBootstrapped _ (synced_service h request r) = Reached-IsBootstrapped h r
    Reached-IsBootstrapped _ (synced_pod_cidr h request r) = Reached-IsBootstrapped h r
    Reached-IsBootstrapped _ (changed h w r) = Reached-IsBootstrapped h r
