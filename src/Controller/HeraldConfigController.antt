-- ===== src/Controller/HeraldConfigController.antt =====
-- internal/controller/heraldconfig_controller.go
use netbox_herald.Base.{
  ℕ, String, Bool, true, false, Option, none, some, str_eq, Error, ok, Exec, pure, fail, gets,
  attempt, ◌>>=◌, ◌>>◌, inl, inr, if◌then◌else◌,
}
use netbox_herald.Api.Spec.{HeraldConfigSpec}
use netbox_herald.Api.Status.{HeraldConfig, Condition}
use netbox_herald.Config.{Store, set_store}
use netbox_herald.NetBox.Model.{NetBoxApi}
use netbox_herald.NetBox.Tags.{ensure_managed_tag}
use netbox_herald.NetBox.CustomFields.{ensure_external_id_custom_field}
use netbox_herald.NetBox.Connect.{Libraries, load_config, build_client, check_version}
use netbox_herald.Controller.Kube.{Kube}
use netbox_herald.Controller.Common.{
  Requeue, no_requeue, requeue_after, singleton_name, resolve_managed_tag_slug,
  resolve_resync_interval, inspect,
}

-- The operator: the store that its controllers share, and the world outside.
pub record Herald (S : Type 0) : Type 0 where
  pub store : Store S
  pub world : S

module _ {S : Type 0} where
  -- A call of the world, which leaves the store alone.
  abbrev pub outside : {A : Type 0} → Exec S A → Exec (Herald S) A
  outside m h = let (r, w) = m h.world in (r, record h { world = w })

  -- `r.Store.Set`
  unfoldable pub set_shared : Option HeraldConfigSpec → Option (NetBoxApi S) → Exec (Herald S) Unit
  unfolding set_store
  set_shared spec client h = (ok tt, record h { store = set_store h.store spec client })

abbrev pub reachable : Condition
reachable = record {
  kind = "NetBoxReachable";
  is_true = true;
  reason = "Connected";
  message = inl "Successfully connected to NetBox";
}

abbrev pub ready : Condition
ready = record {
  kind = "Ready";
  is_true = true;
  reason = "Connected";
  message = inl "Connected to NetBox; ready to sync enabled resources";
}

abbrev pub unreachable : Error → Condition
unreachable cause = record {
  kind = "NetBoxReachable";
  is_true = false;
  reason = "ConnectionFailed";
  message = inr cause;
}

abbrev pub not_ready : Condition
not_ready = record {
  kind = "Ready";
  is_true = false;
  reason = "NetBoxUnreachable";
  message = inl "Cannot sync any resources until NetBox is reachable";
}

module _ {S : Type 0} (kube : Kube S) where
  -- the status of a reconcile that went well
  unfoldable pub connected_config : HeraldConfig → String → ℕ → HeraldConfig
  connected_config cr version now = record cr {
    status = record cr.status {
      netbox = record { connected = true; version = version; last_checked_time = some now };
      conditions =
          kube.set_status_condition ready
            (kube.set_status_condition reachable cr.status.conditions);
    };
  }

  -- the status of one that did not
  unfoldable pub disconnected_config : HeraldConfig → Error → ℕ → HeraldConfig
  disconnected_config cr cause now = record cr {
    status = record cr.status {
      netbox = record { connected = false; version = ""; last_checked_time = some now };
      conditions =
          kube.set_status_condition not_ready
            (kube.set_status_condition (unreachable cause) cr.status.conditions);
    };
  }

  -- An error of the update is logged; the cause is returned.
  unfoldable pub report_unreachable : HeraldConfig → Error → Exec (Herald S) Requeue
  unfolding set_shared disconnected_config
  report_unreachable cr cause = do
    set_shared none none
    now ← gets (λ h. kube.now h.world)
    inspect (outside (kube.update_status (disconnected_config cr cause now))) (λ _. fail cause)

  module _ (libraries : Libraries S) (operator_namespace : String) where
    unfoldable pub version_of : NetBoxApi S → Bool → Exec S String
    unfolding check_version
    version_of client true = check_version libraries client
    version_of client false = pure ""

    -- Everything that has to go well before the store is filled: the client and the version.
    unfoldable pub bootstrap : HeraldConfigSpec → Exec S (NetBoxApi S × String)
    unfolding version_of
    bootstrap spec = do
      cfg ← load_config kube operator_namespace spec.netbox
      client ← build_client libraries cfg
      version ← version_of client spec.netbox.version_check.enabled
      ensure_managed_tag client (resolve_managed_tag_slug spec)
      ensure_external_id_custom_field client
      pure (client, version)

    unfoldable pub publish : HeraldConfig → NetBoxApi S × String → Exec (Herald S) Requeue
    unfolding set_shared connected_config
    publish cr (client, version) = do
      set_shared (some cr.spec) (some client)
      now ← gets (λ h. kube.now h.world)
      outside (kube.update_status (connected_config cr version now))
      pure (requeue_after (resolve_resync_interval cr.spec))

    unfoldable pub reconcile_found_config : Option HeraldConfig → Exec (Herald S) Requeue
    unfolding bootstrap publish report_unreachable set_shared
    reconcile_found_config none = do set_shared none none; pure no_requeue
    reconcile_found_config (some cr) =
        attempt (outside (bootstrap cr.spec)) (λ e. report_unreachable cr e) (λ c. publish cr c)

    -- `HeraldConfigReconciler.Reconcile` of a HeraldConfig's name
    unfoldable pub reconcile_config : String → Exec (Herald S) Requeue
    unfolding reconcile_found_config
    reconcile_config name =
        if str_eq name singleton_name
        then (do found ← outside (kube.get_herald_config name); reconcile_found_config found)
        else pure no_requeue
