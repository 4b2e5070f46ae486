-- ===== src/Controller/Laws.antt =====
-- What the reconcile of a HeraldConfig does to the store, whatever the world answers.
use netbox_herald.Base.{
  ◌≡◌, refl, String, none, some, Error, Result, ok, err, panic, Exec, continue, attempt_on,
}
use netbox_herald.Api.Spec.{HeraldConfigSpec}
use netbox_herald.Api.Status.{HeraldConfig}
use netbox_herald.Config.{Store, set_store}
use netbox_herald.NetBox.Model.{NetBoxApi}
use netbox_herald.NetBox.Connect.{Libraries}
use netbox_herald.Controller.Kube.{Kube}
use netbox_herald.Controller.Common.{inspect_on}
use netbox_herald.Controller.HeraldConfigController.{
  Herald, set_shared, bootstrap, publish, report_unreachable, reconcile_found_config,
}

module _ {S A B : Type 0} where
  continue_store :
      (r : Result A) (f : A → Exec (Herald S) B) (h : Herald S)
      → ((a : A) → (f a h).1.store ≡ h.store)
      → (continue r f h).1.store ≡ h.store
  continue_store (ok a) f h e = e a
  continue_store (err x) f h e = refl
  continue_store panic f h e = refl

  inspect_store :
      (r : Result A) (k : Result A → Exec (Herald S) B) (h : Herald S)
      → ((x : Result A) → (k x h).1.store ≡ h.store)
      → (inspect_on r k h).1.store ≡ h.store
  inspect_store (ok a) k h e = e (ok a)
  inspect_store (err x) k h e = e (err x)
  inspect_store panic k h e = refl

module _ {S : Type 0} (kube : Kube S) (libraries : Libraries S) (operator_namespace : String) where
  -- The store after the HeraldConfig was found, from how the bootstrap of its spec ended.
  abbrev pub published : HeraldConfigSpec → Result (NetBoxApi S × String) → Store S → Store S
  published spec (ok (client, version)) store = record { spec = some spec; client = some client }
  published spec (err e) store = record { spec = none; client = none }
  published spec panic store = store

  publish_store :
      (cr : HeraldConfig) (c : NetBoxApi S × String) (h : Herald S)
      → (publish kube libraries operator_namespace cr c h).1.store
        ≡ record { spec = some cr.spec; client = some c.0 }
  unfolding publish set_shared set_store
  publish_store cr (client, version) h =
      continue_store (kube.update_status _ h.world).0 _ _ (λ _. refl)

  report_unreachable_store :
      (cr : HeraldConfig) (cause : Error) (h : Herald S)
      → (report_unreachable kube cr cause h).1.store ≡ record { spec = none; client = none }
  unfolding report_unreachable set_shared set_store
  report_unreachable_store cr cause h =
      inspect_store (kube.update_status _ h.world).0 _ _ (λ _. refl)

  attempt_store :
      (cr : HeraldConfig) (r : Result (NetBoxApi S × String)) (h : Herald S)
      → (attempt_on r
          (λ e. report_unreachable kube cr e)
          (λ c. publish kube libraries operator_namespace cr c)
          h).1.store
        ≡ published cr.spec r h.store
  attempt_store cr (ok c) h = publish_store cr c h
  attempt_store cr (err e) h = report_unreachable_store cr e h
  attempt_store cr panic h = refl

  -- After the reconcile of a found HeraldConfig the store holds its spec and the new client if the
  -- bootstrap succeeded, is empty if it failed, and is as it was if it panicked; a failing status
  -- update changes none of this.
  pub reconcile_found_config_store :
      (cr : HeraldConfig) (h : Herald S)
      → (reconcile_found_config kube libraries operator_namespace (some cr) h).1.store
        ≡ published cr.spec (bootstrap kube libraries operator_namespace cr.spec h.world).0 h.store
  unfolding reconcile_found_config
  reconcile_found_config_store cr h =
      attempt_store cr (bootstrap kube libraries operator_namespace cr.spec h.world).0
        (record h { world = (bootstrap kube libraries operator_namespace cr.spec h.world).1 })
