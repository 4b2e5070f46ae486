-- ===== src/Sync/Status.antt =====
-- The status that a reconcile writes, on a lawful server: it changes nothing of NetBox.
use netbox_herald.Base.{
  ℕ, ◌≡◌, refl, String, Bool, Option, none, some, Error, Result, ok, err, Exec,
}
use mathlib.Core.Path.{subst}
use netbox_herald.Base.{sym}
use netbox_herald.Controller.Common.{Requeue}
use netbox_herald.Sync.Owners.{Triple-from}
use netbox_herald.Sync.Inspects.{Triple-inspect}
use netbox_herald.Base.Triple.{Triple-weaken, Triple, Triple-return, Triple-bind}
use netbox_herald.Api.Status.{HeraldConfig, ResourceSyncStatus, ResourceStatuses}
use netbox_herald.Config.{Store, get_store}
use netbox_herald.NetBox.Model.{NetBoxApi}
use netbox_herald.Controller.Kube.{Kube}
use netbox_herald.Controller.Common.{singleton_name, counted, attempt_status}
use netbox_herald.Controller.SyncStatus.{with_status, write_status, status_of_found, sync_status}
use netbox_herald.Server.Tables.{Db}
use netbox_herald.Server.Laws.{At}

-- No call of the Kubernetes API changes NetBox's database.
module _ {S : Type 0} (db : S → Db) where
  abbrev pub Reads : {A : Type 0} → Exec S A → Type 0
  Reads m = (d : Db) → Triple (At db d) m (λ _. At db d) (At db d)

  pub record IsApart (kube : Kube S) : Type 0 where
    pub get_herald_config_lem : (name : String) → Reads (kube.get_herald_config name)
    pub update_status_lem : (cr : HeraldConfig) → Reads (kube.update_status cr)
    pub get_service_lem : (namespace name : String) → Reads (kube.get_service namespace name)

  module _ (kube : Kube S) (apart : IsApart kube) (store : Store S) (count : NetBoxApi S → Exec S ℕ)
      (enabled : Bool) (set_field : ResourceSyncStatus → ResourceStatuses → ResourceStatuses)
      (sync_error : Option Error) where
    write_status-Reads :
        (cr : HeraldConfig) (o : Option (NetBoxApi S))
        → ((client : NetBoxApi S) → o ≡ some client → Reads (count client))
        → Reads (write_status kube store count enabled set_field sync_error cr o)
    unfolding write_status
    write_status-Reads cr none reads d = Triple-return _ λ s h. h
    write_status-Reads cr (some client) reads d =
        Triple-inspect {mid = λ _. At db d} {halt = At db d} (count client) _ (reads client refl d)
          (λ n. written (ok n)) (λ e. written (err e)) (λ s h. h)
      where
        written :
            (r : Result ℕ)
            → Triple
                (At db d)
                (λ s.
                  kube.update_status
                    (with_status kube store count enabled set_field sync_error cr
                      (attempt_status enabled cr.generation (counted r) sync_error (kube.now s)))
                    s)
                (λ _. At db d)
                (At db d)
        written r = record { run = λ s h. (apart.update_status_lem _ d).run s h }

    status_of_found-Reads :
        (o : Option HeraldConfig)
        → ((client : NetBoxApi S) → store.client ≡ some client → Reads (count client))
        → Reads (status_of_found kube store count enabled set_field sync_error o)
    unfolding status_of_found get_store
    status_of_found-Reads none reads d = Triple-return _ λ s h. h
    status_of_found-Reads (some cr) reads d = write_status-Reads cr store.client reads d

    pub sync_status-Reads :
        ((client : NetBoxApi S) → store.client ≡ some client → Reads (count client))
        → Reads (sync_status kube store count enabled set_field sync_error)
    unfolding sync_status
    sync_status-Reads reads d =
        Triple-bind _ _ (apart.get_herald_config_lem singleton_name d)
          λ found. status_of_found-Reads found reads d

  -- A report keeps what is known of the database.
  pub reported :
      (report : Exec S Requeue) (requeue : Requeue)
      → ((d : Db) → Triple (At db d) report (λ r s. (r ≡ requeue) × (db s ≡ d)) (At db d))
      → (P : Db → Type 0) (Q : Requeue → Db → Type 0) (R : Db → Type 0)
      → ((d : Db) → P d → Q requeue d)
      → ((d : Db) → P d → R d)
      → Triple (λ s. P (db s)) report (λ r s. Q r (db s)) (λ s. R (db s))
  reported report requeue t P Q R f g = Triple-from db {P = P} λ d p.
      Triple-weaken
        (λ r s h. subst (λ k. Q k (db s)) (sym h.0) (subst (Q requeue) (sym h.1) (f d p)))
        (λ s h. subst R (sym h) (g d p)) (t d)
