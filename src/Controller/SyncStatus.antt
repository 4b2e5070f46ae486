-- ===== src/Controller/SyncStatus.antt =====
-- The status that the node, service and podcidr reconcilers write after a sync attempt:
-- `syncNodesStatus`, `syncServicesStatus` and `syncStatus` are this text with another count and
-- another field.
use netbox_herald.Base.{ℕ, Bool, Option, none, some, Error, Exec, pure, gets, ◌>>=◌}
use netbox_herald.Api.Status.{HeraldConfig, ResourceSyncStatus, ResourceStatuses}
use netbox_herald.Config.{Store, get_store}
use netbox_herald.NetBox.Model.{NetBoxApi}
use netbox_herald.Controller.Kube.{Kube}
use netbox_herald.Controller.Common.{singleton_name, counted, attempt_status, inspect}

module _ {S : Type 0} (kube : Kube S) (store : Store S) (count : NetBoxApi S → Exec S ℕ)
    (enabled : Bool) (set_field : ResourceSyncStatus → ResourceStatuses → ResourceStatuses)
    (sync_error : Option Error) where
  unfoldable pub with_status : HeraldConfig → ResourceSyncStatus → HeraldConfig
  with_status cr status = record cr {
    status = record cr.status { resources = set_field status cr.status.resources };
  }

  unfoldable pub write_status : HeraldConfig → Option (NetBoxApi S) → Exec S Unit
  unfolding with_status attempt_status
  write_status cr none = pure tt
  write_status cr (some client) = inspect (count client) λ counting. do
    now ← gets kube.now
    kube.update_status
        (with_status cr (attempt_status enabled cr.generation (counted counting) sync_error now))

  unfoldable pub status_of_found : Option HeraldConfig → Exec S Unit
  unfolding write_status get_store
  status_of_found none = pure tt
  status_of_found (some cr) = write_status cr (get_store store).1

  unfoldable pub sync_status : Exec S Unit
  unfolding status_of_found
  sync_status = do found ← kube.get_herald_config singleton_name; status_of_found found
