-- ===== src/Sync/Counts.antt =====
-- The status that a sync attempt of a resource writes, on a lawful server: its count is that of the
-- managed objects.
use netbox_herald.Base.{ℕ, ◌<◌, ◌^◌, ◌≡◌, Bool, Option, some, Error, Exec, Result, ok, err, panic}
use netbox_herald.Base.Int.{ℤ, pos}
use netbox_herald.Base.Triple.{Triple}
use netbox_herald.Api.Status.{HeraldConfig, ResourceSyncStatus, ResourceStatuses}
use netbox_herald.Config.{Store}
use netbox_herald.NetBox.Model.{NetBoxApi}
use netbox_herald.Controller.Kube.{Kube}
use netbox_herald.Controller.Common.{singleton_name, sync_time}
use netbox_herald.Server.Tables.{Db}
use netbox_herald.Server.Laws.{At}

-- the HeraldConfig with another status of one resource
abbrev pub with_resource :
    (ResourceSyncStatus → ResourceStatuses → ResourceStatuses)
    → HeraldConfig
    → ResourceSyncStatus
    → HeraldConfig
with_resource set_field cr status = record cr {
  status = record cr.status { resources = set_field status cr.status.resources };
}

-- What the status says of `n` managed objects, from how the count of them ended.
abbrev pub IsCount : ℕ → Result ℕ → ℤ → Type 0
IsCount n (ok m) count = count ≡ pos n
IsCount n (err e) count = count ≡ pos 0
IsCount n panic count = ⊥

module _ {S : Type 0} (db : S → Db) (seen : S → HeraldConfig) (cr : HeraldConfig) (d : Db) where
  -- From the end of the count of `n` objects: the HeraldConfig that is seen has the status of the
  -- attempt and is otherwise as it was.
  abbrev pub IsReported :
      Result ℕ
      → ℕ
      → ℕ
      → Bool
      → (ResourceSyncStatus → ResourceStatuses → ResourceStatuses)
      → Option Error
      → S
      → Type 0
  IsReported counting now n enabled set_field e s =
      (count : ℤ) × IsCount n counting count
      × (seen s
          ≡ with_resource set_field cr (record {
            enabled = enabled;
            last_sync_time = sync_time e now;
            observed_generation = cr.generation;
            object_count = count;
            last_error = e;
          }))
      × (db s ≡ d)

module _ {S : Type 0} (db : S → Db) (kube : Kube S) (seen : S → HeraldConfig) (cr : HeraldConfig)
    (d : Db)
    (got : Triple
      (λ s. (db s ≡ d) × (seen s ≡ cr))
      (kube.get_herald_config singleton_name)
      (λ o s. (o ≡ some cr) × (db s ≡ d))
      (At db d))
    (updates : (cr' : HeraldConfig)
      → Triple (At db d) (kube.update_status cr') (λ _ s. (seen s ≡ cr') × (db s ≡ d)) (At db d))
    (later : Store S) (client : NetBoxApi S) (has : later.client ≡ some client) where
  module _ (count : NetBoxApi S → Exec S ℕ) (n : ℕ)
      (counts : Triple (At db d) (count client) (λ m s. (db s ≡ d) × (m ≡ n)) (At db d))
      (small : n < 2 ^ 31) (enabled : Bool)
      (set_field : ResourceSyncStatus → ResourceStatuses → ResourceStatuses)
      (e : Option Error) where
    -- `w` is the state in which the objects are counted.
    abbrev Reported : S → S → Type 0
    Reported w s =
        IsReported db seen cr d (count client w).0 (kube.now (count client w).1) n enabled set_field
          e s
