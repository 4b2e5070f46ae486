-- ===== src/Controller/Common.antt =====
-- What the reconcilers share: the constants and resolve functions of heraldconfig_controller.go,
-- and the result of a reconcile.
use netbox_herald.Base.{
  ℕ, String, Bool, Option, none, some, str_eq, Error, Result, ok, err, panic, Exec, if◌then◌else◌,
}
use netbox_herald.Base.Int.{ℤ, pos, is_nonpositive, to_int32}
use netbox_herald.Api.Spec.{HeraldConfigSpec}
use netbox_herald.Api.Status.{ResourceSyncStatus}

abbrev pub singleton_name : String
singleton_name = "default"

abbrev pub default_managed_tag_slug : String
default_managed_tag_slug = "netbox-herald-managed"

unfoldable pub resolve_managed_tag_slug : HeraldConfigSpec → String
resolve_managed_tag_slug spec =
    if str_eq spec.netbox.managed_tag.slug ""
    then default_managed_tag_slug
    else spec.netbox.managed_tag.slug

-- Durations are nanoseconds.
abbrev pub store_not_ready_poll_interval : ℤ
store_not_ready_poll_interval = pos 10_000_000_000

abbrev pub default_resync_interval : ℤ
default_resync_interval = pos 300_000_000_000

unfoldable pub resolve_resync_interval : HeraldConfigSpec → ℤ
resolve_resync_interval spec =
    if is_nonpositive spec.resync.interval then default_resync_interval else spec.resync.interval

-- `ctrl.Result`
pub record Requeue : Type 0 where
  pub after : ℤ

-- `ctrl.Request`: the namespaced name of the object to reconcile
pub record Request : Type 0 where
  pub namespace : String
  pub name : String

-- `ctrl.Result{}`
abbrev pub no_requeue : Requeue
no_requeue = record { after = pos 0 }

abbrev pub requeue_after : ℤ → Requeue
requeue_after d = record { after = d }

-- `if count, err := …; err == nil { status.ObjectCount = int32(count) }`: an error leaves the zero.
abbrev pub counted : Result ℕ → ℤ
counted (ok n) = to_int32 n
counted _ = pos 0

-- `status.LastSyncTime` is set where there is no error.
abbrev pub sync_time : Option Error → ℕ → Option ℕ
sync_time none now = some now
sync_time (some e) now = none

-- The status that a sync attempt with the optional error leaves.
unfoldable pub attempt_status : Bool → ℕ → ℤ → Option Error → ℕ → ResourceSyncStatus
attempt_status enabled generation count e now = record {
  enabled = enabled;
  last_sync_time = sync_time e now;
  observed_generation = generation;
  object_count = count;
  last_error = e;
}

-- A call whose error is only looked at: it goes on with the result; a panic is none.
abbrev pub inspect_on : {S A B : Type 0} → Result A → (Result A → Exec S B) → Exec S B
inspect_on (ok a) k s = k (ok a) s
inspect_on (err e) k s = k (err e) s
inspect_on panic k s = (panic, s)

abbrev pub inspect : {S A B : Type 0} → Exec S A → (Result A → Exec S B) → Exec S B
inspect m k s = inspect_on (m s).0 k (m s).1
