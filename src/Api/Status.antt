-- ===== src/Api/Status.antt =====
-- The status of a HeraldConfig, and the resource itself.
use netbox_herald.Base.{ℕ, String, Bool, Option, List, Error, ◌⊎◌}
use netbox_herald.Base.Int.{ℤ}
use netbox_herald.Api.Spec.{HeraldConfigSpec}

-- `metav1.Condition`, as the code fills it in
pub record Condition : Type 0 where
  pub kind : String
  pub is_true : Bool
  pub reason : String
  -- a fixed text, or the text of an error
  pub message : String ⊎ Error

pub record NetBoxStatus : Type 0 where
  pub connected : Bool
  pub version : String
  pub last_checked_time : Option ℕ

-- `last_error` keeps the error whose text the source stores; `none` is the empty text.
pub record ResourceSyncStatus : Type 0 where
  pub enabled : Bool
  pub last_sync_time : Option ℕ
  pub observed_generation : ℕ
  pub object_count : ℤ
  pub last_error : Option Error

pub record ResourceStatuses : Type 0 where
  pub cluster : ResourceSyncStatus
  pub nodes : ResourceSyncStatus
  pub services : ResourceSyncStatus
  pub pod_cidrs : ResourceSyncStatus

pub record HeraldConfigStatus : Type 0 where
  pub conditions : List Condition
  pub netbox : NetBoxStatus
  pub resources : ResourceStatuses

-- Of the metadata, the code reads the generation.
pub record HeraldConfig : Type 0 where
  pub generation : ℕ
  pub spec : HeraldConfigSpec
  pub status : HeraldConfigStatus

pub record HeraldConfigList : Type 0 where
  pub items : List HeraldConfig
