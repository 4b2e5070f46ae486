-- ===== src/Api/Spec.antt =====
-- The spec of a HeraldConfig. A map is a list of its keys and values.
use netbox_herald.Base.{String, Bool, Option, List}
use netbox_herald.Base.Int.{ℤ}

-- `NodeMapping`; any other text is possible, and an empty one is the default.
abbrev pub node_mapping_device : String
node_mapping_device = "Device"

abbrev pub node_mapping_virtual_machine : String
node_mapping_virtual_machine = "VirtualMachine"

-- `PodCIDRRepresentation`; any text but the second means the first.
abbrev pub pod_cidr_representation_prefix : String
pod_cidr_representation_prefix = "Prefix"

abbrev pub pod_cidr_representation_aggregate : String
pod_cidr_representation_aggregate = "Aggregate"

pub record SecretKeyRef : Type 0 where
  pub name : String
  pub key : String

pub record TlsConfig : Type 0 where
  pub insecure_skip_verify : Bool
  pub ca_bundle_secret_ref : Option SecretKeyRef

pub record VersionCheckConfig : Type 0 where
  pub enabled : Bool

pub record ManagedTagConfig : Type 0 where
  pub slug : String

pub record NetBoxConfig : Type 0 where
  pub url : String
  pub token_secret_ref : SecretKeyRef
  pub tls : TlsConfig
  pub request_timeout_seconds : ℤ
  pub version_check : VersionCheckConfig
  pub managed_tag : ManagedTagConfig

-- The interval is in nanoseconds.
pub record ResyncConfig : Type 0 where
  pub interval : ℤ

pub record ClusterResourceConfig : Type 0 where
  pub enabled : Bool
  pub name : String
  pub cluster_type_name : String
  pub cluster_group_name : String
  pub site_name : String

pub record DeviceMappingConfig : Type 0 where
  pub device_role_name : String
  pub device_type_name : String
  pub site_name : String

pub record VirtualMachineMappingConfig : Type 0 where
  pub cluster_name : String
  pub platform_name : String

pub record NodesResourceConfig : Type 0 where
  pub enabled : Bool
  pub mapping : String
  pub retain_on_disable : Bool
  pub device : DeviceMappingConfig
  pub virtual_machine : VirtualMachineMappingConfig

pub record ServicesResourceConfig : Type 0 where
  pub enabled : Bool
  pub retain_on_disable : Bool

pub record PodCidrsResourceConfig : Type 0 where
  pub enabled : Bool
  pub retain_on_disable : Bool
  pub representation : String
  pub rir_name : String

-- a resource type that has no field of its own yet
pub record GenericResourceConfig : Type 0 where
  pub enabled : Bool
  pub retain_on_disable : Bool

pub record ResourcesConfig : Type 0 where
  pub cluster : ClusterResourceConfig
  pub nodes : NodesResourceConfig
  pub services : ServicesResourceConfig
  pub pod_cidrs : PodCidrsResourceConfig
  pub additional : List (String × GenericResourceConfig)

pub record HeraldConfigSpec : Type 0 where
  pub netbox : NetBoxConfig
  pub resync : ResyncConfig
  pub resources : ResourcesConfig
