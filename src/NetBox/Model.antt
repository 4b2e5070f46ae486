-- ===== src/NetBox/Model.antt =====
-- The NetBox API as the code sees it through go-netbox: the models' fields that the code reads or
-- writes, and the calls, which are parameters.
use netbox_herald.Base.{ℕ, String, Bool, Option, List, Exec}

-- What encoding/json decodes into an `any`.
mutual
  pub data Value : Type 0 where
    null : Value
    boolean : Bool → Value
    number : ℕ → Value
    text : String → Value
    array : Items → Value
    -- `map[string]any`
    object : Fields → Value

  pub data Items : Type 0 where
    nil : Items
    item : Value → Items → Items

  pub data Fields : Type 0 where
    end : Fields
    field : String → Value → Fields → Fields

-- `models.Tag`; an `Option` is a pointer.
pub record Tag : Type 0 where
  pub id : ℕ
  pub name : Option String
  pub slug : Option String

-- the data of a created `models.Tag`
pub record TagData : Type 0 where
  pub name : Option String
  pub slug : Option String
  pub description : String
  pub color : String

-- `models.NestedTag`
pub record NestedTag : Type 0 where
  pub id : ℕ
  pub name : Option String
  pub slug : Option String

-- `models.CustomField`, and `models.WritableCustomField`
pub record CustomField : Type 0 where
  pub name : Option String

pub record CustomFieldData : Type 0 where
  pub name : Option String
  pub label : String
  pub description : String
  pub kind : String
  pub object_types : List String

-- What every object that Herald writes has, beside the attributes `A` of its kind.
pub record Body {ℓ} (A : Type ℓ) : Type ℓ where
  pub name : Option String
  pub tags : List NestedTag
  pub custom_fields : Value
  pub attributes : A

pub record Object {ℓ} (A : Type ℓ) : Type ℓ where
  pub id : ℕ
  pub body : Body A

-- `WithTag`, `WithName` and `WithLimit`
pub record Query : Type 0 where
  pub tag : Option String
  pub name : Option String
  pub limit : Option ℕ

-- the payload of a list call: `Count` and `Results`
pub record Page {ℓ} (A : Type ℓ) : Type ℓ where
  pub count : Option ℕ
  pub results : List (Object A)

-- The four calls on a kind of objects.
pub record Endpoint (S A : Type 0) : Type 0 where
  pub list : Query → Exec S (Page A)
  pub create : Body A → Exec S (Object A)
  pub update : ℕ → Body A → Exec S (Object A)
  pub delete : ℕ → Exec S Unit

-- An object of a kind that Herald only refers to, with its name (its model, for a device type).
pub record Reference : Type 0 where
  pub id : ℕ
  pub name : Option String

-- the attributes of `WritableDeviceWithConfigContext`
pub record DeviceData : Type 0 where
  pub device_type : ℕ
  pub role : ℕ
  pub site : ℕ

-- of `WritableVirtualMachineWithConfigContext`
pub record VirtualMachineData : Type 0 where
  pub cluster : ℕ
  pub platform : Option ℕ

-- of `WritableCluster`
pub record ClusterData : Type 0 where
  pub cluster_type : ℕ
  pub group : Option ℕ
  pub scope_type : Option String
  pub scope_id : Option ℕ

-- of `WritableIPAddress`
pub record IpAddressData : Type 0 where
  pub address : String
  pub description : String

-- of `WritablePrefix`
pub record PrefixData : Type 0 where
  pub prefix : String
  pub description : String

-- of `WritableAggregate`
pub record AggregateData : Type 0 where
  pub prefix : String
  pub rir : ℕ
  pub description : String

-- The authenticated client, `netboxclient.NetBoxAPI`, over a world `S`.
pub record NetBoxApi (S : Type 0) : Type 0 where
  pub status_list : Exec S Value
  pub tags_list : String → Exec S (List Tag)
  pub tags_create : TagData → Exec S Tag
  pub custom_fields_list : String → Exec S (List CustomField)
  pub custom_fields_create : CustomFieldData → Exec S CustomField
  pub sites : String → Exec S (List Reference)
  pub cluster_types : String → Exec S (List Reference)
  pub cluster_groups : String → Exec S (List Reference)
  pub device_roles : String → Exec S (List Reference)
  pub device_types : String → Exec S (List Reference)
  pub rirs : String → Exec S (List Reference)
  pub platforms : String → Exec S (List Reference)
  pub devices : Endpoint S DeviceData
  pub virtual_machines : Endpoint S VirtualMachineData
  pub clusters : Endpoint S ClusterData
  pub ip_addresses : Endpoint S IpAddressData
  pub prefixes : Endpoint S PrefixData
  pub aggregates : Endpoint S AggregateData
