-- ===== src/Refinement/View.antt =====
-- The abstract state of NetBox, and how each table of the database shows in it.
use netbox_herald.Base.{ℕ, suc, ◌≡◌, refl, arith, String, List}
use netbox_herald.NetBox.Model.{
  Object, DeviceData, VirtualMachineData, ClusterData, IpAddressData, PrefixData, AggregateData,
}
use netbox_herald.Server.Tables.{
  Db, Table, devices_table, virtual_machines_table, clusters_table, ip_addresses_table,
  prefixes_table, aggregates_table,
}
use netbox_herald.Server.Registry.{Registry, registry}
use netbox_herald.Sync.Registers.{HasSpace, HasSpace-less}

-- What is registered of each kind.
pub record View : Type 0 where
  pub devices : Registry DeviceData
  pub virtual_machines : Registry VirtualMachineData
  pub clusters : Registry ClusterData
  pub ip_addresses : Registry IpAddressData
  pub prefixes : Registry PrefixData
  pub aggregates : Registry AggregateData

unfoldable pub view : String → Db → View
view slug d = record {
  devices = registry slug d.devices;
  virtual_machines = registry slug d.virtual_machines;
  clusters = registry slug d.clusters;
  ip_addresses = registry slug d.ip_addresses;
  prefixes = registry slug d.prefixes;
  aggregates = registry slug d.aggregates;
}

-- All six tables are.
pub record IsReady (page : ℕ) (slug : String) (n : ℕ) (d : Db) : Type 0 where
  pub devices_fit : HasSpace page slug n d.devices
  pub virtual_machines_fit : HasSpace page slug n d.virtual_machines
  pub clusters_fit : HasSpace page slug n d.clusters
  pub ip_addresses_fit : HasSpace page slug n d.ip_addresses
  pub prefixes_fit : HasSpace page slug n d.prefixes
  pub aggregates_fit : HasSpace page slug n d.aggregates

pub IsReady-less :
    (page : ℕ) (slug : String) (n : ℕ) (d : Db)
    → IsReady page slug (suc n) d
    → IsReady page slug n d
IsReady-less page slug n d r = record {
  devices_fit = HasSpace-less page slug (suc n) n d.devices (omega arith) r.devices_fit;
  virtual_machines_fit =
      HasSpace-less page slug (suc n) n d.virtual_machines (omega arith) r.virtual_machines_fit;
  clusters_fit = HasSpace-less page slug (suc n) n d.clusters (omega arith) r.clusters_fit;
  ip_addresses_fit =
      HasSpace-less page slug (suc n) n d.ip_addresses (omega arith) r.ip_addresses_fit;
  prefixes_fit = HasSpace-less page slug (suc n) n d.prefixes (omega arith) r.prefixes_fit;
  aggregates_fit = HasSpace-less page slug (suc n) n d.aggregates (omega arith) r.aggregates_fit;
}

-- One kind: its table, its map in the abstract state, and what a write of the table is there.
pub record Kind (A : Type 0) : Type 0 where
  pub table : Table A
  pub shown : View → Registry A
  pub show_as : Registry A → View → View
  pub shown-view : (slug : String) (d : Db) → shown (view slug d) ≡ registry slug (table.get d)
  pub view-put :
      (slug : String) (t : List (Object A)) (d : Db)
      → view slug (table.put t d) ≡ show_as (registry slug t) (view slug d)
  pub fit :
      (page : ℕ) (slug : String) (n : ℕ) (d : Db)
      → IsReady page slug n d
      → HasSpace page slug n (table.get d)
  pub put-IsReady :
      (page : ℕ) (slug : String) (n : ℕ) (t : List (Object A)) (d : Db)
      → IsReady page slug n d
      → HasSpace page slug n t
      → IsReady page slug n (table.put t d)

pub devices_view-put :
    (slug : String) (t : List (Object DeviceData)) (d : Db)
    → view slug (record d { devices = t }) ≡ record (view slug d) { devices = registry slug t }
unfolding view
devices_view-put slug t d = refl

pub devices_shown : (slug : String) (d : Db) → (view slug d).devices ≡ registry slug d.devices
unfolding view
devices_shown slug d = refl

abbrev pub devices_kind : Kind DeviceData
devices_kind = record {
  table = devices_table;
  shown = λ v. v.devices;
  show_as = λ r v. record v { devices = r };
  shown-view = devices_shown;
  view-put = devices_view-put;
  fit = λ page slug n d r. r.devices_fit;
  put-IsReady = λ page slug n t d r h. record {
    devices_fit = h;
    virtual_machines_fit = r.virtual_machines_fit;
    clusters_fit = r.clusters_fit;
    ip_addresses_fit = r.ip_addresses_fit;
    prefixes_fit = r.prefixes_fit;
    aggregates_fit = r.aggregates_fit;
  };
}

pub virtual_machines_view-put :
    (slug : String) (t : List (Object VirtualMachineData)) (d : Db)
    → view slug (record d { virtual_machines = t })
      ≡ record (view slug d) { virtual_machines = registry slug t }
unfolding view
virtual_machines_view-put slug t d = refl

pub virtual_machines_shown :
    (slug : String) (d : Db) → (view slug d).virtual_machines ≡ registry slug d.virtual_machines
unfolding view
virtual_machines_shown slug d = refl

abbrev pub virtual_machines_kind : Kind VirtualMachineData
virtual_machines_kind = record {
  table = virtual_machines_table;
  shown = λ v. v.virtual_machines;
  show_as = λ r v. record v { virtual_machines = r };
  shown-view = virtual_machines_shown;
  view-put = virtual_machines_view-put;
  fit = λ page slug n d r. r.virtual_machines_fit;
  put-IsReady = λ page slug n t d r h. record {
    devices_fit = r.devices_fit;
    virtual_machines_fit = h;
    clusters_fit = r.clusters_fit;
    ip_addresses_fit = r.ip_addresses_fit;
    prefixes_fit = r.prefixes_fit;
    aggregates_fit = r.aggregates_fit;
  };
}

pub clusters_view-put :
    (slug : String) (t : List (Object ClusterData)) (d : Db)
    → view slug (record d { clusters = t }) ≡ record (view slug d) { clusters = registry slug t }
unfolding view
clusters_view-put slug t d = refl

pub clusters_shown : (slug : String) (d : Db) → (view slug d).clusters ≡ registry slug d.clusters
unfolding view
clusters_shown slug d = refl

abbrev pub clusters_kind : Kind ClusterData
clusters_kind = record {
  table = clusters_table;
  shown = λ v. v.clusters;
  show_as = λ r v. record v { clusters = r };
  shown-view = clusters_shown;
  view-put = clusters_view-put;
  fit = λ page slug n d r. r.clusters_fit;
  put-IsReady = λ page slug n t d r h. record {
    devices_fit = r.devices_fit;
    virtual_machines_fit = r.virtual_machines_fit;
    clusters_fit = h;
    ip_addresses_fit = r.ip_addresses_fit;
    prefixes_fit = r.prefixes_fit;
    aggregates_fit = r.aggregates_fit;
  };
}

pub ip_addresses_view-put :
    (slug : String) (t : List (Object IpAddressData)) (d : Db)
    → view slug (record d { ip_addresses = t })
      ≡ record (view slug d) { ip_addresses = registry slug t }
unfolding view
ip_addresses_view-put slug t d = refl

pub ip_addresses_shown :
    (slug : String) (d : Db) → (view slug d).ip_addresses ≡ registry slug d.ip_addresses
unfolding view
ip_addresses_shown slug d = refl

abbrev pub ip_addresses_kind : Kind IpAddressData
ip_addresses_kind = record {
  table = ip_addresses_table;
  shown = λ v. v.ip_addresses;
  show_as = λ r v. record v { ip_addresses = r };
  shown-view = ip_addresses_shown;
  view-put = ip_addresses_view-put;
  fit = λ page slug n d r. r.ip_addresses_fit;
  put-IsReady = λ page slug n t d r h. record {
    devices_fit = r.devices_fit;
    virtual_machines_fit = r.virtual_machines_fit;
    clusters_fit = r.clusters_fit;
    ip_addresses_fit = h;
    prefixes_fit = r.prefixes_fit;
    aggregates_fit = r.aggregates_fit;
  };
}

pub prefixes_view-put :
    (slug : String) (t : List (Object PrefixData)) (d : Db)
    → view slug (record d { prefixes = t }) ≡ record (view slug d) { prefixes = registry slug t }
unfolding view
prefixes_view-put slug t d = refl

pub prefixes_shown : (slug : String) (d : Db) → (view slug d).prefixes ≡ registry slug d.prefixes
unfolding view
prefixes_shown slug d = refl

abbrev pub prefixes_kind : Kind PrefixData
prefixes_kind = record {
  table = prefixes_table;
  shown = λ v. v.prefixes;
  show_as = λ r v. record v { prefixes = r };
  shown-view = prefixes_shown;
  view-put = prefixes_view-put;
  fit = λ page slug n d r. r.prefixes_fit;
  put-IsReady = λ page slug n t d r h. record {
    devices_fit = r.devices_fit;
    virtual_machines_fit = r.virtual_machines_fit;
    clusters_fit = r.clusters_fit;
    ip_addresses_fit = r.ip_addresses_fit;
    prefixes_fit = h;
    aggregates_fit = r.aggregates_fit;
  };
}

pub aggregates_view-put :
    (slug : String) (t : List (Object AggregateData)) (d : Db)
    → view slug (record d { aggregates = t })
      ≡ record (view slug d) { aggregates = registry slug t }
unfolding view
aggregates_view-put slug t d = refl

pub aggregates_shown :
    (slug : String) (d : Db) → (view slug d).aggregates ≡ registry slug d.aggregates
unfolding view
aggregates_shown slug d = refl

abbrev pub aggregates_kind : Kind AggregateData
aggregates_kind = record {
  table = aggregates_table;
  shown = λ v. v.aggregates;
  show_as = λ r v. record v { aggregates = r };
  shown-view = aggregates_shown;
  view-put = aggregates_view-put;
  fit = λ page slug n d r. r.aggregates_fit;
  put-IsReady = λ page slug n t d r h. record {
    devices_fit = r.devices_fit;
    virtual_machines_fit = r.virtual_machines_fit;
    clusters_fit = r.clusters_fit;
    ip_addresses_fit = r.ip_addresses_fit;
    prefixes_fit = r.prefixes_fit;
    aggregates_fit = h;
  };
}
