-- ===== src/Tests/Specs.antt =====
-- One object of each kind, as the reconcilers describe it.
use netbox_herald.Base.{some}
use netbox_herald.NetBox.Model.{Tag}
use netbox_herald.NetBox.Nodes.{DeviceNodeSpec, VirtualMachineNodeSpec}
use netbox_herald.NetBox.Cluster.{ClusterSpec}
use netbox_herald.NetBox.Services.{ServiceIpSpec}
use netbox_herald.NetBox.PodCidrs.{PodCidrPrefixSpec, PodCidrAggregateSpec}

abbrev pub managed_tag : Tag
managed_tag = record {
  id = 1;
  name = some "netbox-herald managed";
  slug = some "netbox-herald-managed";
}

abbrev pub web_spec : ServiceIpSpec
web_spec = record {
  address = "192.0.2.1/32";
  description = "Kubernetes Service default/web";
  external_id = "default/web/192.0.2.1";
  managed_tag = managed_tag;
}

abbrev pub prefix_spec : PodCidrPrefixSpec
prefix_spec = record {
  cidr = "10.244.0.0/24";
  description = "Kubernetes Node worker-1 pod CIDR";
  external_id = "worker-1/10.244.0.0/24";
  managed_tag = managed_tag;
}

abbrev pub aggregate_spec : PodCidrAggregateSpec
aggregate_spec = record {
  cidr = "10.244.0.0/23";
  rir_name = "RFC 1918";
  description = "Kubernetes pod CIDR aggregate (ipv4)";
  external_id = "cluster-pod-cidrs/ipv4";
  managed_tag = managed_tag;
}

abbrev pub device_spec : DeviceNodeSpec
device_spec = record {
  name = "worker-1";
  device_role_name = "node";
  device_type_name = "server";
  site_name = "berlin";
  external_id = "8a1f";
  managed_tag = managed_tag;
}

abbrev pub cluster_spec : ClusterSpec
cluster_spec = record {
  name = "production";
  cluster_type_name = "Kubernetes";
  cluster_group_name = "";
  site_name = "berlin";
  external_id = "77c0";
  managed_tag = managed_tag;
}

abbrev pub machine_spec : VirtualMachineNodeSpec
machine_spec = record {
  name = "worker-2";
  cluster_name = "production";
  platform_name = "";
  external_id = "9b2e";
  managed_tag = managed_tag;
}
