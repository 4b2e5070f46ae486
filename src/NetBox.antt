-- ===== src/NetBox.antt =====
-- internal/netbox: the calls of the NetBox API, one module for each file.
pub mod Model
pub mod ExternalId
pub mod Tags
pub mod CustomFields
pub mod Refs
pub mod Write
pub mod Nodes
pub mod Cluster
pub mod Services
pub mod PodCidrs
pub mod Connect
pub mod Prefixes
