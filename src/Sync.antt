-- ===== src/Sync.antt =====
-- What the calls of internal/netbox do to a lawful server.
pub mod Lookups
pub mod Ensure
pub mod Laws
pub mod Runs
pub mod Leaves
pub mod Deletes
pub mod Removals
pub mod Names
pub mod Prunes
pub mod Tags
pub mod Wanted
pub mod Owners
pub mod Registers
pub mod Families
pub mod StalePrefixes
pub mod Supernets
pub mod Addresses
pub mod Services
pub mod NodePrefixes
pub mod Status
pub mod Reconciles
pub mod PodCidrStates
pub mod PodCidrReconciles
pub mod Inspects
pub mod Settles
pub mod Counts
pub mod ClusterReconciles
pub mod NodeStates
pub mod LiveNodes
pub mod Resyncs
pub mod NodeReconciles
pub mod Works
