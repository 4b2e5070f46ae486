-- ===== src/Controller.antt =====
-- internal/controller: the five reconcilers.
pub mod Kube
pub mod Common
pub mod SyncStatus
pub mod Prune
pub mod NodeController
pub mod ServiceController
pub mod PodCidrController
pub mod ClusterController
pub mod HeraldConfigController
pub mod Wiring
pub mod Requeues
pub mod Laws
pub mod Bootstraps
