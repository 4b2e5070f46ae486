-- ===== src/Refinement.antt =====
-- The writes and deletions of internal/netbox, in any sequence and with any failures, against an
-- abstract state: for each kind of objects a map from external ids.
pub mod View
pub mod Calls
pub mod Runs
