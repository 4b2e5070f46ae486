-- ===== src/Server.antt =====
-- What NetBox documents of its REST API, as far as the code relies on it: hypotheses on the calls
-- of NetBox/Model.antt. No call of the operator's code is defined here.
pub mod Tables
pub mod Laws
pub mod Calls
pub mod Members
pub mod Upsert
pub mod Unique
pub mod Erase
pub mod Presence
pub mod Registry
