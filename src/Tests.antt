-- ===== src/Tests.antt =====
-- An instance of every hypothesis, and each theorem at a concrete input.
mod Memory
mod Specs
mod Supernets
mod Ensures
mod Services
mod Removals
mod Controllers
mod PodCidrs
mod Sequences
mod Managers
mod Resyncs
mod LiveNodes
mod Bootstraps
mod Counts
