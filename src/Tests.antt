-- ===== src/Tests.antt =====
-- Concrete chains, nodes and caches, on which the results are tried.
pub mod World
mod Runs
mod Blocks
mod Checkpoints
mod Messages
mod Shared
mod Quorums
mod Chains
mod Verifier
mod Relays
mod Views
mod Startup
mod Transitions
mod System
mod Sends
mod Times
