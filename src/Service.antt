-- ===== src/Service.antt =====
-- relayer/service.go: the relay service, one module for each of its parts.
pub mod State
pub mod Exec
pub mod Checkpointing
pub mod Fetcher
pub mod Epochs
pub mod Worker
pub mod Startup
pub mod System
pub mod Exchange
