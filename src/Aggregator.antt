-- ===== src/Aggregator.antt =====
-- internal/aggregator: the debounce engine, and the sessions that turn batches into messages.
pub mod Keys
pub mod Clock
pub mod Engine
pub mod Content
pub mod Recipients
pub mod Backends
pub mod Session
