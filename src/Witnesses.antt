-- ===== src/Witnesses.antt =====
-- The theorems of the results, each at a concrete input.
mod Data
mod Engine
mod Session
mod Calls
mod Routing
mod Notification
mod Registry
mod Slack
mod Receiver
mod Core
mod OverHttp
mod Rollout
mod Leader
