-- ===== src/Slack.antt =====
-- internal/slack: the client of Slack's API, and how a message looks.
pub mod Client
pub mod Render
pub mod Template
pub mod Watcher
