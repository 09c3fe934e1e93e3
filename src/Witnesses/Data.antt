-- ===== src/Witnesses/Data.antt =====
-- Events and configurations for the examples.
use argocd_notifier.Prelude.{true, []}
use argocd_notifier.Prelude.Int.{pos}
use argocd_notifier.Text.{GoString, bytes}
use argocd_notifier.Event.{Event}
use argocd_notifier.Aggregator.Keys.{SessionKey, RefKey}
use argocd_notifier.Aggregator.Engine
use argocd_notifier.Aggregator.Session.{PublisherConfig}

abbrev pub group : GoString
group = bytes "g"

abbrev pub revision : GoString
revision = bytes "r"

-- An event of the group about an app.
abbrev pub event_about : GoString → GoString → GoString → Event
event_about app trigger recipient = record {
  group_key = group;
  app_name = app;
  trigger = trigger;
  revision = revision;
  recipient = recipient;
  backend = bytes "b";
  labels = [];
  target = [];
  health_status = [];
  sync_phase = bytes "Running";
  sync_status = [];
  operation_msg = bytes "m|n";
  repo_url = [];
  images = [];
  initiated_by = [];
  argocd_url = [];
  target_revision = [];
}

abbrev pub created : Event
created = event_about (bytes "x") (bytes "on-created") (bytes "c; d")

abbrev pub deployed : Event
deployed = event_about (bytes "y") (bytes "on-deployed") (bytes "c")

abbrev pub engine_config : Engine.Config
engine_config = record { idle_window = pos 10; max_wait = pos 100; combine_triggers = true }

abbrev pub publisher_config : PublisherConfig
publisher_config = record { session_ttl = pos 50; duplicate_action = bytes "drop" }

abbrev pub session : SessionKey
session = record { group_key = group; revision = revision; trigger = [] }

abbrev pub channel : RefKey
channel = record { backend = bytes "b"; recipient = bytes "c" }
