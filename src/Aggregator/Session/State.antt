-- ===== src/Aggregator/Session/State.antt =====
-- internal/aggregator/session.go: the state of `SessionPublisher` and the values that `Upsert` gathers.
use argocd_notifier.Prelude.{ℕ, Bool, List, [], nat_eq}
use argocd_notifier.Text.{GoString, text_eq, bytes}
use argocd_notifier.Maps.{GoMap}
use argocd_notifier.Event.{Event}
use argocd_notifier.Notification.Build.{BuildError}
use argocd_notifier.Aggregator.Keys.{SessionKey, session_key_eq, RefKey, ref_key_eq}
use argocd_notifier.Aggregator.Clock.{Time, Duration}

-- A `DuplicateAction` is a string, and any string can be one.
abbrev pub duplicate_action_drop : GoString
duplicate_action_drop = bytes "drop"

abbrev pub duplicate_action_thread : GoString
duplicate_action_thread = bytes "thread"

pub record PublisherConfig : Type 0 where
  pub session_ttl : Duration
  pub duplicate_action : GoString

abbrev pub MessageRefs : Type 0
MessageRefs = GoMap RefKey GoString

pub record SessionState : Type 0 where
  pub per_app : GoMap GoString Event
  pub refs : MessageRefs
  pub last_flush : Time

-- The map holds pointers. `address` is the pointer's identity: a new session has a new one.
pub record Session : Type 0 where
  pub address : ℕ
  pub state : SessionState

pub record Publisher : Type 0 where
  pub sessions : GoMap SessionKey Session
  pub next_address : ℕ

abbrev pub new_publisher : Publisher
new_publisher = record { sessions = []; next_address = 0 }

pub data PublishError : Type 0 where
  build_failed : RefKey → BuildError → PublishError
  not_registered : GoString → PublishError
  no_interface : GoString → PublishError
  notify_failed update_failed post_failed reply_failed : RefKey → GoString → PublishError

-- What the loop over the events of a batch gathers.
pub record Merged : Type 0 where
  pub per_app : GoMap GoString Event
  pub duplicates : List Event
  pub changed : Bool

-- The local variables behind the first critical section.
pub record Begun : Type 0 where
  pub address : ℕ
  pub per_app : GoMap GoString Event
  pub refs : MessageRefs
  pub duplicates : List Event
  pub changed : Bool

-- What the loop over the destinations has done.
pub record Sent (W : Type 0) : Type 0 where
  pub world : W
  pub new_refs : MessageRefs
  pub errs : List PublishError
