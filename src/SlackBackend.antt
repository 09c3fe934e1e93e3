-- ===== src/SlackBackend.antt =====
-- internal/slackbackend/handler.go: the endpoints of a backend's process. Both decode a body of at most
-- 1 MiB, act on the backend, and answer.
pub mod FromWire
pub mod Config
pub mod EndToEnd
pub mod OverHttp
pub mod Registrar
pub mod Process
use argocd_notifier.Prelude.{
  ℕ, ◌^◌, Option, none, some, List, [], ◌∷◌, ◌++◌, if◌then◌else◌, Bool, true, false,
}
use argocd_notifier.Text.{GoString, bytes, is_empty}
use argocd_notifier.Notification.{Notification}
use argocd_notifier.Aggregator.Backends.{Outcome, success, failure, Call}
use argocd_notifier.Wire.{NotifyRequest, ThreadReplyRequest}
use argocd_notifier.SlackBackend.FromWire.{from_wire_notification}

abbrev pub max_body_bytes : ℕ
max_body_bytes = 2 ^ 20

-- A notification.Backend, by the other interfaces that it may implement.
pub record Target (W : Type 0) : Type 0 where
  pub post : GoString → Notification → Call W GoString
  -- Updater
  pub update : Option (GoString → GoString → Notification → Call W (Unit {0}))
  -- ThreadReplier
  pub post_thread_reply : Option (GoString → GoString → GoString → Call W (Unit {0}))

-- What the handler writes: the status, and the JSON result's field `ref` or a text.
pub data Answer : Type 0 where
  notify_result : GoString → Answer
  http_error : ℕ → GoString → Answer
  no_content : Answer

module _ {W : Type 0} (target : Target W) where
  unfoldable pub answer_update : GoString → Outcome (Unit {0}) × W → Answer × W
  answer_update ref (failure e, w) = (http_error 500 (bytes "update failed"), w)
  answer_update ref (success u, w) = (notify_result ref, w)

  unfoldable pub answer_post : Outcome GoString × W → Answer × W
  answer_post (failure e, w) = (http_error 500 (bytes "post failed"), w)
  answer_post (success new_ref, w) = (notify_result new_ref, w)

  unfoldable pub post_or_update :
      GoString
      → GoString
      → Notification
      → Option (GoString → GoString → Notification → Call W (Unit {0}))
      → W
      → Answer × W
  unfolding answer_update answer_post
  post_or_update recipient ref n none w = answer_post (target.post recipient n w)
  post_or_update recipient ref n (some update) w =
      if is_empty ref
      then answer_post (target.post recipient n w)
      else answer_update ref (update recipient ref n w)

  unfoldable pub notify : Outcome NotifyRequest → W → Answer × W
  unfolding post_or_update
  notify (failure e) w = (http_error 400 (bytes "invalid payload: " ++ e), w)
  notify (success req) w =
      post_or_update req.recipient req.ref (from_wire_notification req.notification) target.update w

  unfoldable pub answer_reply : Outcome (Unit {0}) × W → Answer × W
  answer_reply (failure e, w) = (http_error 500 (bytes "thread reply failed"), w)
  answer_reply (success u, w) = (no_content, w)

  unfoldable pub reply_threader :
      Option (GoString → GoString → GoString → Call W (Unit {0}))
      → ThreadReplyRequest
      → W
      → Answer × W
  unfolding answer_reply
  reply_threader none req w = (http_error 500 (bytes "ThreadReplyNotSupported"), w)
  reply_threader (some reply) req w = answer_reply (reply req.recipient req.ref req.text w)

  unfoldable pub thread_reply : Outcome ThreadReplyRequest → W → Answer × W
  unfolding reply_threader
  thread_reply (failure e) w = (http_error 400 (bytes "invalid payload: " ++ e), w)
  thread_reply (success req) w = reply_threader target.post_thread_reply req w

-- Both read the body with `json.NewDecoder` through `http.MaxBytesReader`, which are parameters: a
-- decoder of the first so many bytes of a body.
module _ {W Body : Type 0} (target : Target W) where
  unfoldable pub handle_notify : (ℕ → Body → Outcome NotifyRequest) → Body → W → Answer × W
  unfolding notify
  handle_notify decode body w = notify target (decode max_body_bytes body) w

  unfoldable pub handle_thread_reply :
      (ℕ → Body → Outcome ThreadReplyRequest) → Body → W → Answer × W
  unfolding thread_reply
  handle_thread_reply decode body w = thread_reply target (decode max_body_bytes body) w
