-- ===== src/RemoteBackend.antt =====
-- internal/remotebackend/backend.go and resolver.go: a registered backend behind HTTP, as the session
-- publisher sees it.
pub mod ToWire
use argocd_notifier.Prelude.{
  ℕ, Bool, true, false, ◌&&◌, not, Option, none, some, List, [], ◌∷◌, ◌++◌, ◌==◌, nat_eq,
  if◌then◌else◌,
}
use argocd_notifier.Text.{GoString, bytes, itoa}
use argocd_notifier.Notification.{Notification}
use argocd_notifier.Aggregator.Clock.{Time}
use argocd_notifier.Aggregator.Backends.{Outcome, success, failure, Call, Backend, Resolver}
use argocd_notifier.Registry
use argocd_notifier.Registry.{Registry, find}
use argocd_notifier.Wire.{NotifyRequest, ThreadReplyRequest, NotifyResponse, ThreadReplyResponse}
use argocd_notifier.RemoteBackend.ToWire.{to_wire_notification}

-- The generated client for one base URL.
pub record ApiClient (W : Type 0) : Type 0 where
  pub notify_with_response : NotifyRequest → Call W NotifyResponse
  pub thread_reply_with_response : ThreadReplyRequest → Call W ThreadReplyResponse

-- What the adapter reads of the process around it.
pub record Surroundings (W : Type 0) : Type 0 where
  pub now : W → Time
  pub registry : W → Registry
  pub new_client : GoString → Outcome (ApiClient W)
  -- the verb %q
  pub quote : GoString → GoString

abbrev pub backend_not_registered : GoString
backend_not_registered = bytes "BackendNotRegistered"

abbrev pub thread_reply_not_supported : GoString
thread_reply_not_supported = bytes "ThreadReplyNotSupported"

abbrev pub status_ok : ℕ
status_ok = 200

abbrev pub status_no_content : ℕ
status_no_content = 204

module _ {W : Type 0} (env : Surroundings W) (name : GoString) where
  -- action "name": detail
  unfoldable pub about : GoString → GoString → GoString
  about action detail = action ++ (bytes " " ++ (env.quote name ++ (bytes ": " ++ detail)))

  unfoldable pub unexpected_status : GoString → ℕ → GoString → GoString
  unfolding about
  unexpected_status action status body =
      about action (bytes "unexpected status " ++ (itoa status ++ (bytes ": " ++ body)))

  unfoldable pub notify_outcome : Outcome NotifyResponse → Outcome GoString
  unfolding about unexpected_status
  notify_outcome (failure e) = failure (about (bytes "notify") e)
  notify_outcome (success resp) =
      let bad : Outcome GoString =
        failure (unexpected_status (bytes "notify") resp.status_code resp.body) in
      if resp.status_code == status_ok
      then elim resp.json200 [ none ↦ bad | some ref ↦ success ref ]
      else bad

  unfoldable pub notify_client :
      Outcome (ApiClient W) → GoString → GoString → Notification → Call W GoString
  unfolding about notify_outcome
  notify_client (failure e) recipient ref n w =
      (failure (about (bytes "build client for backend") e), w)
  notify_client (success c) recipient ref n w =
      let (out, w') =
        c.notify_with_response
          (record { recipient = recipient; ref = ref; notification = to_wire_notification n }) w in
      (notify_outcome out, w')

  unfoldable pub notify : GoString → GoString → Notification → Call W GoString
  unfolding notify_client
  notify recipient ref n w = elim (find (env.now w) name (env.registry w)) [
    | none ↦ (failure backend_not_registered, w)
    | some be ↦ notify_client (env.new_client be.base_url) recipient ref n w
  ]

  unfoldable pub reply_outcome : Outcome ThreadReplyResponse → Outcome (Unit {0})
  unfolding about unexpected_status
  reply_outcome (failure e) = failure (about (bytes "thread reply") e)
  reply_outcome (success resp) =
      if resp.status_code == status_no_content
      then success tt
      else failure (unexpected_status (bytes "thread reply") resp.status_code resp.body)

  unfoldable pub reply_client :
      Outcome (ApiClient W) → GoString → GoString → GoString → Call W (Unit {0})
  unfolding about reply_outcome
  reply_client (failure e) recipient ref text w =
      (failure (about (bytes "build client for backend") e), w)
  reply_client (success c) recipient ref text w =
      let (out, w') =
        c.thread_reply_with_response (record { recipient = recipient; ref = ref; text = text }) w in
      (reply_outcome out, w')

  unfoldable pub post_thread_reply : GoString → GoString → GoString → Call W (Unit {0})
  unfolding reply_client
  post_thread_reply recipient ref text w = elim (find (env.now w) name (env.registry w)) [
    | none ↦ (failure backend_not_registered, w)
    | some be ↦
        let on : Outcome (Unit {0}) × W =
          reply_client (env.new_client be.base_url) recipient ref text w in
        if be.supports_thread_reply then on else (failure thread_reply_not_supported, w)
  ]

  -- The interfaces that the adapter implements: a Notifier and a ThreadReplier.
  unfoldable pub remote_backend : Backend W
  unfolding notify post_thread_reply
  remote_backend = record {
    notify = some (λ recipient ref n w. notify recipient ref n w);
    post = none;
    update = none;
    post_thread_reply = some (λ recipient ref text w. post_thread_reply recipient ref text w);
  }

-- `Resolve`
unfoldable pub resolve : {W : Type 0} → Surroundings W → Resolver W
unfolding remote_backend
resolve env name w = elim (find (env.now w) name (env.registry w)) [
  | none ↦ none
  | some be ↦ some (remote_backend env name)
]
