-- ===== src/SlackBackend/EndToEnd.antt =====
-- A call of the core's adapter for a backend, through HTTP, on the backend behind the handler.
use argocd_notifier.Prelude.{
  ℕ, ◌≡◌, refl, true, Option, none, some, [], ◌++◌, if◌then◌else◌, Bool-cases, inl, inr,
}
use argocd_notifier.Text.{GoString, bytes, is_empty}
use argocd_notifier.Notification.{Notification}
use argocd_notifier.Aggregator.Backends.{Outcome, success, failure, Call}
use argocd_notifier.Registry
use argocd_notifier.Registry.{find}
use argocd_notifier.Wire.{NotifyRequest, ThreadReplyRequest, NotifyResponse, ThreadReplyResponse}
use argocd_notifier.RemoteBackend
use argocd_notifier.RemoteBackend.{
  ApiClient, Surroundings, unexpected_status, notify_outcome, notify_client, reply_outcome,
  reply_client,
}
use argocd_notifier.RemoteBackend.ToWire.{to_wire_notification}
use argocd_notifier.SlackBackend
use argocd_notifier.SlackBackend.{
  Target, Answer, notify_result, http_error, no_content, answer_update, answer_post, post_or_update,
  answer_reply, reply_threader, handle_notify, handle_thread_reply, max_body_bytes,
}
use argocd_notifier.SlackBackend.FromWire.{from_wire-to_wire}

abbrev pub notify_request : GoString → GoString → Notification → NotifyRequest
notify_request recipient ref n = record {
  recipient = recipient;
  ref = ref;
  notification = to_wire_notification n;
}

abbrev pub reply_request : GoString → GoString → GoString → ThreadReplyRequest
reply_request recipient ref text = record { recipient = recipient; ref = ref; text = text }

-- What the generated client makes of an answer that arrives. The body of a result is its encoding, and
-- `http.Error` ends its text with a line feed.
abbrev pub received : {W : Type 0} → (GoString → GoString) → Answer × W → Outcome NotifyResponse × W
received encode_result (notify_result ref, w) =
    (success (record { status_code = 200; json200 = some ref; body = encode_result ref }), w)
received encode_result (http_error status text, w) =
    (success (record { status_code = status; json200 = none; body = text ++ bytes "\n" }), w)
received encode_result (no_content, w) =
    (success (record { status_code = 204; json200 = none; body = [] }), w)

abbrev pub received_reply :
    {W : Type 0} → (GoString → GoString) → Answer × W → Outcome ThreadReplyResponse × W
received_reply encode_result (notify_result ref, w) =
    (success (record { status_code = 200; body = encode_result ref }), w)
received_reply encode_result (http_error status text, w) =
    (success (record { status_code = status; body = text ++ bytes "\n" }), w)
received_reply encode_result (no_content, w) =
    (success (record { status_code = 204; body = [] }), w)

module _ {W : Type 0} (env : Surroundings W) (name : GoString) where
  abbrev failed_with : {A : Type 0} → GoString → GoString → Outcome A
  failed_with action text = failure (unexpected_status env name action 500 (text ++ bytes "\n"))

  -- The reference that the target returned, or the error.
  abbrev pub posted : Outcome GoString × W → Outcome GoString × W
  posted (success ref, w) = (success ref, w)
  posted (failure e, w) = (failed_with (bytes "notify") (bytes "post failed"), w)

  -- The reference that was edited, or the error.
  abbrev pub updated : GoString → Outcome (Unit {0}) × W → Outcome GoString × W
  updated ref (success u, w) = (success ref, w)
  updated ref (failure e, w) = (failed_with (bytes "notify") (bytes "update failed"), w)

  abbrev pub replied : Outcome (Unit {0}) × W → Outcome (Unit {0}) × W
  replied (success u, w) = (success tt, w)
  replied (failure e, w) = (failed_with (bytes "thread reply") (bytes "thread reply failed"), w)

  -- A Notifier made of the target's own methods: an edit of the message if there is one and the target
  -- can edit, else a new message.
  abbrev pub notify_target : Target W → GoString → GoString → Notification → Call W GoString
  notify_target target recipient ref n w = elim target.update [
    | none ↦ posted (target.post recipient n w)
    | some update ↦
        if is_empty ref
        then posted (target.post recipient n w)
        else updated ref (update recipient ref n w)
  ]

module _ {W : Type 0} (env : Surroundings W) (name : GoString)
    (encode_result : GoString → GoString) where
  outcome-post :
      (target : Target W) (o : Outcome GoString × W)
      → (let (out, w') = received encode_result (answer_post target o) in
          (notify_outcome env name out, w'))
        ≡ posted env name o
  unfolding answer_post notify_outcome
  outcome-post target (success ref, w) = refl
  outcome-post target (failure e, w) = refl

  outcome-update :
      (target : Target W) (ref : GoString) (o : Outcome (Unit {0}) × W)
      → (let (out, w') = received encode_result (answer_update target ref o) in
          (notify_outcome env name out, w'))
        ≡ updated env name ref o
  unfolding answer_update notify_outcome
  outcome-update target ref (success u, w) = refl
  outcome-update target ref (failure e, w) = refl

  outcome-target :
      (target : Target W) (recipient ref : GoString) (n : Notification)
      (u : Option (GoString → GoString → Notification → Call W (Unit {0}))) (w : W)
      → (let (out, w') = received encode_result (post_or_update target recipient ref n u w) in
          (notify_outcome env name out, w'))
        ≡ elim u [
          | none ↦ posted env name (target.post recipient n w)
          | some update ↦
              if is_empty ref
              then posted env name (target.post recipient n w)
              else updated env name ref (update recipient ref n w)
        ]
  unfolding post_or_update
  outcome-target target recipient ref n none w = outcome-post target (target.post recipient n w)
  outcome-target target recipient ref n (some update) w = elim (Bool-cases (is_empty ref)) [
    | inl p ↦ rw p (outcome-post target (target.post recipient n w))
    | inr p ↦ rw p (outcome-update target ref (update recipient ref n w))
  ]

  outcome-reply :
      (target : Target W) (o : Outcome (Unit {0}) × W)
      → (let (out, w') = received_reply encode_result (answer_reply target o) in
          (reply_outcome env name out, w'))
        ≡ replied env name o
  unfolding answer_reply reply_outcome
  outcome-reply target (success u, w) = refl
  outcome-reply target (failure e, w) = refl

  -- While a backend is registered, where its client is built, its handler receives the request as it
  -- was sent and the answer comes back, the adapter in the core behaves as the target behind the
  -- handler does: it edits the message that `ref` names if the target can edit, posts a new one
  -- otherwise, and returns the reference of the result, or an error if the target's call fails.
  pub remote_notify :
      {Body : Type 0} (target : Target W) (encode : NotifyRequest → Body)
      (decode : ℕ → Body → Outcome NotifyRequest) (be : Registry.Backend) (c : ApiClient W)
      (recipient ref : GoString) (n : Notification) (w : W)
      → find (env.now w) name (env.registry w) ≡ some be
      → env.new_client be.base_url ≡ success c
      → decode max_body_bytes (encode (notify_request recipient ref n))
        ≡ success (notify_request recipient ref n)
      → c.notify_with_response (notify_request recipient ref n) w
        ≡ received encode_result
            (handle_notify target decode (encode (notify_request recipient ref n)) w)
      → RemoteBackend.notify env name recipient ref n w
        ≡ notify_target env name target recipient ref n w
  unfolding RemoteBackend.notify notify_client handle_notify SlackBackend.notify
  remote_notify target encode decode be c recipient ref n w found client sent answer =
      rw (found, RemoteBackend.notify)
        (rw (client, notify_client)
          (rw answer (
            rw sent
              (rw (from_wire-to_wire n) (outcome-target target recipient ref n target.update w)))))

  -- The same for a reply in a thread, for a backend that registered with support for it and whose
  -- target supports it.
  pub remote_reply :
      {Body : Type 0} (target : Target W) (encode : ThreadReplyRequest → Body)
      (decode : ℕ → Body → Outcome ThreadReplyRequest) (be : Registry.Backend) (c : ApiClient W)
      (reply : GoString → GoString → GoString → Call W (Unit {0})) (recipient ref text : GoString)
      (w : W)
      → find (env.now w) name (env.registry w) ≡ some be
      → be.supports_thread_reply ≡ true
      → env.new_client be.base_url ≡ success c
      → target.post_thread_reply ≡ some reply
      → decode max_body_bytes (encode (reply_request recipient ref text))
        ≡ success (reply_request recipient ref text)
      → c.thread_reply_with_response (reply_request recipient ref text) w
        ≡ received_reply encode_result
            (handle_thread_reply target decode (encode (reply_request recipient ref text)) w)
      → RemoteBackend.post_thread_reply env name recipient ref text w
        ≡ replied env name (reply recipient ref text w)
  unfolding RemoteBackend.post_thread_reply reply_client handle_thread_reply
      SlackBackend.thread_reply reply_threader
  remote_reply target encode decode be c reply recipient ref text w found able client has sent
        answer =
      rw (found, RemoteBackend.post_thread_reply)
        (rw (able, client)
          (rw answer (rw sent (rw has (outcome-reply target (reply recipient ref text w))))))
