-- ===== src/SlackBackend/OverHttp.antt =====
-- The endpoints of the Slack backend behind its HTTP server, and a call of the core's adapter that
-- reaches them by the generated client. The network is a parameter.
use argocd_notifier.Prelude.{ℕ, ◌≡◌, refl, ap, ◌∙◌, true, Bool, some, [], ◌∷◌, nat_eq}
use argocd_notifier.Text.{GoString, text_eq, str_eq, bytes, strip_prefix?}
use argocd_notifier.Notification.{Notification}
use argocd_notifier.Aggregator.Backends.{Outcome, success, Call}
use argocd_notifier.Http.{
  Writer, new_writer, set_content_type, write_header, write, http_error, response_of, status_of,
  Ran, returned, Handler, post, recovered, middleware, takes_method, serve_routes, serve_mux,
}
use argocd_notifier.Api.Routing.{
  wrap, operation, BackendInterface, backend_routes, slack_routes, slack_handler,
}
use argocd_notifier.Api.Client.{
  send, new_notify_request, new_thread_reply_request, new_request_with_body, checked_request,
  apply_editors, notify_with_response, thread_reply_with_response, api_client, new_client,
  apply_options, with_slash, Client, has_prefix, contains, OutgoingRequest, Reply, Library,
  new_client_with_responses, with_http_client, parse_notify_response, parse_notify_body,
  json200_response, parse_thread_reply_response, ◌>>=◌,
}
use argocd_notifier.Api.Transport.{delivered, parsed, Reaches}
use argocd_notifier.Registry
use argocd_notifier.Registry.{find}
use argocd_notifier.Wire.{NotifyRequest, ThreadReplyRequest}
use argocd_notifier.RemoteBackend
use argocd_notifier.RemoteBackend.{Surroundings}
use argocd_notifier.SlackBackend
use argocd_notifier.SlackBackend.{
  Target, Answer, notify_result, no_content, handle_notify, handle_thread_reply, max_body_bytes,
}
use argocd_notifier.SlackBackend.EndToEnd.{
  notify_request, reply_request, received, received_reply, notify_target, replied, remote_notify,
  remote_reply,
}

-- What the handlers write, where `encode_result` stands for the encoding of a NotifyResult.
unfoldable pub write_answer : (GoString → GoString) → Answer → Writer → Writer
unfolding set_content_type write write_header http_error
write_answer encode_result (notify_result ref) wr =
    write (encode_result ref) (set_content_type (bytes "application/json") wr)
write_answer encode_result (SlackBackend.http_error status text) wr = http_error text status wr
write_answer encode_result no_content wr = write_header 204 wr

-- `encoding/json`, on the side of the backend
pub record Codec : Type 0 where
  pub decode_notify : ℕ → GoString → Outcome NotifyRequest
  pub decode_reply : ℕ → GoString → Outcome ThreadReplyRequest
  pub encode_result : GoString → GoString

module _ {W : Type 0} (codec : Codec) where
  unfoldable pub answering_with : Writer → Answer × W → Ran × (Writer × W)
  unfolding write_answer
  answering_with wr (a, w) = (returned, (write_answer codec.encode_result a wr, w))

  -- slackbackend.Handler, as the interface of the server
  unfoldable pub backend_interface : Target W → BackendInterface W
  unfolding answering_with handle_notify handle_thread_reply
  backend_interface target = record {
    notify = λ req s. answering_with s.0 (handle_notify target codec.decode_notify req.body s.1);
    thread_reply =
        λ req s. answering_with s.0 (handle_thread_reply target codec.decode_reply req.body s.1);
  }

  unfoldable pub slack_server : (W → Bool) → Target W → Handler W
  unfolding slack_handler backend_interface
  slack_server has_registered target req s =
      slack_handler has_registered (backend_interface target) req s

module _ {W : Type 0} (codec : Codec) (has_registered : W → Bool) (target : Target W) where
  -- A POST to one of the two paths reaches its handler.
  slack_server-notify :
      (body : GoString) (w : W)
      → slack_server codec has_registered target
          (record { method = post; path = bytes "/notify"; body = body })
          (new_writer, w)
        ≡ answering_with codec new_writer (handle_notify target codec.decode_notify body w)
  unfolding slack_server slack_handler middleware recovered serve_mux serve_routes slack_routes
      backend_routes operation wrap takes_method str_eq backend_interface answering_with
  slack_server-notify body w = refl

  slack_server-reply :
      (body : GoString) (w : W)
      → slack_server codec has_registered target
          (record { method = post; path = bytes "/thread-reply"; body = body })
          (new_writer, w)
        ≡ answering_with codec new_writer (handle_thread_reply target codec.decode_reply body w)
  unfolding slack_server slack_handler middleware recovered serve_mux serve_routes slack_routes
      backend_routes operation wrap takes_method str_eq backend_interface answering_with
  slack_server-reply body w = refl

-- What the client makes of an answer that arrives, where it reads the results that the backend writes.
module _ {W Url : Type 0} (lib : Library Url) (codec : Codec)
    (reads : (ref : GoString) → lib.unmarshal_result (codec.encode_result ref) ≡ success ref) where
  parsed-delivered :
      (r : Answer × W)
      → parsed (parse_notify_response lib) (delivered (answering_with codec new_writer r))
        ≡ received codec.encode_result r
  unfolding answering_with write_answer set_content_type write write_header http_error response_of
      status_of parse_notify_response parse_notify_body json200_response contains has_prefix
      strip_prefix? ◌>>=◌
  parsed-delivered (notify_result ref, w) = rw (reads ref) refl
  parsed-delivered (SlackBackend.http_error status text, w) = refl
  parsed-delivered (no_content, w) = refl

  parsed_reply-delivered :
      (r : Answer × W)
      → parsed (parse_thread_reply_response lib) (delivered (answering_with codec new_writer r))
        ≡ received_reply codec.encode_result r
  unfolding answering_with write_answer set_content_type write write_header http_error response_of
      status_of parse_thread_reply_response ◌>>=◌
  parsed_reply-delivered (notify_result ref, w) = refl
  parsed_reply-delivered (SlackBackend.http_error status text, w) = refl
  parsed_reply-delivered (no_content, w) = refl

module _ {W Url : Type 0} (lib : Library Url) (default_doer doer : OutgoingRequest → Call W Reply)
    (base_url : GoString) where
  abbrev client : Client W
  client = record { server = with_slash base_url; doer = some doer; request_editors = [] }

  made_client :
      new_client_with_responses lib default_doer base_url (with_http_client doer ∷ [])
      ≡ success (api_client lib client)
  unfolding new_client_with_responses new_client apply_options with_http_client ◌>>=◌
  made_client = refl

  sent_notify :
      (server : Handler W) (req : NotifyRequest) (body : GoString) (w : W)
      → Reaches lib doer server base_url (bytes "/notify")
      → lib.marshal_notify req ≡ success body
      → (api_client lib client).notify_with_response req w
        ≡ parsed (parse_notify_response lib) (
            delivered (
              server
                (record { method = post; path = bytes "/notify"; body = body })
                (new_writer, w)))
  unfolding api_client notify_with_response send new_notify_request new_request_with_body
      checked_request apply_editors ◌>>=◌
  sent_notify server req body w r m = rw (m, r.parses, r.refers, r.accepts, r.carries body w) refl

  sent_reply :
      (server : Handler W) (req : ThreadReplyRequest) (body : GoString) (w : W)
      → Reaches lib doer server base_url (bytes "/thread-reply")
      → lib.marshal_reply req ≡ success body
      → (api_client lib client).thread_reply_with_response req w
        ≡ parsed (parse_thread_reply_response lib) (
            delivered (
              server
                (record { method = post; path = bytes "/thread-reply"; body = body })
                (new_writer, w)))
  unfolding api_client thread_reply_with_response send new_thread_reply_request
      new_request_with_body checked_request apply_editors ◌>>=◌
  sent_reply server req body w r m = rw (m, r.parses, r.refers, r.accepts, r.carries body w) refl

module _ {W Url : Type 0} (env : Surroundings W) (name : GoString) (lib : Library Url)
    (default_doer doer : OutgoingRequest → Call W Reply) (codec : Codec) (has_registered : W → Bool)
    (target : Target W)
    (reads : (ref : GoString) → lib.unmarshal_result (codec.encode_result ref) ≡ success ref) where
  -- While a backend is registered and the network brings requests for its address to its server, where
  -- JSON that one side writes is read by the other, the core's adapter, through the generated client
  -- and the server's routes, behaves as the target behind the server does: it edits the message that
  -- `ref` names if the target can edit, posts a new one otherwise, and returns the reference of the
  -- result, or an error if the target's call fails.
  pub notify_over_http :
      (be : Registry.Backend) (recipient ref : GoString) (n : Notification) (body : GoString)
      (w : W)
      → find (env.now w) name (env.registry w) ≡ some be
      → env.new_client be.base_url
        ≡ new_client_with_responses lib default_doer be.base_url (with_http_client doer ∷ [])
      → Reaches lib doer (slack_server codec has_registered target) be.base_url (bytes "/notify")
      → lib.marshal_notify (notify_request recipient ref n) ≡ success body
      → codec.decode_notify max_body_bytes body ≡ success (notify_request recipient ref n)
      → RemoteBackend.notify env name recipient ref n w
        ≡ notify_target env name target recipient ref n w
  notify_over_http be recipient ref n body w found made reaches written read =
      remote_notify env name codec.encode_result target (λ _. body) codec.decode_notify be
        (api_client lib (client lib default_doer doer be.base_url)) recipient ref n w found
        (made ∙ made_client lib default_doer doer be.base_url) read
        (sent_notify lib default_doer doer be.base_url _ (notify_request recipient ref n) body w
            reaches written
          ∙ ap (λ r. parsed (parse_notify_response lib) (delivered r))
              (slack_server-notify codec has_registered target body w)
          ∙ parsed-delivered lib codec reads (handle_notify target codec.decode_notify body w))

  -- The same for a reply in a thread, for a backend that registered with support for it and whose
  -- target supports it.
  pub reply_over_http :
      (be : Registry.Backend) (reply : GoString → GoString → GoString → Call W (Unit {0}))
      (recipient ref text body : GoString) (w : W)
      → find (env.now w) name (env.registry w) ≡ some be
      → be.supports_thread_reply ≡ true
      → target.post_thread_reply ≡ some reply
      → env.new_client be.base_url
        ≡ new_client_with_responses lib default_doer be.base_url (with_http_client doer ∷ [])
      → Reaches lib doer
          (slack_server codec has_registered target)
          be.base_url
          (bytes "/thread-reply")
      → lib.marshal_reply (reply_request recipient ref text) ≡ success body
      → codec.decode_reply max_body_bytes body ≡ success (reply_request recipient ref text)
      → RemoteBackend.post_thread_reply env name recipient ref text w
        ≡ replied env name (reply recipient ref text w)
  reply_over_http be reply recipient ref text body w found able has made reaches written read =
      remote_reply env name codec.encode_result target (λ _. body) codec.decode_reply be
        (api_client lib (client lib default_doer doer be.base_url)) reply recipient ref text w found
        able (made ∙ made_client lib default_doer doer be.base_url) has read
        (sent_reply lib default_doer doer be.base_url _ (reply_request recipient ref text) body w
            reaches written
          ∙ ap (λ r. parsed (parse_thread_reply_response lib) (delivered r))
              (slack_server-reply codec has_registered target body w)
          ∙ parsed_reply-delivered lib codec reads
              (handle_thread_reply target codec.decode_reply body w))
