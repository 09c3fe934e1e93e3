-- ===== src/SlackBackend/Process/AtSlack.antt =====
-- A call of the core's adapter for the Slack backend, in the backend's process.
use argocd_notifier.Prelude.{◌≡◌, refl, ap, ◌∙◌, some, [], ◌∷◌, nat_eq}
use argocd_notifier.Text.{GoString, bytes, text_eq, is_empty}
use argocd_notifier.Maps.{GoMap, get_or}
use argocd_notifier.Notification.{Notification}
use argocd_notifier.Notification.Build.{built}
use argocd_notifier.Aggregator.Keys.{session_key_eq, RefKey, ref_key_eq}
use argocd_notifier.Aggregator.Backends.{Outcome, success, failure, Call}
use argocd_notifier.Aggregator.Session.{Sent, deliver_built, deliver_to, deliver}
use argocd_notifier.Registry
use argocd_notifier.Registry.{find}
use argocd_notifier.RemoteBackend
use argocd_notifier.RemoteBackend.{Surroundings, resolve, remote_backend}
use argocd_notifier.Api.Client as Api
use argocd_notifier.Api.Client.{OutgoingRequest, Reply, new_client_with_responses, with_http_client}
use argocd_notifier.Api.Transport.{Reaches}
use argocd_notifier.Slack.Client
use argocd_notifier.Slack.Client.{
  Http, ApiResponse, encode_ref, decode_ref, post_message, call, posted, post_rendered,
  update_rendered,
}
use argocd_notifier.Slack.Client.MessageRef.{NoSeparator, decode_ref-encode_ref}
use argocd_notifier.SlackBackend.{max_body_bytes}
use argocd_notifier.SlackBackend.EndToEnd
use argocd_notifier.SlackBackend.EndToEnd.{notify_request, notify_target, updated}
use argocd_notifier.SlackBackend.OverHttp.{Codec, slack_server, notify_over_http}
use argocd_notifier.SlackBackend.Process.{
  SlackClient, Process, Library, is_ready, renderer_of, in_process, slack_target,
}
use argocd_notifier.SlackBackend.Process.EditInPlace.{encode_ref-full}
use argocd_notifier.Aggregator.Session.Refs.{world-record_ref}

-- The JSON of a request is read as it was written.
pub record Carries {Url : Type 0} (lib : Api.Library Url) (codec : Codec) (recipient ref : GoString)
    (n : Notification) : Type 0 where
  pub body : GoString
  pub written : lib.marshal_notify (notify_request recipient ref n) ≡ success body
  pub read : codec.decode_notify max_body_bytes body ≡ success (notify_request recipient ref n)

module _ {Net : Type 0} (plib : Library) (http : SlackClient → Http Net) where
  post_lem :
      (recipient text attachments : GoString) (n : Notification) (out : ApiResponse)
      (p : Process Net) (v : Net)
      → renderer_of plib p n ≡ success (text, attachments)
      → call
          (http p.client)
          plib.marshal_message
          p.client.max_retries
          (bytes "chat.postMessage")
          (post_message recipient [] text attachments)
          p.net
        ≡ (success out, v)
      → (slack_target plib http).post recipient n p
        ≡ (success (encode_ref out.channel out.ts), record p { net = v })
  unfolding slack_target Client.post post_rendered posted in_process
  post_lem recipient text attachments n out p v rendered called = rw rendered (rw called refl)

  module _ (env : Surroundings (Process Net)) (name : GoString) where
    world-updated :
        (ref : GoString) (o : Outcome (Unit {0}) × Process Net) → (updated env name ref o).1 ≡ o.1
    world-updated ref (success u, w) = refl
    world-updated ref (failure e, w) = refl

    -- A reference of a message is an edit of it.
    pub notify_target-edit :
        (out : ApiResponse) (recipient : GoString) (n : Notification) (w : Process Net)
        → NoSeparator out.channel
        → (notify_target env name
            (slack_target plib http)
            recipient
            (encode_ref out.channel out.ts)
            n
            w).1
          ≡ record w {
            net =
                (update_rendered
                  (http w.client)
                  plib.marshal_message
                  w.client.max_retries
                  (out.channel, out.ts)
                  (renderer_of plib w n)
                  w.net).1;
          }
    unfolding slack_target Client.update in_process
    notify_target-edit out recipient n w clean =
        let ref = encode_ref out.channel out.ts in
        let edit = in_process plib http w (
          Client.update (http w.client) plib.marshal_message w.client.max_retries
            (renderer_of plib w) recipient ref n w.net) in
        rw (encode_ref-full out.channel out.ts, world-updated ref edit)
          (rw (decode_ref-encode_ref out.channel out.ts recipient clean).0 refl)

module _ {W : Type 0} where
  pub resolve-found :
      (env : Surroundings W) (name : GoString) (be : Registry.Backend) (w : W)
      → find (env.now w) name (env.registry w) ≡ some be
      → resolve env name w ≡ some (remote_backend env name)
  unfolding resolve
  resolve-found env name be w found = rw (found, resolve) refl

  pub remote_notifies :
      (env : Surroundings W) (name : GoString)
      → (remote_backend env name).notify
        ≡ some (λ recipient ref n w. RemoteBackend.notify env name recipient ref n w)
  unfolding remote_backend
  remote_notifies env name = refl

  pub world-deliver_built :
      (env : Surroundings W) (rk : RefKey) (be : Registry.Backend) (refs : GoMap RefKey GoString)
      (n : Notification) (s : Sent W)
      → find (env.now s.world) rk.backend (env.registry s.world) ≡ some be
      → (deliver_built (resolve env) rk refs (built n) s).world
        ≡ (RemoteBackend.notify env rk.backend rk.recipient (get_or rk [] refs) n s.world).1
  unfolding deliver_built deliver_to deliver remote_backend
  world-deliver_built env rk be refs n s found =
      rw (resolve-found env rk.backend be s.world found) (world-record_ref rk _ _ s)

module _ {Net Url : Type 0} (plib : Library) (http : SlackClient → Http Net)
    (env : Surroundings (Process Net)) (lib : Api.Library Url)
    (default_doer doer : OutgoingRequest → Call (Process Net) Reply) (codec : Codec)
    (reads : (ref : GoString) → lib.unmarshal_result (codec.encode_result ref) ≡ success ref)
    (be : Registry.Backend)
    (made : env.new_client be.base_url
      ≡ new_client_with_responses lib default_doer be.base_url (with_http_client doer ∷ []))
    (reaches : Reaches lib doer
      (slack_server codec (λ p. is_ready p) (slack_target plib http))
      be.base_url
      (bytes "/notify"))
    (rk : RefKey) where
  -- While the backend is registered, the core's adapter for it is the Slack client.
  pub at_slack :
      (ref : GoString) (n : Notification) (w : Process Net)
      → find (env.now w) rk.backend (env.registry w) ≡ some be
      → Carries lib codec rk.recipient ref n
      → RemoteBackend.notify env rk.backend rk.recipient ref n w
        ≡ notify_target env rk.backend (slack_target plib http) rk.recipient ref n w
  at_slack ref n w found c =
      notify_over_http env rk.backend lib default_doer doer codec (λ p. is_ready p)
        (slack_target plib http) reads be rk.recipient ref n c.body w found made reaches c.written
        c.read

  pub posted_at_slack :
      (text attachments : GoString) (n : Notification) (out : ApiResponse) (w : Process Net)
      (v : Net)
      → find (env.now w) rk.backend (env.registry w) ≡ some be
      → Carries lib codec rk.recipient [] n
      → renderer_of plib w n ≡ success (text, attachments)
      → call
          (http w.client)
          plib.marshal_message
          w.client.max_retries
          (bytes "chat.postMessage")
          (post_message rk.recipient [] text attachments)
          w.net
        ≡ (success out, v)
      → RemoteBackend.notify env rk.backend rk.recipient [] n w
        ≡ (success (encode_ref out.channel out.ts), record w { net = v })
  unfolding is_empty slack_target
  posted_at_slack text attachments n out w v found c rendered called =
      at_slack [] n w found c
      ∙ ap (EndToEnd.posted env rk.backend)
          (post_lem plib http rk.recipient text attachments n out w v rendered called)
