-- ===== src/SlackBackend/Process/SameMessage.antt =====
-- Two flushes of a session, from the core's session publisher to Slack's API.
use argocd_notifier.Prelude.{◌≡◌, ◌≢◌, ap, ◌∙◌, false, some, [], ◌∷◌, ◌++◌, List, nat_eq, All}
use argocd_notifier.Text.{GoString, bytes, text_eq}
use argocd_notifier.Maps.{GoMap, lookup, get_or, keys}
use argocd_notifier.Event.{Event}
use argocd_notifier.Notification.{Notification}
use argocd_notifier.Notification.Build.{build, built}
use argocd_notifier.Aggregator.Keys.{SessionKey, session_key_eq, RefKey, ref_key_eq}
use argocd_notifier.Aggregator.Clock.{Time, is_stale}
use argocd_notifier.Aggregator.Recipients.{Groups, group_apps}
use argocd_notifier.Aggregator.Backends.{Outcome, success, Call}
use argocd_notifier.Aggregator.Session.{
  PublisherConfig, MessageRefs, Publisher, Begun, Sent, nothing_sent, begin, store_refs,
  send_groups, deliver_built,
}
use argocd_notifier.Aggregator.Session.Refs.{notified_ref, Distinct-send_groups}
use argocd_notifier.Aggregator.Session.Lifecycle.{next_flush_edits}
use argocd_notifier.Registry
use argocd_notifier.Registry.{find}
use argocd_notifier.RemoteBackend
use argocd_notifier.RemoteBackend.{Surroundings, resolve, remote_backend}
use argocd_notifier.Api.Client as Api
use argocd_notifier.Api.Client.{OutgoingRequest, Reply, new_client_with_responses, with_http_client}
use argocd_notifier.Api.Transport.{Reaches}
use argocd_notifier.Slack.Client.{
  Http, ApiResponse, encode_ref, post_message, call, update_rendered,
}
use argocd_notifier.Slack.Client.MessageRef.{NoSeparator}
use argocd_notifier.SlackBackend.OverHttp.{Codec, slack_server}
use argocd_notifier.SlackBackend.Process.{
  SlackClient, Process, Library, is_ready, renderer_of, slack_target,
}
use argocd_notifier.SlackBackend.Process.AtSlack.{
  Carries, notify_target-edit, resolve-found, remote_notifies, world-deliver_built, at_slack,
  posted_at_slack,
}

module _ {Net Url : Type 0} (plib : Library) (http : SlackClient → Http Net)
    (env : Surroundings (Process Net)) (lib : Api.Library Url)
    (default_doer doer : OutgoingRequest → Call (Process Net) Reply) (codec : Codec)
    (reads : (ref : GoString) → lib.unmarshal_result (codec.encode_result ref) ≡ success ref)
    (be : Registry.Backend)
    (made : env.new_client be.base_url
      ≡ new_client_with_responses lib default_doer be.base_url (with_http_client doer ∷ []))
    (reaches : Reaches lib doer
      (slack_server codec (λ p. is_ready p) (slack_target plib http))
      be.base_url
      (bytes "/notify"))
    (rk : RefKey) where
  module _ (sha256 : GoString → GoString) (cfg : PublisherConfig) (now : Time) (key : SessionKey)
      (events : List Event) (p : Publisher) (w : Process Net) where
    -- The first call, behind its first critical section.
    abbrev begun : Begun
    begun = (begin sha256 cfg now key events p).0

    -- The world when the first call has done the destinations `before`.
    abbrev world_behind : Groups → Process Net
    world_behind before = (send_groups (resolve env) begun.refs before (nothing_sent w)).world

    -- The references that the first call brings to its second critical section.
    abbrev new_refs : MessageRefs
    new_refs =
        (send_groups (resolve env) begun.refs (group_apps begun.per_app) (nothing_sent w)).new_refs

    -- The store behind the first call, and the references that a later call of the session finds there.
    abbrev later_refs : Time → List Event → MessageRefs
    later_refs later events' =
        (begin sha256 cfg later key events'
          (store_refs key begun.address new_refs (begin sha256 cfg now key events p).1)).0.refs

    -- The first call of `Upsert` for a session that has no message at a destination yet, where its
    -- notification can be rendered and Slack answers the post with a channel that has no separator in it,
    -- and a later call for that session, within the TTL: when the later one gets to that destination, with
    -- whatever notification, all that it does is to edit, by chat.update, the message that the first one
    -- posted, at that channel and that time stamp. The backend is registered at both moments.
    pub same_message :
        (later : Time) (events' : List Event) (before after : Groups) (apps : GoMap GoString Event)
        (n n' : Notification) (text attachments : GoString) (out : ApiResponse) (v : Net)
        (s : Sent (Process Net))
        → group_apps begun.per_app ≡ before ++ (rk, apps) ∷ after
        → All (λ j. j ≢ rk) (keys after)
        → build apps ≡ built n
        → get_or rk [] begun.refs ≡ []
        → find (env.now (world_behind before)) rk.backend (env.registry (world_behind before))
          ≡ some be
        → Carries lib codec rk.recipient [] n
        → renderer_of plib (world_behind before) n ≡ success (text, attachments)
        → call
            (http (world_behind before).client)
            plib.marshal_message
            (world_behind before).client.max_retries
            (bytes "chat.postMessage")
            (post_message rk.recipient [] text attachments)
            (world_behind before).net
          ≡ (success out, v)
        → NoSeparator out.channel
        → is_stale later now cfg.session_ttl ≡ false
        → find (env.now s.world) rk.backend (env.registry s.world) ≡ some be
        → Carries lib codec rk.recipient (encode_ref out.channel out.ts) n'
        → (deliver_built (resolve env) rk (later_refs later events') (built n') s).world
          ≡ record s.world {
            net =
                (update_rendered
                  (http s.world.client)
                  plib.marshal_message
                  s.world.client.max_retries
                  (out.channel, out.ts)
                  (renderer_of plib s.world n')
                  s.world.net).1;
          }
    same_message later events' before after apps n n' text attachments out v s split fresh made_of
          first found sends rendered called clean in_time again edits =
        let ref = encode_ref out.channel out.ts in
        let posted_ref : lookup rk new_refs ≡ some ref =
          ap
            (λ (x : Groups).
              lookup rk (send_groups (resolve env) begun.refs x (nothing_sent w)).new_refs)
            split
          ∙ notified_ref (resolve env) begun.refs before after rk apps n
              (remote_backend env rk.backend)
              (λ recipient r m u. RemoteBackend.notify env rk.backend recipient r m u) ref
              (record (world_behind before) { net = v }) (nothing_sent w) fresh made_of
              (resolve-found env rk.backend be (world_behind before) found)
              (remote_notifies env rk.backend)
              (ap
                  (λ (r : GoString).
                    RemoteBackend.notify env rk.backend rk.recipient r n (world_behind before))
                  first
                ∙ posted_at_slack plib http env lib default_doer doer codec reads be made reaches rk
                    text attachments n out (world_behind before) v found sends rendered called) in
        let held : get_or rk [] (later_refs later events') ≡ ref =
          (next_flush_edits sha256 cfg now later key events events' p new_refs rk ref
            (Distinct-send_groups (resolve env) begun.refs (group_apps begun.per_app)
              (nothing_sent w) tt)
            posted_ref in_time).0 in
        world-deliver_built env rk be _ n' s again
        ∙ ap (λ (r : GoString). (RemoteBackend.notify env rk.backend rk.recipient r n' s.world).1)
            held
        ∙ ap (λ (r : Outcome GoString × Process Net). r.1)
            (at_slack plib http env lib default_doer doer codec reads be made reaches rk ref n'
              s.world again edits)
        ∙ notify_target-edit plib http env rk.backend out rk.recipient n' s.world clean
