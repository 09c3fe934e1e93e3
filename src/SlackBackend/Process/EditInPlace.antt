-- ===== src/SlackBackend/Process/EditInPlace.antt =====
-- The messages of a session in Slack: one is posted, and later ones edit it.
use argocd_notifier.Prelude.{◌≡◌, refl, false, [], ◌∷◌}
use argocd_notifier.Text.{GoString, bytes, is_empty}
use argocd_notifier.Notification.{Notification}
use argocd_notifier.Aggregator.Backends.{success}
use argocd_notifier.Slack.Client
use argocd_notifier.Slack.Client.{
  Http, ApiResponse, encode_ref, decode_ref, post_message, call, posted, post_rendered,
  update_rendered, reply_in,
}
use argocd_notifier.Slack.Client.MessageRef.{NoSeparator, decode_ref-encode_ref}
use argocd_notifier.SlackBackend
use argocd_notifier.SlackBackend.{
  notify_result, answer_post, answer_update, post_or_update, answer_reply, reply_threader,
  thread_reply,
}
use argocd_notifier.SlackBackend.FromWire.{from_wire-to_wire}
use argocd_notifier.SlackBackend.EndToEnd.{notify_request, reply_request}
use argocd_notifier.SlackBackend.Process.{
  SlackClient, Process, Library, renderer_of, in_process, slack_target,
}

pub encode_ref-full : (channel ts : GoString) → is_empty (encode_ref channel ts) ≡ false
unfolding encode_ref is_empty
encode_ref-full [] ts = refl
encode_ref-full (c ∷ channel) ts = refl

module _ {Net : Type 0} (lib : Library) (http : SlackClient → Http Net) where
  -- A request without a reference, where the notification can be rendered and Slack answers with a
  -- channel that has no separator in it, posts a message and is answered with a reference; and a later
  -- request with that reference, at whatever state of the process, be there another template by then or
  -- another name for the recipient, edits that message in that channel, and a request for a reply with
  -- it replies to that message.
  pub edited_in_place :
      (recipient recipient' text attachments note : GoString) (n n' : Notification)
      (out : ApiResponse) (p q : Process Net) (v : Net)
      → renderer_of lib p n ≡ success (text, attachments)
      → call
          (http p.client)
          lib.marshal_message
          p.client.max_retries
          (bytes "chat.postMessage")
          (post_message recipient [] text attachments)
          p.net
        ≡ (success out, v)
      → NoSeparator out.channel
      → (ref : GoString) × (SlackBackend.notify
            (slack_target lib http)
            (success (notify_request recipient [] n))
            p
          ≡ (notify_result ref, record p { net = v }))
        × (SlackBackend.notify
              (slack_target lib http)
              (success (notify_request recipient' ref n'))
              q
            ≡ answer_update (slack_target lib http) ref (
                in_process lib http q (
                  update_rendered
                    (http q.client)
                    lib.marshal_message
                    q.client.max_retries
                    (out.channel, out.ts)
                    (renderer_of lib q n')
                    q.net)))
        × (thread_reply (slack_target lib http) (success (reply_request recipient' ref note)) q
            ≡ answer_reply (slack_target lib http) (
                in_process lib http q (
                  reply_in
                    (http q.client)
                    lib.marshal_message
                    q.client.max_retries
                    (out.channel, out.ts)
                    note
                    q.net)))
  unfolding SlackBackend.notify post_or_update thread_reply reply_threader slack_target Client.post
      Client.update Client.post_thread_reply post_rendered posted answer_post in_process is_empty
  edited_in_place recipient recipient' text attachments note n n' out p q v rendered called clean =
      let back = (decode_ref-encode_ref out.channel out.ts recipient' clean).0 in
      (
        encode_ref out.channel out.ts,
        rw (from_wire-to_wire n) (rw rendered (rw called refl)),
        rw (from_wire-to_wire n') (rw (encode_ref-full out.channel out.ts) (rw back refl)),
        rw back refl,
      )
