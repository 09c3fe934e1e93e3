-- ===== src/Witnesses/Slack.antt =====
-- The theorems on the way from the core to Slack at one call.
use argocd_notifier.Prelude.{
  ◌++◌, length, take, ◌≤◌, ◌⊎◌, ℕ, ◌+◌, ◌≡◌, refl, true, false, some, [], ◌∷◌, none, arith, ltb,
  if◌then◌else◌,
}
use argocd_notifier.Prelude.Int.{pos, negsuc}
use argocd_notifier.Text.{GoString, bytes, text_eq, str_eq}
use argocd_notifier.Notification.{Notification}
use argocd_notifier.Aggregator.Backends.{Outcome, success, failure}
use argocd_notifier.RemoteBackend.ToWire.{to_wire_notification}
use argocd_notifier.SlackBackend.FromWire.{from_wire_notification, from_wire-to_wire}
use argocd_notifier.Slack.Client.{
  Http, Exchange, decoded, Message, ApiResponse, zero_response, post_message, call, update_rendered,
  reply_in, call_marshalled, attempts, attempt_once, attempt_result, pause, after_pause,
  after_attempt, rounds,
}
use argocd_notifier.Slack.Client.Retry.{Run, call-Run, call-negative}
use argocd_notifier.Slack.Render
use argocd_notifier.Slack.Template.{Block}
use argocd_notifier.SlackBackend
use argocd_notifier.SlackBackend.{notify_result, answer_update, answer_reply, thread_reply}
use argocd_notifier.SlackBackend.EndToEnd.{notify_request, reply_request}
use argocd_notifier.SlackBackend.Process.{
  RendererChoice, SlackClient, default_base_url, Process, Library, default_renderer, watched,
  render_by, renderer_of, in_process, slack_target,
}
use argocd_notifier.SlackBackend.Process.EditInPlace.{edited_in_place}
use argocd_notifier.Slack.Render.{
  render_notification, render_items, more_attachment, limit, render_attachments, render_marshalled,
}
use argocd_notifier.Slack.Render.Limit.{limit_lem}

abbrev pub note : Notification
note = record {
  summary = bytes "s";
  items =
      record {
        app_name = bytes "x";
        cluster = bytes "c";
        trigger = bytes "on-created";
        commit_url = [];
        commit_sha = bytes "1";
        target_revision = [];
        triggered_by = [];
        images = bytes "i" ∷ [];
        fields = record { label = bytes "l"; value = bytes "v" } ∷ [];
        detail_text = [];
        link = [];
      }
      ∷ [];
}

from_wire-to_wire_example : from_wire_notification (to_wire_notification note) ≡ note
from_wire-to_wire_example = from_wire-to_wire note

abbrev pub answer : ApiResponse
answer = record { ok = true; error = []; ts = bytes "17.1"; channel = bytes "C1" }

abbrev rate_limited : ApiResponse
rate_limited = record { ok = false; error = bytes "ratelimited"; ts = []; channel = [] }

-- An API that answers every call but the first. The world counts the calls.
abbrev limited_once : ℕ → Exchange × ℕ
limited_once w = if ltb w 1 then (decoded 429 rate_limited, w + 1) else (decoded 200 answer, w + 1)

abbrev http : Http ℕ
http = record { exchange = λ method body w. limited_once w; wait = λ d w. (none, w) }

abbrev pub marshal : Message → Outcome GoString
marshal m = success (bytes "{}")

abbrev hello : Message
hello = post_message (bytes "#c") [] (bytes "hi") []

call-Run_example :
    Run http
      (bytes "chat.postMessage")
      (bytes "{}")
      3
      0
      (call http marshal (pos 3) (bytes "chat.postMessage") hello 0)
call-Run_example = call-Run http marshal 3 (bytes "chat.postMessage") hello (bytes "{}") 0 refl

call-negative_example :
    call http marshal (negsuc 0) (bytes "chat.postMessage") hello 0 ≡ (success zero_response, 0)
call-negative_example =
    call-negative http marshal 0 (bytes "chat.postMessage") hello (bytes "{}") 0 refl

abbrev pub steady : Http ℕ
steady = record { exchange = λ method body w. (decoded 200 answer, w + 1); wait = λ d w. (none, w) }

limit_lem_example :
    (length (render_notification note).1 ≤ 100)
    × (((render_notification note).1 ≡ render_items note.items)
        ⊎ ((k : ℕ) × ((render_notification note).1
              ≡ take 99 (render_items note.items) ++ more_attachment k ∷ [])
            × (99 + k ≡ length (render_items note.items))))
limit_lem_example = limit_lem note

abbrev client : RendererChoice → SlackClient
client renderer = record {
  timeout = pos 5000000000;
  token = bytes "xoxb";
  base_url = default_base_url;
  max_retries = pos 3;
  renderer = renderer;
}

-- The network of every client.
abbrev pub slack_api : SlackClient → Http ℕ
slack_api c = steady

-- The process of the Slack backend with the built-in renderer.
abbrev pub process : ℕ → Process ℕ
process net = record {
  client = client default_renderer;
  watcher = record { fallback_to_default = false; mod_time = 0; current = none };
  registrar = record {
    name = bytes "slack";
    base_url = bytes "http://s";
    supports_thread_reply = true;
    registered = false;
  };
  net = net;
}

abbrev message_block : Block
message_block n = success (bytes "[]")

-- By then there is a template, and the client renders by it.
abbrev pub with_template : Process ℕ
with_template = record (process 5) {
  client = client watched;
  watcher = record {
    fallback_to_default = true;
    mod_time = 7;
    current = some (record { text = message_block; attachments = message_block });
  };
}

abbrev pub library : Library
library = record {
  marshal_attachments = λ made. success (bytes "[]");
  is_json = λ s. true;
  parse_template = λ s. failure [];
  marshal_message = marshal;
}

rendered : renderer_of library (process 0) note ≡ success (bytes "s", bytes "[]")
unfolding renderer_of render_by Render.render render_notification render_items limit
    render_attachments render_marshalled Render.trigger_renderer str_eq
rendered = refl

posted_first :
    call steady marshal
      (pos 3)
      (bytes "chat.postMessage")
      (post_message (bytes "#c") [] (bytes "s") (bytes "[]"))
      0
    ≡ (success answer, 1)
unfolding call call_marshalled attempts attempt_once attempt_result pause after_pause after_attempt
    rounds
posted_first = refl

edited_in_place_example :
    (ref : GoString) × (SlackBackend.notify
        (slack_target library slack_api)
        (success (notify_request (bytes "#c") [] note))
        (process 0)
      ≡ (notify_result ref, process 1))
    × (SlackBackend.notify
          (slack_target library slack_api)
          (success (notify_request (bytes "#d") ref note))
          with_template
        ≡ answer_update (slack_target library slack_api) ref (
            in_process library slack_api with_template (
              update_rendered steady marshal
                (pos 3)
                (bytes "C1", bytes "17.1")
                (renderer_of library with_template note)
                5)))
    × (thread_reply
          (slack_target library slack_api)
          (success (reply_request (bytes "#d") ref (bytes "again")))
          with_template
        ≡ answer_reply (slack_target library slack_api) (
            in_process library slack_api with_template
              (reply_in steady marshal (pos 3) (bytes "C1", bytes "17.1") (bytes "again") 5)))
edited_in_place_example =
    edited_in_place library slack_api (bytes "#c") (bytes "#d") (bytes "s") (bytes "[]")
      (bytes "again") note note answer (process 0) with_template 1 rendered posted_first
      (ground arith)
