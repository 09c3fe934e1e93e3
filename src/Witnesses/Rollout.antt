-- ===== src/Witnesses/Rollout.antt =====
-- The theorem on the messages of a session at two flushes and a backend with a template.
use argocd_notifier.Prelude.{ℕ, ◌≡◌, refl, true, some, [], ◌∷◌, ◌++◌, arith}
use argocd_notifier.Prelude.Int.{pos}
use argocd_notifier.Text.{GoString, bytes, text_eq, str_eq, is_empty, split, trim_space}
use argocd_notifier.Maps.{GoMap, lookup, insert, get_or}
use argocd_notifier.Event.{Event}
use argocd_notifier.Notification.{Notification}
use argocd_notifier.Notification.Build.{build, built, assemble}
use argocd_notifier.Aggregator.Keys.{session_key_eq, ref_key_eq, session_key_beq, ref_key_beq}
use argocd_notifier.Aggregator.Clock.{is_stale, time_sub}
use argocd_notifier.Aggregator.Recipients.{group_apps}
use argocd_notifier.Aggregator.Backends.{success, failure, Call}
use argocd_notifier.Aggregator.Session.{
  Begun, Publisher, new_publisher, nothing_sent, begin, merge, merge_one, is_duplicate,
  open_session, live_session, store_refs, send_groups, deliver_built,
}
use argocd_notifier.Registry
use argocd_notifier.Registry.{Registry, find, fresh_backend}
use argocd_notifier.RemoteBackend.{Surroundings, resolve}
use argocd_notifier.Api.Client as Api
use argocd_notifier.Api.Client.{OutgoingRequest, Reply, new_client_with_responses, with_http_client}
use argocd_notifier.Api.Transport.{Reaches}
use argocd_notifier.Slack.Client.{
  encode_ref, post_message, call, call_marshalled, attempts, attempt_once, attempt_result, pause,
  after_pause, after_attempt, rounds, update_rendered,
}
use argocd_notifier.Slack.Template.{render_template}
use argocd_notifier.Slack.Watcher
use argocd_notifier.SlackBackend.EndToEnd.{notify_request}
use argocd_notifier.SlackBackend.OverHttp.{Codec, slack_server}
use argocd_notifier.SlackBackend.Process.{Process, is_ready, render_by, renderer_of, slack_target}
use argocd_notifier.SlackBackend.Process.AtSlack.{Carries}
use argocd_notifier.SlackBackend.Process.SameMessage.{same_message}
use argocd_notifier.Witnesses.Data.{deployed, publisher_config, session, channel}
use argocd_notifier.Witnesses.Session.{digest, fresh}
use argocd_notifier.Witnesses.Slack.{
  answer, with_template, process, slack_api, steady, marshal, library,
}
use argocd_notifier.Witnesses.OverHttp
use argocd_notifier.Witnesses.OverHttp.{network}

abbrev apps : GoMap GoString Event
apps = (bytes "y", deployed) ∷ []

abbrev message : Notification
message = assemble apps

-- The JSON of a request is its reference; all else is the same in each of them.
abbrev json : Api.Library GoString
json = record OverHttp.library { marshal_notify = λ req. success req.ref }

abbrev codec : Codec
codec = record {
  decode_notify = λ limit body. success (notify_request (bytes "c") body message);
  decode_reply = λ limit body. failure (bytes "eof");
  encode_result = λ ref. ref;
}

carried : (ref : GoString) → Carries json codec (bytes "c") ref message
carried ref = record { body = ref; written = refl; read = refl }

abbrev doer : OutgoingRequest → Call (Process ℕ) Reply
doer req p =
    network (slack_server codec (λ q. is_ready q) (slack_target library slack_api))
      (bytes "/notify") req p

abbrev backend : Registry.Backend
backend = record {
  name = bytes "b";
  base_url = bytes "http://s";
  supports_thread_reply = true;
  last_seen = 5;
}

abbrev registry : Registry
registry = record { ttl = pos 90; backends = (bytes "b", backend) ∷ [] }

abbrev env : Surroundings (Process ℕ)
env = record {
  now = λ p. 10;
  registry = λ p. registry;
  new_client = λ url. new_client_with_responses json doer url (with_http_client doer ∷ []);
  quote = λ s. s;
}

found : find 10 (bytes "b") registry ≡ some backend
unfolding find fresh_backend lookup is_stale time_sub str_eq
found = refl

reached :
    Reaches json doer
      (slack_server codec (λ q. is_ready q) (slack_target library slack_api))
      (bytes "http://s")
      (bytes "/notify")
reached = record {
  server_url = _;
  query_url = _;
  parses = refl;
  refers = refl;
  accepts = refl;
  carries = λ body w. refl;
}

abbrev first_begun : Begun × Publisher
first_begun = begin digest publisher_config 0 session (deployed ∷ []) new_publisher

groups : group_apps first_begun.0.per_app ≡ [] ++ (channel, apps) ∷ []
unfolding begin merge merge_one is_duplicate open_session live_session lookup insert str_eq
    session_key_beq group_apps is_empty split trim_space ref_key_beq get_or
groups = refl

built_message : build apps ≡ built message
unfolding build
built_message = refl

no_message : get_or channel [] first_begun.0.refs ≡ []
unfolding begin open_session live_session lookup get_or
no_message = refl

rendered : renderer_of library with_template message ≡ success (bytes "[]", bytes "[]")
unfolding renderer_of render_by Watcher.render render_template is_empty trim_space
rendered = refl

posted_message :
    call steady marshal
      (pos 3)
      (bytes "chat.postMessage")
      (post_message (bytes "c") [] (bytes "[]") (bytes "[]"))
      5
    ≡ (success answer, 6)
unfolding call call_marshalled attempts attempt_once attempt_result pause after_pause after_attempt
    rounds
posted_message = refl

same_message_example :
    (deliver_built
      (resolve env)
      channel
      (begin digest publisher_config 20 session (deployed ∷ []) (
        store_refs session first_begun.0.address
          (send_groups
            (resolve env)
            first_begun.0.refs
            (group_apps first_begun.0.per_app)
            (nothing_sent with_template)).new_refs
          first_begun.1)).0.refs
      (built message)
      (nothing_sent (process 7))).world
    ≡ record (process 7) {
      net =
          (update_rendered steady marshal
            (pos 3)
            (bytes "C1", bytes "17.1")
            (renderer_of library (process 7) message)
            7).1;
    }
unfolding send_groups
same_message_example =
    same_message library slack_api env json doer doer codec (λ ref. refl) backend refl reached
      channel digest publisher_config 0 session (deployed ∷ []) new_publisher with_template 20
      (deployed ∷ []) [] [] apps message message (bytes "[]") (bytes "[]") answer 6
      (nothing_sent (process 7)) groups tt built_message no_message found (carried []) rendered
      posted_message (ground arith) fresh found (carried (encode_ref (bytes "C1") (bytes "17.1")))
