-- ===== src/Witnesses/OverHttp.antt =====
-- The theorems on calls by HTTP, at a network with one server.
use argocd_notifier.Prelude.{ℕ, ◌+◌, ◌≡◌, refl, Bool, true, false, none, some, [], ◌∷◌, ◌++◌, arith}
use argocd_notifier.Prelude.Int.{pos}
use argocd_notifier.Text.{GoString, bytes, text_eq, str_eq, is_empty}
use argocd_notifier.Maps.{lookup}
use argocd_notifier.Aggregator.Clock.{is_stale, time_sub}
use argocd_notifier.Aggregator.Backends.{Outcome, success, Call}
use argocd_notifier.Http.{
  Request, new_writer, Handler, returned, panicked, response_of, middleware, post,
}
use argocd_notifier.Http.Recovery.{answer_of, middleware_lem}
use argocd_notifier.Api.Client.{
  OutgoingRequest, Reply, Library, new_client_with_responses, with_http_client,
}
use argocd_notifier.Api.Transport.{delivered, Reaches}
use argocd_notifier.Aggregator.Engine.{new_engine}
use argocd_notifier.Registry
use argocd_notifier.Registry.{find, fresh_backend, new_registry}
use argocd_notifier.Registry.Handler.{RegisterBackendRequest}
use argocd_notifier.Registry.History.{is_complete, backend_of}
use argocd_notifier.RemoteBackend
use argocd_notifier.RemoteBackend.{Surroundings}
use argocd_notifier.Core.{Core}
use argocd_notifier.Core.Server.{serve}
use argocd_notifier.SlackBackend.{Target}
use argocd_notifier.SlackBackend.EndToEnd.{notify_request, reply_request, notify_target, replied}
use argocd_notifier.SlackBackend.OverHttp.{Codec, slack_server, notify_over_http, reply_over_http}
use argocd_notifier.SlackBackend.Registrar.{Registrar, has_registered, register}
use argocd_notifier.SlackBackend.Registrar.Heartbeat.{registration_at}
use argocd_notifier.SlackBackend.Registrar.OverHttp.{post_registration, heartbeat_over_http}
use argocd_notifier.Witnesses.Slack.{note}
use argocd_notifier.Witnesses.Core.{new_core, codec}

-- A target that can edit and reply; the world counts its calls.
abbrev reply_call : GoString → GoString → GoString → ℕ → Outcome (Unit {0}) × ℕ
reply_call recipient ref text w = (success tt, w + 1)

abbrev target : Target ℕ
target = record {
  post = λ recipient n w. (success (bytes "new"), w + 1);
  update = some (λ recipient ref n w. (success tt, w + 1));
  post_thread_reply = some reply_call;
}

-- A URL is its text. Only one request is ever encoded.
abbrev pub library : Library GoString
library = record {
  parse_url = λ s. success s;
  parse_reference = λ u s. success (u ++ s);
  url_string = λ u. u;
  request_error = λ method url. none;
  marshal_notify = λ req. success (bytes "{}");
  marshal_reply = λ req. success (bytes "{}");
  unmarshal_result = λ s. success s;
}

abbrev slack_codec : Codec
slack_codec = record {
  decode_notify = λ limit body. success (notify_request (bytes "#c") (bytes "ts") note);
  decode_reply = λ limit body. success (reply_request (bytes "#c") (bytes "ts") (bytes "t"));
  encode_result = λ ref. ref;
}

abbrev ready : ℕ → Bool
ready w = true

-- The network, for requests to one path of a server.
abbrev pub network : {W : Type 0} → Handler W → GoString → OutgoingRequest → Call W Reply
network server path req w =
    delivered (server (record { method = post; path = path; body = req.body }) (new_writer, w))

abbrev slack_doer : GoString → OutgoingRequest → Call ℕ Reply
slack_doer path req w = network (slack_server slack_codec ready target) path req w

abbrev slack : Registry.Backend
slack = record {
  name = bytes "slack";
  base_url = bytes "http://s";
  supports_thread_reply = true;
  last_seen = 5;
}

abbrev surroundings : GoString → Surroundings ℕ
surroundings path = record {
  now = λ w. 10;
  registry = λ w. record { ttl = pos 90; backends = (bytes "slack", slack) ∷ [] };
  new_client = λ url.
      new_client_with_responses library (slack_doer path) url
        (with_http_client (slack_doer path) ∷ []);
  quote = λ s. s;
}

found :
    find 10 (bytes "slack") (record { ttl = pos 90; backends = (bytes "slack", slack) ∷ [] })
    ≡ some slack
unfolding find fresh_backend lookup is_stale time_sub str_eq
found = refl

slack_reached :
    (path : GoString)
    → Reaches library
        (slack_doer path)
        (slack_server slack_codec ready target)
        (bytes "http://s")
        path
slack_reached path = record {
  server_url = _;
  query_url = _;
  parses = refl;
  refers = refl;
  accepts = refl;
  carries = λ body w. refl;
}

notify_over_http_example :
    RemoteBackend.notify
      (surroundings (bytes "/notify"))
      (bytes "slack")
      (bytes "#c")
      (bytes "ts")
      note
      0
    ≡ notify_target
        (surroundings (bytes "/notify"))
        (bytes "slack")
        target
        (bytes "#c")
        (bytes "ts")
        note
        0
notify_over_http_example =
    notify_over_http (surroundings (bytes "/notify")) (bytes "slack") library
      (slack_doer (bytes "/notify")) (slack_doer (bytes "/notify")) slack_codec ready target
      (λ ref. refl) slack (bytes "#c") (bytes "ts") note (bytes "{}") 0 found refl
      (slack_reached (bytes "/notify")) refl refl

reply_over_http_example :
    RemoteBackend.post_thread_reply
      (surroundings (bytes "/thread-reply"))
      (bytes "slack")
      (bytes "#c")
      (bytes "ts")
      (bytes "t")
      0
    ≡ replied
        (surroundings (bytes "/thread-reply"))
        (bytes "slack")
        (reply_call (bytes "#c") (bytes "ts") (bytes "t") 0)
reply_over_http_example =
    reply_over_http (surroundings (bytes "/thread-reply")) (bytes "slack") library
      (slack_doer (bytes "/thread-reply")) (slack_doer (bytes "/thread-reply")) slack_codec ready
      target (λ ref. refl) slack reply_call (bytes "#c") (bytes "ts") (bytes "t") (bytes "{}") 0
      found refl refl refl (slack_reached (bytes "/thread-reply")) refl refl

abbrev registrar : Registrar
registrar = record {
  name = bytes "mail";
  base_url = bytes "http://m";
  supports_thread_reply = false;
  registered = false;
}

abbrev register_path : GoString
register_path = bytes "/v1/backends/register"

abbrev core_doer : OutgoingRequest → Call (Core ℕ) Reply
core_doer req c = network (λ r t. serve codec r t) register_path req c

abbrev marshal : RegisterBackendRequest → Outcome GoString
marshal req = success (bytes "{}")

core_reached :
    Reaches library core_doer (λ r t. serve codec r t) (bytes "http://core") register_path
core_reached = record {
  server_url = _;
  query_url = _;
  parses = refl;
  refers = refl;
  accepts = refl;
  carries = λ body w. refl;
}

complete : is_complete (registration_at 100 registrar) ≡ true
unfolding is_empty
complete = refl

still_fresh : is_stale 120 100 (pos 90) ≡ false
unfolding is_stale time_sub
still_fresh = refl

heartbeat_over_http_example :
    (has_registered
        (register
          (post_registration library marshal core_doer codec (bytes "http://core"))
          registrar
          new_core).0
      ≡ true)
    × (find 120 registrar.name
          (register
            (post_registration library marshal core_doer codec (bytes "http://core"))
            registrar
            new_core).1.registry
        ≡ some (backend_of (registration_at 100 registrar)))
unfolding new_registry new_engine
heartbeat_over_http_example =
    heartbeat_over_http library marshal core_doer codec (bytes "http://core") registrar (bytes "{}")
      new_core 120 core_reached refl refl complete tt (omega arith) still_fresh

-- A handler that panics behind its first word.
abbrev falters : Handler ℕ
falters req (wr, w) =
    (panicked (bytes "nil"), (record wr { status = some 200; body = bytes "a" }, w + 1))

abbrev ping : Request
ping = record { method = post; path = bytes "/"; body = [] }

middleware_lem_example :
    ((middleware falters ping (new_writer, 0)).0 ≡ returned)
    × (response_of (middleware falters ping (new_writer, 0)).1.0
        ≡ answer_of (falters ping (new_writer, 0)).0 (falters ping (new_writer, 0)).1.0)
    × ((middleware falters ping (new_writer, 0)).1.1 ≡ (falters ping (new_writer, 0)).1.1)
middleware_lem_example = middleware_lem falters ping new_writer 0
