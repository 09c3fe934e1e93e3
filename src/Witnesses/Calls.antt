-- ===== src/Witnesses/Calls.antt =====
-- The theorems on the calls that `Upsert` makes, at backends that note their calls.
use argocd_notifier.Prelude.{List, ◌≡◌, refl, true, [], ◌∷◌, none, some, ne_of_==}
use argocd_notifier.Text.{GoString, bytes, text_eq, str_eq}
use argocd_notifier.Maps.{lookup, insert}
use argocd_notifier.Aggregator.Keys.{RefKey, session_key_eq, ref_key_eq, session_key_beq}
use argocd_notifier.Aggregator.Backends.{Backend, Resolver, success}
use argocd_notifier.Aggregator.Session.{
  new_publisher, begin, merge, is_duplicate, upsert, duplicate_action_thread,
}
use argocd_notifier.Aggregator.Session.{merge_one, open_session, live_session}
use argocd_notifier.Prelude.{◌++◌, ◌==◌, if◌then◌else◌}
use argocd_notifier.Maps.{keys}
use argocd_notifier.Notification.{Notification}
use argocd_notifier.Aggregator.Backends.{Call, failure}
use argocd_notifier.Aggregator.Recipients.{group_apps}
use argocd_notifier.Aggregator.Session.Calls.{LogsCalls, upsert_calls}
use argocd_notifier.Aggregator.Session.Threads.{Reply, replies, LogsReplies, threaded_repeats}
use argocd_notifier.Aggregator.Session.{PublisherConfig}
use argocd_notifier.Prelude.Int.{pos}
use argocd_notifier.Aggregator.Session.{merge, merge_one, is_duplicate, open_session, live_session}
use argocd_notifier.Maps.{lookup, insert}
use argocd_notifier.Aggregator.Keys.{session_key_beq}
use argocd_notifier.Text.{str_eq}
use argocd_notifier.Aggregator.Recipients.{group_apps}
use argocd_notifier.Witnesses.Session.{
  digest, clock_text, known_session, known_publisher, known, fresh, repeats, drops,
}
use argocd_notifier.Witnesses.Data.{created, deployed, publisher_config, session}

-- A backend that fails for one recipient, in a world that is the log of its calls.
abbrev logged : GoString → GoString → GoString → Notification → Call (List RefKey) GoString
logged name recipient ref n w = (
  if recipient == bytes "c" then failure (bytes "down") else success (bytes "ts"),
  w ++ record { backend = name; recipient = recipient } ∷ [],
)

abbrev logging_backend : GoString → List RefKey → Backend (List RefKey)
logging_backend name w = record {
  notify = some (logged name);
  post = none;
  update = none;
  post_thread_reply = none;
}

abbrev logging : Resolver (List RefKey)
logging name w = some (logging_backend name w)

logging-LogsCalls : LogsCalls logging (λ w. w)
logging-LogsCalls = record {
  backend = logging_backend;
  notify = logged;
  resolves = λ name w. refl;
  notifies = λ name w. refl;
  logs = λ name recipient ref n w. refl;
}

brings_news :
    (begin digest publisher_config 0 session (created ∷ deployed ∷ []) new_publisher).0.changed
    ≡ true
unfolding begin merge merge_one is_duplicate open_session live_session lookup insert str_eq
    session_key_beq
brings_news = refl

upsert_calls_example :
    (upsert digest clock_text logging publisher_config 0 session
      (created ∷ deployed ∷ [])
      (new_publisher, [])).1.1
    ≡ []
      ++ keys (
          group_apps (
            (begin digest publisher_config 0 session
              (created ∷ deployed ∷ [])
              new_publisher).0.per_app))
upsert_calls_example =
    upsert_calls logging (λ w. w) logging-LogsCalls digest clock_text publisher_config 0 session
      created (deployed ∷ []) new_publisher [] brings_news (ne_of_== _ _ drops)

-- The same for replies; the world is their log.
abbrev logged_reply : GoString → GoString → GoString → GoString → Call (List Reply) (Unit {0})
logged_reply name recipient ref text w = (
  failure (bytes "down"),
  w
      ++ record {
        destination = record { backend = name; recipient = recipient };
        ref = ref;
        text = text;
      }
        ∷ [],
)

abbrev replying_backend : GoString → List Reply → Backend (List Reply)
replying_backend name w = record {
  notify = none;
  post = none;
  update = none;
  post_thread_reply = some (logged_reply name);
}

abbrev replying : Resolver (List Reply)
replying name w = some (replying_backend name w)

replying-LogsReplies : LogsReplies replying (λ w. w)
replying-LogsReplies = record {
  backend = replying_backend;
  reply = logged_reply;
  resolves = λ name w. refl;
  replying = λ name w. refl;
  logs = λ name recipient ref text w. refl;
}

abbrev threads : PublisherConfig
threads = record { session_ttl = pos 50; duplicate_action = duplicate_action_thread }

threads_on : str_eq threads.duplicate_action duplicate_action_thread ≡ true
unfolding str_eq
threads_on = refl

threaded_repeats_example :
    let done =
      upsert digest clock_text replying threads 20 session (created ∷ []) (known_publisher, []) in
    (done.1.1 ≡ [] ++ replies clock_text 20 known_session.state.refs (created ∷ []))
    × (done.1.0 ≡ record known_publisher {
      sessions =
          insert session
            (record known_session { state = record known_session.state { last_flush = 20 } })
            known_publisher.sessions;
    })
threaded_repeats_example =
    threaded_repeats replying (λ w. w) replying-LogsReplies digest clock_text threads 20 session
      created [] known_publisher [] known_session known fresh repeats threads_on
