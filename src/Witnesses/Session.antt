-- ===== src/Witnesses/Session.antt =====
-- The theorems on `SessionPublisher` at sessions of one and two apps.
use argocd_notifier.Prelude.{
  pick, List, ℕ, ◌+◌, ◌≡◌, ◌≢◌, refl, true, false, [], ◌∷◌, All, none, some, ne_of_==,
}
use argocd_notifier.Text.{GoString, bytes, text_eq, str_eq}
use argocd_notifier.Maps.{GoMap, lookup, insert}
use argocd_notifier.Event.{Event}
use argocd_notifier.Notification.Build.{build, built, assemble}
use argocd_notifier.Aggregator.Keys.{
  RefKey, session_key_eq, ref_key_eq, session_key_beq, ref_key_beq,
}
use argocd_notifier.Aggregator.Clock.{Time, is_stale, time_sub}
use argocd_notifier.Aggregator.Content.{same_hash, content_hash, content, hex_encode}
use argocd_notifier.Aggregator.Backends.{Backend, Resolver, success}
use argocd_notifier.Aggregator.Session.{
  Session, Publisher, Begun, new_publisher, begin, merge, store_refs, is_duplicate, send_groups,
  nothing_sent, upsert, duplicate_action_thread,
}
use argocd_notifier.Aggregator.Session.Merge.{merge-Agrees, Agrees, latest, IsRepeat}
use argocd_notifier.Aggregator.Session.WellFormed.{
  IsWellFormed, new-IsWellFormed, begin-IsWellFormed,
}
use argocd_notifier.Aggregator.Session.Refs.{notified_ref}
use argocd_notifier.Aggregator.Session.Lifecycle.{
  session_after, expired_session, late_refs, dropped_repeats,
}
use argocd_notifier.Aggregator.Session.{merge_one, open_session, live_session, update_refs}
use argocd_notifier.Maps.{copy}
use argocd_notifier.Aggregator.Session.Interleave.{
  Action, start, finish, Running, perform, perform_all, nothing_running, refs_of, finish_call,
}
use argocd_notifier.Aggregator.Session.Interleave.Always.{session_refs}
use argocd_notifier.Aggregator.Session.Errors.{IsSending, ErrorsAre, upsert-IsSending}
use argocd_notifier.Witnesses.Data.{created, deployed, publisher_config, session, channel}

-- For SHA-256, a function that keeps its argument.
abbrev pub digest : GoString → GoString
digest s = s

abbrev pub clock_text : Time → GoString
clock_text t = bytes "t"

-- The world counts the calls of one backend, which is a Notifier.
abbrev notifier : Backend ℕ
notifier = record {
  notify = some (λ recipient ref n w. (success (bytes "ts"), w + 1));
  post = none;
  update = none;
  post_thread_reply = none;
}

abbrev one_backend : Resolver ℕ
one_backend name w = some notifier

abbrev apps : GoMap GoString Event
apps = (bytes "x", created) ∷ []

abbrev pub known_session : Session
known_session = record {
  address = 0;
  state = record { per_app = apps; refs = (channel, bytes "ts") ∷ []; last_flush = 0 };
}

abbrev pub known_publisher : Publisher
known_publisher = record { sessions = (session, known_session) ∷ []; next_address = 1 }

abbrev opened : Begun × Publisher
opened = begin digest publisher_config 0 session (created ∷ []) new_publisher

abbrev opened_session : Session
opened_session = record {
  address = opened.0.address;
  state = record { per_app = opened.0.per_app; refs = opened.0.refs; last_flush = 0 };
}

opened-IsWellFormed : IsWellFormed opened.1
opened-IsWellFormed =
    begin-IsWellFormed digest publisher_config 0 session (created ∷ []) new_publisher (refl, tt)
      new-IsWellFormed

expired : is_stale 100 0 publisher_config.session_ttl ≡ true
unfolding is_stale time_sub
expired = refl

pub fresh : is_stale 20 0 publisher_config.session_ttl ≡ false
unfolding is_stale time_sub
fresh = refl

merge-Agrees_example : Agrees digest (latest (bytes "x") (created ∷ deployed ∷ [])) none (
    lookup
      (bytes "x")
      (merge digest
        (record { per_app = []; duplicates = []; changed = false })
        (created ∷ deployed ∷ [])).per_app)
unfolding lookup
merge-Agrees_example =
    merge-Agrees digest (bytes "x") (record { per_app = []; duplicates = []; changed = false })
      (created ∷ deployed ∷ [])

abbrev other_channel : RefKey
other_channel = record { backend = bytes "b"; recipient = bytes "d" }

other_ne : other_channel ≢ channel
unfolding ref_key_beq str_eq
other_ne = ne_of_== other_channel channel refl

built_apps : build apps ≡ built (assemble apps)
unfolding build
built_apps = refl

notified_ref_example :
    lookup channel
      (send_groups one_backend []
        ((channel, apps) ∷ (other_channel, apps) ∷ [])
        (nothing_sent 0)).new_refs
    ≡ some (bytes "ts")
unfolding send_groups
notified_ref_example =
    notified_ref one_backend [] [] ((other_channel, apps) ∷ []) channel apps (assemble apps)
      notifier (λ recipient ref n w. (success (bytes "ts"), w + 1)) (bytes "ts") 1 (nothing_sent 0)
      (other_ne, tt) built_apps refl refl refl

expired_session_example :
    let b : Begun = (begin digest publisher_config 100 session (deployed ∷ []) opened.1).0 in
    (b.refs ≡ [])
    × (b.per_app
        ≡ (merge digest
            (record { per_app = []; duplicates = []; changed = false })
            (deployed ∷ [])).per_app)
    × (b.address ≢ opened_session.address)
expired_session_example =
    expired_session digest publisher_config 100 session (deployed ∷ []) opened.1 opened_session
      opened-IsWellFormed
      (session_after digest publisher_config 0 session (created ∷ []) new_publisher) expired

late_refs_example :
    store_refs session opened_session.address
      ((channel, bytes "ts") ∷ [])
      (begin digest publisher_config 100 session (deployed ∷ []) opened.1).1
    ≡ (begin digest publisher_config 100 session (deployed ∷ []) opened.1).1
late_refs_example =
    late_refs digest publisher_config 100 session (deployed ∷ []) opened.1 opened_session
      ((channel, bytes "ts") ∷ []) opened-IsWellFormed
      (session_after digest publisher_config 0 session (created ∷ []) new_publisher) expired

pub known : lookup session known_publisher.sessions ≡ some known_session
unfolding lookup session_key_beq str_eq
known = refl

pub repeats : All (IsRepeat digest known_session.state.per_app) (created ∷ [])
unfolding lookup str_eq is_duplicate same_hash content_hash hex_encode content
repeats = (refl, tt)

pub drops : str_eq publisher_config.duplicate_action duplicate_action_thread ≡ false
unfolding str_eq
drops = refl

dropped_repeats_example :
    upsert digest clock_text one_backend publisher_config 20 session
      (created ∷ [])
      (known_publisher, 0)
    ≡ (
      none,
      (
        record known_publisher {
          sessions =
              insert session
                (record known_session { state = record known_session.state { last_flush = 20 } })
                known_publisher.sessions;
        },
        0,
      ),
    )
dropped_repeats_example =
    dropped_repeats digest clock_text one_backend publisher_config 20 session created []
      known_publisher 0 known_session known fresh repeats drops

-- Two calls of one session: the second begins before the first has stored its reference.
abbrev overlap : List Action
overlap =
    start 0 session (created ∷ [])
    ∷ start 10 session (deployed ∷ [])
    ∷ finish 1 ((channel, bytes "ts") ∷ [])
    ∷ []

abbrev overlapped : Running
overlapped = perform_all digest publisher_config overlap nothing_running

abbrev shared_session : Session
shared_session = record {
  address = 0;
  state = record {
    per_app = (bytes "x", created) ∷ (bytes "y", deployed) ∷ [];
    refs = (channel, bytes "ts") ∷ [];
    last_flush = 10;
  };
}

shared : lookup session overlapped.publisher.sessions ≡ some shared_session
unfolding perform_all perform pick finish_call begin merge merge_one is_duplicate open_session
    live_session store_refs update_refs lookup insert copy session_key_beq str_eq is_stale time_sub
shared = refl

session_refs_example :
    shared_session.state.refs ≡ refs_of session shared_session.address overlapped.history
session_refs_example = session_refs digest publisher_config overlap session shared_session shared

upsert-IsSending_example :
    ErrorsAre IsSending
      (upsert digest clock_text one_backend publisher_config 0 session
        (created ∷ deployed ∷ [])
        (new_publisher, 0)).0
upsert-IsSending_example =
    upsert-IsSending digest clock_text one_backend publisher_config 0 session
      (created ∷ deployed ∷ []) new_publisher 0
