-- ===== src/Witnesses/Notification.antt =====
-- The theorems on `Build` and on both functions `Validate` at examples.
use argocd_notifier.Prelude.{
  true, false, length, ltb, if◌then◌else◌, ◌≡◌, ◌↔◌, refl, List, [], ◌∷◌, ◌++◌, map, keep, swap,
  ne_of_==,
}
use argocd_notifier.Text.{GoString, bytes, join, sort_strings, text_eq, str_eq}
use argocd_notifier.Maps.{GoMap, Distinct, keys}
use argocd_notifier.Event.{Event}
use argocd_notifier.Notification.Build.{build, built, assemble}
use argocd_notifier.Notification.Build.Deterministic.{build-Reorders}
use argocd_notifier.Notification.Build.Contents.{build-names, is_shown}
use argocd_notifier.Notification.Build.Summary.{Reported, reported_text, build-summary}
use argocd_notifier.Slack.Render.{render_notification}
use argocd_notifier.Slack.Render.Limit.{built-length}
use argocd_notifier.Prelude.Int.{pos}
use argocd_notifier.Config
use argocd_notifier.Config.{load, loaded, with_pod_name}
use argocd_notifier.Config.Valid.{IsValid, load_iff-IsValid}
use argocd_notifier.Aggregator.Backends.{Outcome, success}
use argocd_notifier.Witnesses.Data.{group, created, deployed}

abbrev apps : GoMap GoString Event
apps = (bytes "y", deployed) ∷ (bytes "x", created) ∷ []

abbrev other_order : GoMap GoString Event
other_order = (bytes "x", created) ∷ (bytes "y", deployed) ∷ []

apps-Distinct : Distinct (keys apps)
unfolding str_eq
apps-Distinct = ((ne_of_== (bytes "x") (bytes "y") refl, tt), (tt, tt))

build-Reorders_example : build apps ≡ build other_order
build-Reorders_example = build-Reorders group swap apps-Distinct (refl, (refl, tt))

built_apps : build apps ≡ built (assemble apps)
unfolding build
built_apps = refl

build-names_example :
    map (λ i. i.app_name) (assemble apps).items ≡ keep (is_shown apps) (sort_strings (keys apps))
build-names_example = build-names apps (assemble apps) (refl, (refl, tt)) built_apps

build-summary_example :
    (ts : List GoString) × Reported apps ts
    × ((assemble apps).summary
        ≡ group ++ (32 ∷ 0xe2 ∷ 0x80 ∷ 0x94 ∷ 32 ∷ join (bytes ", ") (map (reported_text apps) ts)))
build-summary_example = build-summary group apps (assemble apps) (refl, (refl, tt)) built_apps

built-length_example :
    length (render_notification (assemble apps)).1
    ≡ (if ltb 100 (length (assemble apps).items) then 100 else length (assemble apps).items)
built-length_example = built-length apps (assemble apps) built_apps

abbrev pub defaults : Config.Config
defaults = record {
  listen_addr = bytes ":8080";
  ingest_queue_size = pos 1024;
  worker_count = pos 4;
  group_label = bytes "rollout";
  idle_window = pos 30000000000;
  max_wait = pos 300000000000;
  combine_triggers = true;
  session_ttl = pos 2700000000000;
  duplicate_action = bytes "drop";
  backend_registry_ttl = pos 90000000000;
  remote_backend_request_timeout = pos 5000000000;
  log_level = bytes "info";
  log_format = bytes "json";
  leader_election_enabled = false;
  leader_election_namespace = [];
  lease_name = bytes "argocd-notifier-leader";
  lease_duration = pos 15000000000;
  renew_deadline = pos 10000000000;
  retry_period = pos 2000000000;
  pod_name = [];
  pod_namespace = [];
  leader_proxy_request_timeout = pos 5000000000;
  pprof_enabled = false;
  pprof_addr = bytes ":6060";
}

abbrev host : Outcome GoString
host = success (bytes "pod-0")

load_iff-IsValid_example :
    (load host (success defaults) ≡ loaded defaults)
    ↔ ((with_pod_name host defaults ≡ defaults) × IsValid (with_pod_name host defaults))
load_iff-IsValid_example = load_iff-IsValid host defaults defaults
