-- ===== src/Notification/Build.antt =====
-- internal/notification/build.go: from the latest event of each app to one notification.
pub mod Items
pub mod Deterministic
pub mod Contents
pub mod Summary
unfoldable pub use Items.{
  cluster, argocd_link, commit_url, commit_sha, or_default, truncate, trigger_builder,
  build_created_item, build_deleted_item, build_deployed_item, build_health_degraded_item,
  build_sync_failed_item, build_sync_running_item, build_sync_status_unknown_item,
  build_sync_succeeded_item,
}
use argocd_notifier.Prelude.{ℕ, ◌+◌, Option, none, some, List, [], ◌∷◌, ◌++◌, map}
use argocd_notifier.Text.{GoString, text_eq, bytes, join, trim_prefix, itoa, sort_strings}
use argocd_notifier.Maps.{GoMap, lookup, insert, get_or, keys}
use argocd_notifier.Event.{Event}
use argocd_notifier.Notification.{Item, Notification}

pub data BuildError : Type 0 where
  no_events : BuildError

pub data BuildResult : Type 0 where
  built : Notification → BuildResult
  failed : BuildError → BuildResult

-- counts[t]++
unfoldable pub increment : GoString → GoMap GoString ℕ → GoMap GoString ℕ
increment t counts = insert t (get_or t 0 counts + 1) counts

-- The em dash between blanks, in UTF-8.
abbrev dash : GoString
dash = 32 ∷ 0xe2 ∷ 0x80 ∷ 0x94 ∷ 32 ∷ []

unfoldable pub count_part : GoMap GoString ℕ → GoString → GoString
count_part counts t = itoa (get_or t 0 counts) ++ (32 ∷ trim_prefix t (bytes "on-"))

unfoldable pub summary : GoString → GoMap GoString ℕ → GoString
unfolding count_part
summary group_key counts =
    let triggers = sort_strings (keys counts) in
    group_key ++ (dash ++ join (bytes ", ") (map (count_part counts) triggers))

-- What the first loop of `Build` gathers.
pub record Gathered : Type 0 where
  pub names : List GoString
  pub counts : GoMap GoString ℕ
  pub group_key : GoString

unfoldable pub gather_one : Gathered → GoString → Event → Gathered
gather_one g name ev = record {
  names = g.names ++ name ∷ [];
  counts = increment ev.trigger g.counts;
  group_key = ev.group_key;
}

unfoldable pub gather : Gathered → GoMap GoString Event → Gathered
gather g [] = g
gather g ((name, ev) ∷ rest) = gather (gather_one g name ev) rest

abbrev pub nothing_gathered : Gathered
nothing_gathered = record { names = []; counts = []; group_key = [] }

-- `items = append(items, build(perApp[name]))`, unless the trigger has no builder. Each name is a key
-- of the map, so `none` is not met.
unfoldable pub item_of : Option Event → List Item
item_of none = []
item_of (some ev) = elim (trigger_builder ev.trigger) [ none ↦ [] | some build ↦ build ev ∷ [] ]

unfoldable pub build_items : GoMap GoString Event → List GoString → List Item
unfolding item_of
build_items per_app [] = []
build_items per_app (name ∷ names) = item_of (lookup name per_app) ++ build_items per_app names

-- The body behind the check.
unfoldable pub assemble : GoMap GoString Event → Notification
assemble per_app =
    let g = gather nothing_gathered per_app in
    record {
      summary = summary g.group_key g.counts;
      items = build_items per_app (sort_strings g.names);
    }

unfoldable pub build : GoMap GoString Event → BuildResult
build [] = failed no_events
build (entry ∷ rest) = built (assemble (entry ∷ rest))
