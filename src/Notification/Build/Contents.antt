-- ===== src/Notification/Build/Contents.antt =====
-- What a built notification holds.
use mathlib.Core.List.{map-append}
use argocd_notifier.Prelude.{
  ℕ, ◌+◌, ◌≤◌, ◌≡◌, refl, inl, inr, Bool, true, false, Option, none, some, List, [], ◌∷◌, map,
  arith, All, keep, length, take, if◌then◌else◌, ◌==◌, length-append, length-take, take-append_take,
  Option-cases,
}
use argocd_notifier.Text.{GoString, text_eq, str_eq_iff, bytes, sort_strings, is_empty_iff}
use argocd_notifier.Maps.{GoMap, lookup, get_or, keys, lookup-insert}
use argocd_notifier.Event.{Event}
use argocd_notifier.Notification.{Item, Notification}
use argocd_notifier.Notification.Build.{
  build_created_item, build_deleted_item, build_deployed_item, build_health_degraded_item,
  build_sync_failed_item, build_sync_running_item, build_sync_status_unknown_item,
  build_sync_succeeded_item, cluster, argocd_link, commit_sha, truncate, trigger_builder, gather,
  nothing_gathered, Gathered, gather_one, increment, item_of, build_items, assemble, build, built,
}
use argocd_notifier.Notification.Build.Deterministic.{gather-names}

-- Each app is filed under its name, as `SessionPublisher` does.
abbrev pub FiledByName : GoMap GoString Event → Type 0
FiledByName m = All (λ e. e.0 ≡ e.1.app_name) m

has_builder : Option (Event → Item) → Bool
has_builder none = false
has_builder (some b) = true

unfoldable pub shown : Option Event → Bool
unfolding has_builder
shown none = false
shown (some ev) = has_builder (trigger_builder ev.trigger)

-- The app's latest event has a trigger that has a builder.
abbrev pub is_shown : GoMap GoString Event → GoString → Bool
is_shown m name = shown (lookup name m)

-- Whatever the trigger, these fields come from the event.
pub record Describes (ev : Event) (i : Item) : Type 0 where
  pub same_app : i.app_name ≡ ev.app_name
  pub same_trigger : i.trigger ≡ ev.trigger
  pub same_cluster : i.cluster ≡ cluster ev
  pub same_target_revision : i.target_revision ≡ ev.target_revision
  pub link_kind : i.link ≡ (if ev.trigger == bytes "on-deleted" then [] else argocd_link ev)

pub item_of-Describes : (ev : Event) → All (Describes ev) (item_of (some ev))
unfolding item_of trigger_builder build_created_item build_deleted_item build_deployed_item
    build_health_degraded_item build_sync_failed_item build_sync_running_item
    build_sync_status_unknown_item build_sync_succeeded_item
item_of-Describes ev =
    ground (
      arith,
      str_eq_iff ev.trigger (bytes "on-deleted"),
      str_eq_iff ev.trigger (bytes "on-created"),
    )

item_of-names :
    (ev : Event)
    → map (λ i. i.app_name) (item_of (some ev)) ≡ (if shown (some ev) then ev.app_name ∷ [] else [])
unfolding item_of shown
item_of-names ev = ground (arith, item_of-Describes ev)

lookup-FiledByName :
    (m : GoMap GoString Event) (name : GoString) (ev : Event)
    → FiledByName m
    → lookup name m ≡ some ev
    → ev.app_name ≡ name
unfolding lookup
lookup-FiledByName [] name ev f p = cc
lookup-FiledByName ((k, e) ∷ m) name ev f p =
    ground (arith, str_eq_iff k name, lookup-FiledByName m name ev f.1)

-- The names of the items that one name gives rise to.
item_names :
    (m : GoMap GoString Event) (name : GoString)
    → FiledByName m
    → map (λ i. i.app_name) (item_of (lookup name m)) ≡ (if is_shown m name then name ∷ [] else [])
item_names m name f = elim (Option-cases (lookup name m)) [
  | inl p ↦ rw p (unfold item_of shown in refl)
  | inr (ev, p) ↦ rw (p, ← lookup-FiledByName m name ev f p) (item_of-names ev)
]

build_items-names :
    (m : GoMap GoString Event) (names : List GoString)
    → FiledByName m
    → map (λ i. i.app_name) (build_items m names) ≡ keep (is_shown m) names
unfolding build_items
build_items-names m [] f = refl
build_items-names m (name ∷ names) f =
    rw (map-append, item_names m name f, build_items-names m names f) (ground arith)

-- The items are those of the apps whose trigger has a builder, in the order of the names.
pub build-names :
    (m : GoMap GoString Event) (n : Notification)
    → FiledByName m
    → build m ≡ built n
    → map (λ i. i.app_name) n.items ≡ keep (is_shown m) (sort_strings (keys m))
unfolding build assemble
build-names [] n f h = cc
build-names (x ∷ m) n f h = cc (
  gather-names nothing_gathered (x ∷ m),
  build_items-names (x ∷ m) (sort_strings (keys (x ∷ m))) f,
)

-- The number of apps whose latest event has the trigger.
abbrev pub apps_with : GoString → GoMap GoString Event → ℕ
apps_with t m = length (keep (λ e. e.1.trigger == t) m)

get_or-increment :
    (t u : GoString) (c : GoMap GoString ℕ)
    → get_or t 0 (increment u c) ≡ (if u == t then get_or t 0 c + 1 else get_or t 0 c)
unfolding increment get_or
get_or-increment t u c = ground (arith, lookup-insert u t (get_or u 0 c + 1) c, str_eq_iff u t)

get_or-gather :
    (t : GoString) (g : Gathered) (m : GoMap GoString Event)
    → get_or t 0 (gather g m).counts ≡ get_or t 0 g.counts + apps_with t m
unfolding gather gather_one
get_or-gather t g [] = omega arith
get_or-gather t g ((k, ev) ∷ m) =
    ground (arith, get_or-gather t (gather_one g k ev) m, get_or-increment t ev.trigger g.counts)

-- What the first loop counts for a trigger is the number of apps that last reported it.
pub count_exact :
    (t : GoString) (m : GoMap GoString Event)
    → get_or t 0 (gather nothing_gathered m).counts ≡ apps_with t m
unfolding get_or lookup
count_exact t m = omega (arith, get_or-gather t nothing_gathered m)

-- A long text is cut to `n` bytes and an ellipsis; a short one stays.
pub truncate_lem :
    (s : GoString) (n : ℕ)
    → (length (truncate s n) ≤ n + 3)
      × (take n (truncate s n) ≡ take n s)
      × (length s ≤ n → truncate s n ≡ s)
unfolding truncate
truncate_lem s n = ground (
  arith,
  length-take n s,
  length-append (take n s) (bytes "..."),
  take-append_take n s (bytes "..."),
)

-- The short form of a revision has 1 to 8 bytes.
pub commit_sha-bounds : (ev : Event) → (1 ≤ length (commit_sha ev)) × (length (commit_sha ev) ≤ 8)
unfolding commit_sha
commit_sha-bounds ev = ground (arith, length-take 8 ev.revision, is_empty_iff ev.revision)
