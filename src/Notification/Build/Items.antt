-- ===== src/Notification/Build/Items.antt =====
-- The builders of the items, one for each trigger, and their helpers.
use argocd_notifier.Prelude.{
  ℕ, ◌||◌, Option, none, some, [], ◌∷◌, ◌++◌, ◌==◌, ltb, leb, if◌then◌else◌, length, take,
}
use argocd_notifier.Text.{GoString, text_eq, bytes, is_empty, trim_right, trim_suffix}
use argocd_notifier.Event.{Event}
use argocd_notifier.Notification.{Item}

unfoldable pub or_default : GoString → GoString → GoString
or_default s def = if is_empty s then def else s

-- len(s) and s[:n] count bytes.
unfoldable pub truncate : GoString → ℕ → GoString
truncate s n = if leb (length s) n then s else take n s ++ bytes "..."

unfoldable pub commit_sha : Event → GoString
commit_sha ev =
    if is_empty ev.revision
    then bytes "?"
    else if ltb 8 (length ev.revision)
    then take 8 ev.revision
    else ev.revision

unfoldable pub commit_url : Event → GoString
commit_url ev =
    if is_empty ev.repo_url || is_empty ev.revision
    then []
    else trim_suffix ev.repo_url (bytes ".git") ++ (bytes "/commit/" ++ ev.revision)

unfoldable pub argocd_link : Event → GoString
argocd_link ev = trim_right ev.argocd_url b'/' ++ (bytes "/applications/" ++ ev.app_name)

unfoldable pub cluster : Event → GoString
unfolding or_default
cluster ev = or_default ev.target (bytes "?")

-- An item with the fields that every builder sets, the others at their zero values.
abbrev base_item : Event → Item
base_item ev = record {
  app_name = ev.app_name;
  cluster = cluster ev;
  trigger = ev.trigger;
  commit_url = [];
  commit_sha = [];
  target_revision = ev.target_revision;
  triggered_by = [];
  images = [];
  fields = [];
  detail_text = [];
  link = [];
}

unfoldable pub build_created_item : Event → Item
build_created_item ev = record (base_item ev) { link = argocd_link ev }

unfoldable pub build_deleted_item : Event → Item
build_deleted_item ev = base_item ev

unfoldable pub build_deployed_item : Event → Item
build_deployed_item ev = record (base_item ev) {
  commit_url = commit_url ev;
  commit_sha = commit_sha ev;
  triggered_by = or_default ev.initiated_by (bytes "auto-sync");
  images = ev.images;
  link = argocd_link ev;
}

unfoldable pub build_sync_failed_item : Event → Item
build_sync_failed_item ev = record (base_item ev) {
  fields = record { label = bytes "Phase"; value = ev.sync_phase } ∷ [];
  detail_text = truncate ev.operation_msg 300;
  link = argocd_link ev;
}

unfoldable pub build_health_degraded_item : Event → Item
build_health_degraded_item ev = record (base_item ev) {
  fields = record { label = bytes "Health"; value = bytes ":large_yellow_circle: Degraded" } ∷ [];
  link = argocd_link ev;
}

unfoldable pub build_sync_running_item : Event → Item
build_sync_running_item ev = record (base_item ev) {
  commit_url = commit_url ev;
  commit_sha = commit_sha ev;
  triggered_by = or_default ev.initiated_by (bytes "auto-sync");
  link = argocd_link ev;
}

unfoldable pub build_sync_status_unknown_item : Event → Item
build_sync_status_unknown_item ev = record (base_item ev) {
  fields =
      record { label = bytes "Sync Status"; value = or_default ev.sync_status (bytes "Unknown") }
      ∷ [];
  link = argocd_link ev;
}

unfoldable pub build_sync_succeeded_item : Event → Item
build_sync_succeeded_item ev = record (base_item ev) {
  commit_url = commit_url ev;
  commit_sha = commit_sha ev;
  link = argocd_link ev;
}

-- triggerBuilders[trigger]
unfoldable pub trigger_builder : GoString → Option (Event → Item)
trigger_builder t =
    if t == bytes "on-created"
    then some build_created_item
    else if t == bytes "on-deleted"
    then some build_deleted_item
    else if t == bytes "on-deployed"
    then some build_deployed_item
    else if t == bytes "on-health-degraded"
    then some build_health_degraded_item
    else if t == bytes "on-sync-failed"
    then some build_sync_failed_item
    else if t == bytes "on-sync-running"
    then some build_sync_running_item
    else if t == bytes "on-sync-status-unknown"
    then some build_sync_status_unknown_item
    else if t == bytes "on-sync-succeeded"
    then some build_sync_succeeded_item
    else none
