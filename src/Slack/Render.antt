-- ===== src/Slack/Render.antt =====
-- internal/slack/render.go: `DefaultRenderer`. A block is one of the three shapes that the file builds,
-- instead of a map of any values; the JSON of the attachments is a parameter.
pub mod Limit
use argocd_notifier.Prelude.{
  ℕ, ◌+◌, ◌-◌, ltb, Bool, true, false, Option, none, some, List, [], ◌∷◌, ◌++◌, map, length, take,
  ◌==◌, if◌then◌else◌,
}
use argocd_notifier.Text.{GoString, text_eq, bytes, is_empty, join, itoa}
use argocd_notifier.Notification.{Notification, Item, Field}
use argocd_notifier.Aggregator.Backends.{Outcome, success, failure}

-- A section with fields or with a text, all of type "mrkdwn", and the button "Open in ArgoCD".
pub data Block : Type 0 where
  section_fields : List GoString → Block
  section_text : GoString → Block
  open_in_argocd : GoString → Block

pub record Attachment : Type 0 where
  pub color : GoString
  pub blocks : List Block

abbrev pub max_attachments : ℕ
max_attachments = 100

unfoldable pub mrkdwn_field : GoString → GoString → GoString
mrkdwn_field label value = bytes "*" ++ (label ++ (bytes "*\n" ++ value))

unfoldable pub format_images : List GoString → GoString
format_images [] = bytes "none"
format_images (i ∷ images) = join (bytes ", ") (i ∷ images)

unfoldable pub commit_text : Item → GoString
commit_text item =
    if is_empty item.commit_url
    then bytes "`" ++ (item.commit_sha ++ bytes "`")
    else bytes "<" ++ (item.commit_url ++ (bytes "|`" ++ (item.commit_sha ++ bytes "`>")))

unfoldable pub base_fields : Item → List GoString
unfolding mrkdwn_field
base_fields item =
    mrkdwn_field (bytes "App") item.app_name ∷ mrkdwn_field (bytes "Cluster") item.cluster ∷ []

unfoldable pub fields_as_mrkdwn : List Field → List GoString
unfolding mrkdwn_field
fields_as_mrkdwn [] = []
fields_as_mrkdwn (f ∷ fields) = mrkdwn_field f.label f.value ∷ fields_as_mrkdwn fields

unfoldable pub render_created : Item → Attachment
unfolding mrkdwn_field
render_created item = record {
  color = bytes "#2eb1f2";
  blocks =
      section_fields (
        mrkdwn_field (bytes "App") item.app_name ∷ mrkdwn_field (bytes "Cluster") item.cluster ∷ [])
      ∷ open_in_argocd item.link
      ∷ [];
}

unfoldable pub render_deleted : Item → Attachment
unfolding mrkdwn_field
render_deleted item = record {
  color = bytes "#8a8a8a";
  blocks =
      section_fields (
        mrkdwn_field (bytes "App") item.app_name ∷ mrkdwn_field (bytes "Cluster") item.cluster ∷ [])
      ∷ [];
}

unfoldable pub render_deployed : Item → Attachment
unfolding mrkdwn_field commit_text format_images
render_deployed item = record {
  color = bytes "#18be52";
  blocks =
      section_fields (
        mrkdwn_field (bytes "App") item.app_name
        ∷ mrkdwn_field (bytes "Cluster") item.cluster
        ∷ mrkdwn_field (bytes "Commit") (commit_text item)
        ∷ mrkdwn_field (bytes "Triggered by") item.triggered_by
        ∷ mrkdwn_field (bytes "Images") (format_images item.images)
        ∷ [])
      ∷ open_in_argocd item.link
      ∷ [];
}

unfoldable pub render_sync_failed : Item → Attachment
unfolding base_fields fields_as_mrkdwn
render_sync_failed item = record {
  color = bytes "#E96D76";
  blocks =
      section_fields (base_fields item ++ fields_as_mrkdwn item.fields)
      ∷ section_text item.detail_text
      ∷ open_in_argocd item.link
      ∷ [];
}

unfoldable pub render_health_degraded : Item → Attachment
unfolding base_fields fields_as_mrkdwn
render_health_degraded item = record {
  color = bytes "#f4c030";
  blocks =
      section_fields (base_fields item ++ fields_as_mrkdwn item.fields)
      ∷ open_in_argocd item.link
      ∷ [];
}

unfoldable pub render_sync_running : Item → Attachment
unfolding mrkdwn_field commit_text
render_sync_running item = record {
  color = bytes "#2496ed";
  blocks =
      section_fields (
        mrkdwn_field (bytes "App") item.app_name
        ∷ mrkdwn_field (bytes "Cluster") item.cluster
        ∷ mrkdwn_field (bytes "Commit") (commit_text item)
        ∷ mrkdwn_field (bytes "Triggered by") item.triggered_by
        ∷ [])
      ∷ open_in_argocd item.link
      ∷ [];
}

unfoldable pub render_sync_status_unknown : Item → Attachment
unfolding base_fields fields_as_mrkdwn
render_sync_status_unknown item = record {
  color = bytes "#9b9b9b";
  blocks =
      section_fields (base_fields item ++ fields_as_mrkdwn item.fields)
      ∷ open_in_argocd item.link
      ∷ [];
}

unfoldable pub render_sync_succeeded : Item → Attachment
unfolding mrkdwn_field commit_text
render_sync_succeeded item = record {
  color = bytes "#2eb886";
  blocks =
      section_fields (
        mrkdwn_field (bytes "App") item.app_name
        ∷ mrkdwn_field (bytes "Cluster") item.cluster
        ∷ mrkdwn_field (bytes "Commit") (commit_text item)
        ∷ [])
      ∷ open_in_argocd item.link
      ∷ [];
}

-- triggerRenderers[trigger]
unfoldable pub trigger_renderer : GoString → Option (Item → Attachment)
trigger_renderer t =
    if t == bytes "on-created"
    then some render_created
    else if t == bytes "on-deleted"
    then some render_deleted
    else if t == bytes "on-deployed"
    then some render_deployed
    else if t == bytes "on-health-degraded"
    then some render_health_degraded
    else if t == bytes "on-sync-failed"
    then some render_sync_failed
    else if t == bytes "on-sync-running"
    then some render_sync_running
    else if t == bytes "on-sync-status-unknown"
    then some render_sync_status_unknown
    else if t == bytes "on-sync-succeeded"
    then some render_sync_succeeded
    else none

-- `attachments = append(attachments, render(item))`, unless the trigger has no renderer
unfoldable pub render_one : Option (Item → Attachment) → Item → List Attachment
render_one none item = []
render_one (some render) item = render item ∷ []

unfoldable pub render_items : List Item → List Attachment
unfolding render_one
render_items [] = []
render_items (item ∷ items) = render_one (trigger_renderer item.trigger) item ++ render_items items

unfoldable pub more_attachment : ℕ → Attachment
more_attachment overflow = record {
  color = bytes "#9b9b9b";
  blocks = section_text (bytes "_+" ++ (itoa overflow ++ bytes " more_")) ∷ [];
}

unfoldable pub limit : List Attachment → List Attachment
unfolding more_attachment
limit attachments =
    if ltb max_attachments (length attachments)
    then take (max_attachments - 1) attachments
      ++ more_attachment (length attachments - (max_attachments - 1)) ∷ []
    else attachments

unfoldable pub render_notification : Notification → GoString × List Attachment
unfolding render_items limit
render_notification n = (n.summary, limit (render_items n.items))

unfoldable pub render_marshalled : GoString → Outcome GoString → Outcome (GoString × GoString)
render_marshalled text (failure e) = failure (bytes "marshal attachments: " ++ e)
render_marshalled text (success raw) = success (text, raw)

unfoldable pub render_attachments :
    (List Attachment → Outcome GoString)
    → GoString × List Attachment
    → Outcome (GoString × GoString)
unfolding render_marshalled
render_attachments marshal (text, []) = success (text, [])
render_attachments marshal (text, a ∷ rest) = render_marshalled text (marshal (a ∷ rest))

-- `DefaultRenderer.Render`. The nil `json.RawMessage` is the empty text.
unfoldable pub render :
    (List Attachment → Outcome GoString) → Notification → Outcome (GoString × GoString)
unfolding render_notification render_attachments
render marshal n = render_attachments marshal (render_notification n)
