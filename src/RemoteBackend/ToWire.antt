-- ===== src/RemoteBackend/ToWire.antt =====
-- internal/remotebackend/backend.go: `toWireNotification`. A field that is empty is left out.
use argocd_notifier.Prelude.{Option, none, some, List, [], ◌∷◌, map, if◌then◌else◌}
use argocd_notifier.Text.{GoString, is_empty}
use argocd_notifier.Notification.{Notification, Item, Field}
use argocd_notifier.Wire

-- `if field != "" { wire.Field = &field }`
unfoldable pub present : GoString → Option GoString
present s = if is_empty s then none else some s

-- `if len(xs) > 0 { wire.Field = &xs }`
unfoldable pub present_list : {A : Type 0} → List A → Option (List A)
present_list [] = none
present_list (x ∷ xs) = some (x ∷ xs)

unfoldable pub to_wire_field : Field → Wire.Field
to_wire_field f = record { label = f.label; value = f.value }

unfoldable pub to_wire_item : Item → Wire.Item
unfolding present present_list to_wire_field
to_wire_item item = record {
  app_name = item.app_name;
  cluster = item.cluster;
  trigger = item.trigger;
  commit_sha = present item.commit_sha;
  commit_url = present item.commit_url;
  target_revision = present item.target_revision;
  detail_text = present item.detail_text;
  link = present item.link;
  triggered_by = present item.triggered_by;
  images = present_list item.images;
  fields = present_list (map to_wire_field item.fields);
}

unfoldable pub to_wire_notification : Notification → Wire.Notification
unfolding to_wire_item
to_wire_notification n = record { summary = n.summary; items = map to_wire_item n.items }
