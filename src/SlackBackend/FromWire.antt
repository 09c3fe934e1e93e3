-- ===== src/SlackBackend/FromWire.antt =====
-- internal/slackbackend/convert.go: the notification that the core sent, read back.
use argocd_notifier.Prelude.{
  ◌≡◌, refl, sym, Bool-cases, inl, inr, Option, none, some, List, [], ◌∷◌, map,
}
use argocd_notifier.Text.{GoString, is_empty, is_empty_iff}
use argocd_notifier.Notification.{Notification, Item, Field}
use argocd_notifier.Wire
use argocd_notifier.RemoteBackend.ToWire.{
  present, present_list, to_wire_field, to_wire_item, to_wire_notification,
}

-- `if p != nil { field = *p }`
unfoldable pub value_or : {A : Type 0} → A → Option A → A
value_or zero_value none = zero_value
value_or zero_value (some a) = a

unfoldable pub from_wire_field : Wire.Field → Field
from_wire_field f = record { label = f.label; value = f.value }

unfoldable pub from_wire_item : Wire.Item → Item
unfolding value_or from_wire_field
from_wire_item item = record {
  app_name = item.app_name;
  cluster = item.cluster;
  trigger = item.trigger;
  commit_sha = value_or [] item.commit_sha;
  commit_url = value_or [] item.commit_url;
  target_revision = value_or [] item.target_revision;
  detail_text = value_or [] item.detail_text;
  link = value_or [] item.link;
  triggered_by = value_or [] item.triggered_by;
  images = value_or [] item.images;
  fields = map from_wire_field (value_or [] item.fields);
}

unfoldable pub from_wire_notification : Wire.Notification → Notification
unfolding from_wire_item
from_wire_notification n = record { summary = n.summary; items = map from_wire_item n.items }

value_or-present : (s : GoString) → value_or [] (present s) ≡ s
unfolding value_or present
value_or-present s = elim (Bool-cases (is_empty s)) [
  | inl p ↦ rw p (sym ((is_empty_iff s).0 p))
  | inr p ↦ rw p refl
]

value_or-present_list : {A : Type 0} (xs : List A) → value_or [] (present_list xs) ≡ xs
unfolding value_or present_list
value_or-present_list [] = refl
value_or-present_list (x ∷ xs) = refl

map-inverse :
    {A B : Type 0} (f : A → B) (g : B → A)
    → ((x : A) → g (f x) ≡ x)
    → (xs : List A) → map g (map f xs) ≡ xs
map-inverse f g h [] = refl
map-inverse f g h (x ∷ xs) = rw (h x, map-inverse f g h xs) refl

from_wire_field-to_wire_field : (f : Field) → from_wire_field (to_wire_field f) ≡ f
unfolding from_wire_field to_wire_field
from_wire_field-to_wire_field f = refl

from_wire_item-to_wire_item : (item : Item) → from_wire_item (to_wire_item item) ≡ item
unfolding from_wire_item to_wire_item
from_wire_item-to_wire_item item =
    rw
      (
        value_or-present item.commit_sha,
        value_or-present item.commit_url,
        value_or-present item.target_revision,
        value_or-present item.detail_text,
        value_or-present item.link,
        value_or-present item.triggered_by,
        value_or-present_list item.images,
        value_or-present_list (map to_wire_field item.fields),
        map-inverse to_wire_field from_wire_field from_wire_field-to_wire_field item.fields,
      )
      refl

-- The backend reads back the notification that the core wrote, with every field of every item.
pub from_wire-to_wire : (n : Notification) → from_wire_notification (to_wire_notification n) ≡ n
unfolding from_wire_notification to_wire_notification
from_wire-to_wire n =
    rw (map-inverse to_wire_item from_wire_item from_wire_item-to_wire_item n.items) refl
