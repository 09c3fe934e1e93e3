-- ===== src/Notification.antt =====
-- internal/notification/notification.go: the notification that a backend renders.
pub mod Build
use argocd_notifier.Prelude.{List}
use argocd_notifier.Text.{GoString}

pub record Field : Type 0 where
  pub label : GoString
  pub value : GoString

pub record Item : Type 0 where
  pub app_name : GoString
  pub cluster : GoString
  pub trigger : GoString
  pub commit_url : GoString
  pub commit_sha : GoString
  pub target_revision : GoString
  pub triggered_by : GoString
  pub images : List GoString
  pub fields : List Field
  pub detail_text : GoString
  pub link : GoString

pub record Notification : Type 0 where
  pub summary : GoString
  pub items : List Item
