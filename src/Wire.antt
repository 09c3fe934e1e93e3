-- ===== src/Wire.antt =====
-- api/backendapi/backendapi.gen.go: the messages between the core and a backend, and what its client
-- makes of an answer. An optional field is a pointer, nil if it is left out.
use argocd_notifier.Prelude.{ℕ, Option, List}
use argocd_notifier.Text.{GoString}

pub record Field : Type 0 where
  pub label : GoString
  pub value : GoString

pub record Item : Type 0 where
  pub app_name : GoString
  pub cluster : GoString
  pub commit_sha : Option GoString
  pub commit_url : Option GoString
  pub detail_text : Option GoString
  pub fields : Option (List Field)
  pub images : Option (List GoString)
  pub link : Option GoString
  pub target_revision : Option GoString
  pub trigger : GoString
  pub triggered_by : Option GoString

pub record Notification : Type 0 where
  pub items : List Item
  pub summary : GoString

pub record NotifyRequest : Type 0 where
  pub notification : Notification
  pub recipient : GoString
  pub ref : GoString

pub record ThreadReplyRequest : Type 0 where
  pub recipient : GoString
  pub ref : GoString
  pub text : GoString

-- The parsed answers of the client. `json200` is the field `ref` of a result.
pub record NotifyResponse : Type 0 where
  pub status_code : ℕ
  pub json200 : Option GoString
  pub body : GoString

pub record ThreadReplyResponse : Type 0 where
  pub status_code : ℕ
  pub body : GoString
