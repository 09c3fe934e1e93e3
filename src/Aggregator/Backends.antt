-- ===== src/Aggregator/Backends.antt =====
-- What `SessionPublisher` sees of a backend: the value that the resolver finds, by the interfaces of
-- internal/notification/notification.go that it implements (`none` where a type assertion fails), and
-- internal/aggregator/resolver.go. A call acts on the world `W` outside, which a client chooses.
use argocd_notifier.Prelude.{Option}
use argocd_notifier.Text.{GoString}
use argocd_notifier.Notification.{Notification}

-- The result of a call: a value, or an error with its text.
pub data Outcome (A : Type 0) : Type 0 where
  success : A → Outcome A
  failure : GoString → Outcome A

abbrev pub Call : Type 0 → Type 0 → Type 0
Call W A = W → Outcome A × W

pub record Backend (W : Type 0) : Type 0 where
  -- Notifier: recipient, ref, notification; the new ref
  pub notify : Option (GoString → GoString → Notification → Call W GoString)
  -- Backend: recipient, notification; the ref
  pub post : Option (GoString → Notification → Call W GoString)
  -- Updater: recipient, ref, notification
  pub update : Option (GoString → GoString → Notification → Call W (Unit {0}))
  -- ThreadReplier: recipient, ref, text
  pub post_thread_reply : Option (GoString → GoString → GoString → Call W (Unit {0}))

abbrev pub Resolver : Type 0 → Type 0
Resolver W = GoString → W → Option (Backend W)
