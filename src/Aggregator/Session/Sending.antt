-- ===== src/Aggregator/Session/Sending.antt =====
-- internal/aggregator/session.go: the loop of `Upsert` over the destinations.
use argocd_notifier.Prelude.{Option, none, some, [], ◌∷◌, ◌++◌, nat_eq}
use argocd_notifier.Text.{GoString, text_eq}
use argocd_notifier.Maps.{lookup, insert, get_or}
use argocd_notifier.Notification.{Notification}
use argocd_notifier.Notification.Build.{BuildResult, build, built, failed}
use argocd_notifier.Aggregator.Keys.{session_key_eq, RefKey, ref_key_eq}
use argocd_notifier.Aggregator.Recipients.{Groups}
use argocd_notifier.Aggregator.Backends.{Outcome, success, failure, Call, Backend, Resolver}
use argocd_notifier.Aggregator.Session.State.{
  MessageRefs, PublishError, build_failed, not_registered, no_interface, notify_failed,
  update_failed, post_failed, Sent,
}

module _ {W : Type 0} where
  unfoldable pub add_error : PublishError → Sent W → Sent W
  add_error err s = record s { errs = s.errs ++ err ∷ [] }

  -- newRefs[rk] = ref, or an error
  unfoldable pub record_ref :
      RefKey → (GoString → PublishError) → Outcome GoString × W → Sent W → Sent W
  unfolding add_error
  record_ref rk err (success ref, w) s = record s { world = w; new_refs = insert rk ref s.new_refs }
  record_ref rk err (failure e, w) s = add_error (err e) (record s { world = w })

  -- an error is kept, a result dropped
  unfoldable pub record_outcome :
      {A : Type 0} → (GoString → PublishError) → Outcome A × W → Sent W → Sent W
  unfolding add_error
  record_outcome err (success a, w) s = record s { world = w }
  record_outcome err (failure e, w) s = add_error (err e) (record s { world = w })

  unfoldable pub post_or_update :
      RefKey
      → Notification
      → Option GoString
      → (GoString → Notification → Call W GoString)
      → Option (GoString → GoString → Notification → Call W (Unit {0}))
      → Sent W
      → Sent W
  unfolding record_ref record_outcome
  post_or_update rk n ref post none s =
      record_outcome (post_failed rk) (post rk.recipient n s.world) s
  post_or_update rk n none post (some update) s =
      record_ref rk (post_failed rk) (post rk.recipient n s.world) s
  post_or_update rk n (some ref) post (some update) s =
      record_outcome (update_failed rk) (update rk.recipient ref n s.world) s

  -- The type assertions: a Notifier comes first, then a Backend.
  unfoldable pub deliver :
      RefKey
      → Notification
      → MessageRefs
      → Option (GoString → GoString → Notification → Call W GoString)
      → Option (GoString → Notification → Call W GoString)
      → Option (GoString → GoString → Notification → Call W (Unit {0}))
      → Sent W
      → Sent W
  unfolding record_ref post_or_update add_error
  deliver rk n refs (some notify) post update s =
      record_ref rk (notify_failed rk) (notify rk.recipient (get_or rk [] refs) n s.world) s
  deliver rk n refs none (some post) update s = post_or_update rk n (lookup rk refs) post update s
  deliver rk n refs none none update s = add_error (no_interface rk.backend) s

  unfoldable pub deliver_to :
      RefKey → Notification → MessageRefs → Option (Backend W) → Sent W → Sent W
  unfolding deliver add_error
  deliver_to rk n refs none s = add_error (not_registered rk.backend) s
  deliver_to rk n refs (some b) s = deliver rk n refs b.notify b.post b.update s

  unfoldable pub deliver_built : Resolver W → RefKey → MessageRefs → BuildResult → Sent W → Sent W
  unfolding deliver_to add_error
  deliver_built resolve rk refs (failed e) s = add_error (build_failed rk e) s
  deliver_built resolve rk refs (built n) s = deliver_to rk n refs (resolve rk.backend s.world) s

  -- The loop over the destinations. A destination that fails does not stop the others.
  unfoldable pub send_groups : Resolver W → MessageRefs → Groups → Sent W → Sent W
  unfolding deliver_built
  send_groups resolve refs [] s = s
  send_groups resolve refs ((rk, apps) ∷ rest) s =
      send_groups resolve refs rest (deliver_built resolve rk refs (build apps) s)
