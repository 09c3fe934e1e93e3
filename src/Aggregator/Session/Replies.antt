-- ===== src/Aggregator/Session/Replies.antt =====
-- internal/aggregator/session.go: the loop of `Upsert` over the duplicates.
use argocd_notifier.Prelude.{Option, none, some, List, [], ◌∷◌, ◌++◌, nat_eq}
use argocd_notifier.Text.{GoString, text_eq, bytes}
use argocd_notifier.Maps.{lookup}
use argocd_notifier.Event.{Event}
use argocd_notifier.Aggregator.Keys.{session_key_eq, RefKey, ref_key_eq}
use argocd_notifier.Aggregator.Clock.{Time}
use argocd_notifier.Aggregator.Recipients.{split_recipients}
use argocd_notifier.Aggregator.Backends.{Call, Backend, Resolver}
use argocd_notifier.Aggregator.Session.State.{MessageRefs, not_registered, reply_failed, Sent}
use argocd_notifier.Aggregator.Session.Sending.{add_error, record_outcome}

-- " reported " and so on: the note of a thread reply
unfoldable pub reply_note : (Time → GoString) → Time → Event → GoString
reply_note format_time now ev =
    ev.app_name
    ++ (bytes " reported " ++ (ev.trigger ++ (bytes " again (unchanged) at " ++ format_time now)))

module _ {W : Type 0} where
  unfoldable pub reply_to_ref :
      RefKey
      → GoString
      → Option GoString
      → (GoString → GoString → GoString → Call W (Unit {0}))
      → Sent W
      → Sent W
  unfolding record_outcome
  reply_to_ref rk note none reply s = s
  reply_to_ref rk note (some ref) reply s =
      record_outcome (reply_failed rk) (reply rk.recipient ref note s.world) s

  unfoldable pub reply_to_recipients :
      GoString
      → List GoString
      → GoString
      → MessageRefs
      → (GoString → GoString → GoString → Call W (Unit {0}))
      → Sent W
      → Sent W
  unfolding reply_to_ref
  reply_to_recipients backend [] note refs reply s = s
  reply_to_recipients backend (r ∷ rs) note refs reply s =
      let rk : RefKey = record { backend = backend; recipient = r } in
      reply_to_recipients backend rs note refs reply (reply_to_ref rk note (lookup rk refs) reply s)

  unfoldable pub reply_threader :
      Event
      → GoString
      → MessageRefs
      → Option (GoString → GoString → GoString → Call W (Unit {0}))
      → Sent W
      → Sent W
  unfolding reply_to_recipients
  reply_threader ev note refs none s = s
  reply_threader ev note refs (some reply) s =
      reply_to_recipients ev.backend (split_recipients ev.recipient) note refs reply s

  unfoldable pub reply_backend :
      Event → GoString → MessageRefs → Option (Backend W) → Sent W → Sent W
  unfolding reply_threader add_error
  reply_backend ev note refs none s = add_error (not_registered ev.backend) s
  reply_backend ev note refs (some b) s = reply_threader ev note refs b.post_thread_reply s

  -- The loop over the duplicates.
  unfoldable pub reply_all :
      Resolver W → (Time → GoString) → Time → MessageRefs → List Event → Sent W → Sent W
  unfolding reply_backend reply_note
  reply_all resolve format_time now refs [] s = s
  reply_all resolve format_time now refs (ev ∷ evs) s =
      reply_all resolve format_time now refs evs
        (reply_backend ev (reply_note format_time now ev) refs (resolve ev.backend s.world) s)
