-- ===== src/Aggregator/Session/Errors.antt =====
-- The errors that `Upsert` can return.
use argocd_notifier.Prelude.{
  ◌≢◌, refl, Option, none, some, List, [], ◌∷◌, ◌==◌, nat_eq, All, All-append, Option-cases,
  Bool-cases, inl, inr,
}
use argocd_notifier.Text.{GoString, text_eq}
use argocd_notifier.Maps.{lookup, values}
use argocd_notifier.Event.{Event, join_errors}
use argocd_notifier.Notification.{Notification}
use argocd_notifier.Notification.Build.{build}
use argocd_notifier.Aggregator.Keys.{SessionKey, session_key_eq, RefKey, ref_key_eq}
use argocd_notifier.Aggregator.Clock.{Time}
use argocd_notifier.Aggregator.Recipients.{Groups, group_apps, split_recipients}
use argocd_notifier.Aggregator.Recipients.Routing.{group_apps-full}
use argocd_notifier.Aggregator.Backends.{Outcome, success, failure, Call, Backend, Resolver}
use argocd_notifier.Aggregator.Session.{
  PublisherConfig, duplicate_action_thread, Publisher, PublishError, build_failed, MessageRefs,
  Sent, nothing_sent, Begun, begin, add_error, record_ref, record_outcome, post_or_update, deliver,
  deliver_to, deliver_built, send_groups, reply_to_ref, reply_to_recipients, reply_threader,
  reply_backend, reply_all, send_changes, send_replies, upsert, upsert_events, upsert_begun,
}

-- Not the error that there was nothing to build a notification from.
abbrev pub IsSending : PublishError → Type 0
IsSending (build_failed rk e) = ⊥
IsSending _ = Unit

module _ {W : Type 0} where
  abbrev AllSending : Sent W → Type 0
  AllSending s = All IsSending s.errs

  add_error-AllSending :
      (err : PublishError) (s : Sent W)
      → IsSending err
      → AllSending s
      → AllSending (add_error err s)
  unfolding add_error
  add_error-AllSending err s k h = All-append IsSending s.errs (err ∷ []) h (k, tt)

  record_ref-AllSending :
      (rk : RefKey) (err : GoString → PublishError) (o : Outcome GoString × W) (s : Sent W)
      → ((e : GoString) → IsSending (err e))
      → AllSending s
      → AllSending (record_ref rk err o s)
  unfolding record_ref
  record_ref-AllSending rk err (success ref, w) s k h = h
  record_ref-AllSending rk err (failure e, w) s k h =
      add_error-AllSending (err e) (record s { world = w }) (k e) h

  record_outcome-AllSending :
      {A : Type 0} (err : GoString → PublishError) (o : Outcome A × W) (s : Sent W)
      → ((e : GoString) → IsSending (err e))
      → AllSending s
      → AllSending (record_outcome err o s)
  unfolding record_outcome
  record_outcome-AllSending err (success a, w) s k h = h
  record_outcome-AllSending err (failure e, w) s k h =
      add_error-AllSending (err e) (record s { world = w }) (k e) h

  deliver-AllSending :
      (rk : RefKey) (n : Notification) (refs : MessageRefs)
      (notify : Option (GoString → GoString → Notification → Call W GoString))
      (post : Option (GoString → Notification → Call W GoString))
      (update : Option (GoString → GoString → Notification → Call W (Unit {0}))) (s : Sent W)
      → AllSending s
      → AllSending (deliver rk n refs notify post update s)
  unfolding deliver post_or_update
  deliver-AllSending rk n refs (some f) post update s h = record_ref-AllSending rk _ _ s (λ e. tt) h
  deliver-AllSending rk n refs none none update s h = add_error-AllSending _ s tt h
  deliver-AllSending rk n refs none (some post) none s h =
      record_outcome-AllSending _ _ s (λ e. tt) h
  deliver-AllSending rk n refs none (some post) (some update) s h =
      elim (Option-cases (lookup rk refs)) [
        | inl q ↦ rw q (record_ref-AllSending rk _ _ s (λ e. tt) h)
        | inr (ref, q) ↦ rw q (record_outcome-AllSending _ _ s (λ e. tt) h)
      ]

  deliver_to-AllSending :
      (rk : RefKey) (n : Notification) (refs : MessageRefs) (b : Option (Backend W)) (s : Sent W)
      → AllSending s
      → AllSending (deliver_to rk n refs b s)
  unfolding deliver_to
  deliver_to-AllSending rk n refs none s h = add_error-AllSending _ s tt h
  deliver_to-AllSending rk n refs (some b) s h =
      deliver-AllSending rk n refs b.notify b.post b.update s h

  send_groups-AllSending :
      (resolve : Resolver W) (refs : MessageRefs) (gs : Groups) (s : Sent W)
      → All (λ apps. apps ≢ []) (values gs)
      → AllSending s
      → AllSending (send_groups resolve refs gs s)
  unfolding send_groups deliver_built build
  send_groups-AllSending resolve refs [] s f h = h
  send_groups-AllSending resolve refs ((rk, []) ∷ rest) s f h = absurd (f.0 refl)
  send_groups-AllSending resolve refs ((rk, app ∷ apps) ∷ rest) s f h =
      send_groups-AllSending resolve refs rest _ f.1
        (deliver_to-AllSending rk _ refs (resolve rk.backend s.world) s h)

  reply_to_recipients-AllSending :
      (backend : GoString) (rs : List GoString) (note : GoString) (refs : MessageRefs)
      (reply : GoString → GoString → GoString → Call W (Unit {0})) (s : Sent W)
      → AllSending s
      → AllSending (reply_to_recipients backend rs note refs reply s)
  unfolding reply_to_recipients reply_to_ref
  reply_to_recipients-AllSending backend [] note refs reply s h = h
  reply_to_recipients-AllSending backend (r ∷ rs) note refs reply s h =
      let rk : RefKey = record { backend = backend; recipient = r } in
      reply_to_recipients-AllSending backend rs note refs reply _
        (elim (Option-cases (lookup rk refs)) [
          | inl q ↦ rw q h
          | inr (ref, q) ↦ rw q (record_outcome-AllSending _ _ s (λ e. tt) h)
        ])

  reply_backend-AllSending :
      (ev : Event) (note : GoString) (refs : MessageRefs) (b : Option (Backend W)) (s : Sent W)
      → AllSending s
      → AllSending (reply_backend ev note refs b s)
  unfolding reply_backend reply_threader
  reply_backend-AllSending ev note refs none s h = add_error-AllSending _ s tt h
  reply_backend-AllSending ev note refs (some b) s h = elim (Option-cases b.post_thread_reply) [
    | inl q ↦ rw q h
    | inr (reply, q) ↦ rw q (
        reply_to_recipients-AllSending ev.backend (split_recipients ev.recipient) note refs reply s
          h)
  ]

  reply_all-AllSending :
      (resolve : Resolver W) (format_time : Time → GoString) (now : Time) (refs : MessageRefs)
      (evs : List Event) (s : Sent W)
      → AllSending s
      → AllSending (reply_all resolve format_time now refs evs s)
  unfolding reply_all
  reply_all-AllSending resolve format_time now refs [] s h = h
  reply_all-AllSending resolve format_time now refs (ev ∷ evs) s h =
      reply_all-AllSending resolve format_time now refs evs _
        (reply_backend-AllSending ev _ refs (resolve ev.backend s.world) s h)

-- What the errors of a call are, if there are any.
abbrev pub ErrorsAre : (PublishError → Type 0) → Option (List PublishError) → Type 0
ErrorsAre P none = Unit
ErrorsAre P (some errs) = All P errs

join_errors-ErrorsAre :
    (errs : List PublishError) → All IsSending errs → ErrorsAre IsSending (join_errors errs)
unfolding join_errors
join_errors-ErrorsAre [] h = tt
join_errors-ErrorsAre (e ∷ es) h = h

module _ {W : Type 0} (sha256 : GoString → GoString) (format_time : Time → GoString)
    (resolve : Resolver W) (cfg : PublisherConfig) (now : Time) (key : SessionKey) where
  sent-AllSending :
      (b : Begun) (w : W)
      → AllSending
          (send_replies cfg resolve format_time now b (send_changes resolve b (nothing_sent w)))
  unfolding send_replies send_changes
  sent-AllSending b w =
      let groups : Groups = group_apps b.per_app in
      let changes : AllSending (send_changes resolve b (nothing_sent w)) =
        elim (Bool-cases b.changed) [
          | inl q ↦ rw q (
              send_groups-AllSending resolve b.refs groups (nothing_sent w)
                (group_apps-full b.per_app) tt)
          | inr q ↦ rw q tt
        ] in
      elim (Bool-cases (cfg.duplicate_action == duplicate_action_thread)) [
        | inl q ↦ rw q (reply_all-AllSending resolve format_time now b.refs b.duplicates _ changes)
        | inr q ↦ rw q changes
      ]

  -- `Upsert` never reports that a notification could not be built: every error that it returns is
  -- about a backend that is not there, that has no interface to deliver by, or whose call failed.
  pub upsert-IsSending :
      (events : List Event) (p : Publisher) (w : W)
      → ErrorsAre IsSending (upsert sha256 format_time resolve cfg now key events (p, w)).0
  unfolding upsert upsert_events upsert_begun
  upsert-IsSending [] p w = tt
  upsert-IsSending (ev ∷ evs) p w =
      join_errors-ErrorsAre _ (sent-AllSending (begin sha256 cfg now key (ev ∷ evs) p).0 w)
