-- ===== src/Aggregator/Session/Calls.antt =====
-- The calls of backends that `Upsert` makes for the destinations of a session.
use mathlib.Core.List.{append_assoc, append-nil}
use argocd_notifier.Prelude.{
  ◌≡◌, ◌≢◌, refl, sym, ap, ◌∙◌, true, false, some, List, [], ◌∷◌, ◌++◌, arith, ◌==◌, nat_eq, All,
}
use argocd_notifier.Text.{GoString, text_eq, str_eq_iff}
use argocd_notifier.Maps.{keys, values}
use argocd_notifier.Event.{Event}
use argocd_notifier.Notification.{Notification}
use argocd_notifier.Notification.Build.{build, built}
use argocd_notifier.Aggregator.Keys.{SessionKey, session_key_eq, RefKey, ref_key_eq}
use argocd_notifier.Aggregator.Clock.{Time}
use argocd_notifier.Aggregator.Recipients.{Groups, group_apps}
use argocd_notifier.Aggregator.Recipients.Routing.{group_apps-full}
use argocd_notifier.Aggregator.Backends.{Call, Backend, Resolver}
use argocd_notifier.Aggregator.Session.Refs.{world-record_ref}
use argocd_notifier.Aggregator.Session.{
  PublisherConfig, duplicate_action_thread, Publisher, MessageRefs, Sent, nothing_sent, Begun,
  begin, deliver, deliver_to, deliver_built, send_groups, send_changes, send_replies, upsert,
  upsert_events, upsert_begun,
}

-- Every backend is a Notifier, and a call notes its destination in the log of the world, whatever its
-- outcome.
pub record LogsCalls {W : Type 0} (resolve : Resolver W) (log : W → List RefKey) : Type 0 where
  pub backend : GoString → W → Backend W
  pub notify : GoString → GoString → GoString → Notification → Call W GoString
  pub resolves : (name : GoString) (w : W) → resolve name w ≡ some (backend name w)
  pub notifies : (name : GoString) (w : W) → (backend name w).notify ≡ some (notify name)
  pub logs :
      (name recipient ref : GoString) (n : Notification) (w : W)
      → log (notify name recipient ref n w).1
        ≡ log w ++ record { backend = name; recipient = recipient } ∷ []

module _ {W : Type 0} (resolve : Resolver W) (log : W → List RefKey)
    (l : LogsCalls resolve log) where
  log-deliver_built :
      (rk : RefKey) (refs : MessageRefs) (n : Notification) (s : Sent W)
      → log (deliver_built resolve rk refs (built n) s).world ≡ log s.world ++ rk ∷ []
  unfolding deliver_built deliver_to deliver
  log-deliver_built rk refs n s =
      rw (l.resolves rk.backend s.world, l.notifies rk.backend s.world)
        (ap log (world-record_ref rk _ _ s) ∙ l.logs rk.backend rk.recipient _ n s.world)

  log-send_groups :
      (refs : MessageRefs) (gs : Groups) (s : Sent W)
      → All (λ apps. apps ≢ []) (values gs)
      → log (send_groups resolve refs gs s).world ≡ log s.world ++ keys gs
  unfolding send_groups build
  log-send_groups refs [] s f = sym (append-nil (log s.world))
  log-send_groups refs ((rk, []) ∷ rest) s f = absurd (f.0 refl)
  log-send_groups refs ((rk, app ∷ apps) ∷ rest) s f =
      log-send_groups refs rest _ f.1
      ∙ rw (log-deliver_built rk refs _ s) (append_assoc (log s.world) (rk ∷ []) (keys rest))

  -- A batch that brings something new, where repeats get no reply, makes exactly one call for each
  -- destination that the session's apps have, in their order, be the calls before it failures or not.
  pub upsert_calls :
      (sha256 : GoString → GoString) (format_time : Time → GoString) (cfg : PublisherConfig)
      (now : Time) (key : SessionKey) (ev : Event) (evs : List Event) (p : Publisher) (w : W)
      → (begin sha256 cfg now key (ev ∷ evs) p).0.changed ≡ true
      → cfg.duplicate_action ≢ duplicate_action_thread
      → log (upsert sha256 format_time resolve cfg now key (ev ∷ evs) (p, w)).1.1
        ≡ log w ++ keys (group_apps (begin sha256 cfg now key (ev ∷ evs) p).0.per_app)
  unfolding upsert upsert_events upsert_begun send_replies send_changes
  upsert_calls sha256 format_time cfg now key ev evs p w changed drop =
      let b : Begun = (begin sha256 cfg now key (ev ∷ evs) p).0 in
      let off : (cfg.duplicate_action == duplicate_action_thread) ≡ false =
        ground (arith, str_eq_iff cfg.duplicate_action duplicate_action_thread) in
      rw (changed, off)
        (log-send_groups b.refs (group_apps b.per_app) (nothing_sent w) (group_apps-full b.per_app))
