-- ===== src/Aggregator/Session/Steps.antt =====
-- A call of `Upsert` step by step (internal/aggregator/session.go), for calls that run at the same time:
-- each critical section is a step, and so is what the call does for one destination or for one
-- repeated event.
pub mod Alone
use argocd_notifier.Prelude.{Option, none, List, [], ◌∷◌, ◌==◌, nat_eq, ℕ, zero, suc, if◌then◌else◌}
use argocd_notifier.Text.{GoString, text_eq}
use argocd_notifier.Event.{Event, join_errors}
use argocd_notifier.Notification.Build.{build}
use argocd_notifier.Aggregator.Keys.{SessionKey}
use argocd_notifier.Aggregator.Clock.{Time}
use argocd_notifier.Aggregator.Recipients.{Groups, group_apps}
use argocd_notifier.Aggregator.Backends.{Resolver}
use argocd_notifier.Aggregator.Session.{
  PublisherConfig, duplicate_action_thread, MessageRefs, Publisher, PublishError, Begun, Sent,
  begin, store_refs, deliver_built, reply_backend, reply_note,
}

-- newRefs and errs
pub record Progress : Type 0 where
  pub new_refs : MessageRefs
  pub errs : List PublishError

-- Where a call stands: before its first critical section, in the loop over the destinations that are
-- left, before its second critical section, in the loop over the repeats that are left, or behind its
-- end. `now` is read in the first critical section.
pub data Stage : Type 0 where
  opening : SessionKey → List Event → Stage
  sending : SessionKey → Time → Begun → Groups → Progress → Stage
  storing : SessionKey → Time → Begun → Progress → Stage
  replying : Time → MessageRefs → List Event → Progress → Stage
  returned : Option (List PublishError) → Stage

unfoldable pub sent_of : {W : Type 0} → Progress → W → Sent W
sent_of g w = record { world = w; new_refs = g.new_refs; errs = g.errs }

unfoldable pub progress_of : {W : Type 0} → Sent W → Progress
progress_of s = record { new_refs = s.new_refs; errs = s.errs }

abbrev pub no_progress : Progress
no_progress = record { new_refs = []; errs = [] }

unfoldable pub destinations : Begun → Groups
destinations b = if b.changed then group_apps b.per_app else []

unfoldable pub repeats_of : PublisherConfig → Begun → List Event
repeats_of cfg b = if cfg.duplicate_action == duplicate_action_thread then b.duplicates else []

module _ {W : Type 0} (sha256 : GoString → GoString) (format_time : Time → GoString)
    (resolve : Resolver W) (cfg : PublisherConfig) where
  -- The stage behind a loop's body, with what the body did to the world.
  abbrev pub behind : (Progress → Stage) → Publisher → Sent W → Stage × (Publisher × W)
  behind next p s = (next (progress_of s), (p, s.world))

  unfoldable pub step : Time → Stage → Publisher × W → Stage × (Publisher × W)
  unfolding sent_of progress_of destinations repeats_of
  step now (opening key []) s = (returned none, s)
  step now (opening key (ev ∷ evs)) (p, w) =
      let (b, p') = begin sha256 cfg now key (ev ∷ evs) p in
      (sending key now b (destinations b) no_progress, (p', w))
  step now (sending key t b [] g) s = (storing key t b g, s)
  step now (sending key t b ((rk, apps) ∷ rest) g) (p, w) =
      behind (sending key t b rest) p (deliver_built resolve rk b.refs (build apps) (sent_of g w))
  step now (storing key t b g) (p, w) =
      (replying t b.refs (repeats_of cfg b) g, (store_refs key b.address g.new_refs p, w))
  step now (replying t refs [] g) s = (returned (join_errors g.errs), s)
  step now (replying t refs (ev ∷ evs) g) (p, w) =
      behind (replying t refs evs) p
        (reply_backend ev (reply_note format_time t ev) refs (resolve ev.backend w) (sent_of g w))
  step now (returned errs) s = (returned errs, s)

  -- Steps of one call, while nothing else runs.
  unfoldable pub steps : ℕ → Time → Stage × (Publisher × W) → Stage × (Publisher × W)
  unfolding step
  steps zero now x = x
  steps (suc n) now (x, s) = steps n now (step now x s)
