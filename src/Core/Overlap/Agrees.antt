-- ===== src/Core/Overlap/Agrees.antt =====
-- How the calls of `Upsert` overlap makes no difference to the receiver, the engine and the batches.
use argocd_notifier.Prelude.{◌≡◌, refl, ap, ◌∙◌, ℕ, zero, suc, List, [], ◌∷◌, ◌++◌}
use argocd_notifier.Aggregator.Engine
use argocd_notifier.Aggregator.Engine.{Engine, Batch}
use argocd_notifier.Aggregator.Engine.Steps
use argocd_notifier.Aggregator.Session.Steps.{Stage, opening, sending, storing, replying, returned}
use argocd_notifier.Core
use argocd_notifier.Core.{
  World, Program, Core, boot, after_engine, step_engine, receiver_step, register_backend, wait,
  expire, run, accepted_all, surroundings, engine_config, publisher_config,
}
use argocd_notifier.Core.Overlap.{
  Goroutine, Overlapping, Action, core_step, go_on, engine_step, quiet_step, behind_call, call_step,
  goroutine_step, go_on_at, perform, perform_all, core_steps,
}

-- Two cores that differ in the calls of `Upsert` only.
pub record Agrees {Net : Type 0} (c d : Core Net) : Type 0 where
  pub receiver : c.receiver ≡ d.receiver
  pub engine : c.engine ≡ d.engine

module _ {Net : Type 0} (pr : Program Net) where
  engine_step-Agrees :
      (a : Engine.Steps.Action) (c d : Core Net)
      → Agrees c d
      → Agrees (engine_step pr a c).0 (step_engine pr a d).0
        × ((engine_step pr a c).1 ≡ (step_engine pr a d).1)
  unfolding engine_step step_engine after_engine
  engine_step-Agrees a c d h = (
    record {
      receiver = h.receiver;
      engine = ap (λ (e : Engine). (Engine.Steps.perform (engine_config pr.config) a e).0) h.engine;
    },
    ap (λ (e : Engine). (Engine.Steps.perform (engine_config pr.config) a e).1) h.engine,
  )

  pub quiet_step-Agrees :
      (a : Core.Action) (c d : Core Net)
      → Agrees c d
      → Agrees (quiet_step pr a c).0 (Core.perform pr a d).0
        × ((quiet_step pr a c).1 ≡ (Core.perform pr a d).1)
  unfolding quiet_step Core.perform Core.after_receiver
  quiet_step-Agrees (receiver_step a) c d h =
      (record { receiver = rw h.receiver refl; engine = rw (h.receiver, h.engine) refl }, refl)
  quiet_step-Agrees (register_backend body) c d h =
      (record { receiver = h.receiver; engine = h.engine }, refl)
  quiet_step-Agrees (wait n) c d h = engine_step-Agrees (Engine.Steps.wait n) c d h
  quiet_step-Agrees (expire id) c d h = engine_step-Agrees (Engine.Steps.expire id) c d h
  quiet_step-Agrees (run id) c d h = engine_step-Agrees (Engine.Steps.run id) c d h

  goroutine_step-Agrees :
      (x : Stage) (left : List Batch) (c d : Core Net)
      → Agrees c d
      → Agrees (goroutine_step pr x left c).1 d
  unfolding goroutine_step call_step behind_call
  goroutine_step-Agrees (returned errs) [] c d h = h
  goroutine_step-Agrees (returned errs) (b ∷ left) c d h = h
  goroutine_step-Agrees (opening key evs) left c d h = record {
    receiver = h.receiver;
    engine = h.engine;
  }
  goroutine_step-Agrees (sending key t b gs g) left c d h = record {
    receiver = h.receiver;
    engine = h.engine;
  }
  goroutine_step-Agrees (storing key t b g) left c d h = record {
    receiver = h.receiver;
    engine = h.engine;
  }
  goroutine_step-Agrees (replying t refs evs g) left c d h = record {
    receiver = h.receiver;
    engine = h.engine;
  }

  pub go_on_at-Agrees :
      (i : ℕ) (gs : List Goroutine) (c d : Core Net) → Agrees c d → Agrees (go_on_at pr i gs c).1 d
  unfolding go_on_at
  go_on_at-Agrees i [] c d h = h
  go_on_at-Agrees zero (g ∷ gs) c d h = goroutine_step-Agrees g.stage g.left c d h
  go_on_at-Agrees (suc i) (g ∷ gs) c d h = go_on_at-Agrees i gs c d h

  -- The receiver, the engine and the batches are those of the same schedule where each call of `Upsert`
  -- is over at once.
  pub perform_all-Agrees :
      (schedule : List Action) (o : Overlapping Net) (d : Core Net)
      → Agrees o.core d
      → Agrees (perform_all pr schedule o).0.core (Core.perform_all pr (core_steps schedule) d).0
        × ((perform_all pr schedule o).1 ≡ (Core.perform_all pr (core_steps schedule) d).1)
  unfolding perform_all perform Core.perform_all core_steps
  perform_all-Agrees [] o d h = (h, refl)
  perform_all-Agrees (core_step a ∷ rest) o d h =
      let k = quiet_step-Agrees a o.core d h in
      let o' : Overlapping Net = (perform pr (core_step a) o).0 in
      let ih = perform_all-Agrees rest o' (Core.perform pr a d).0 k.0 in
      (
        ih.0,
        ap (λ (x : List Batch). x ++ (perform_all pr rest o').1) k.1
            ∙ ap (λ (x : List Batch). (Core.perform pr a d).1 ++ x) ih.1,
      )
  perform_all-Agrees (go_on i ∷ rest) o d h =
      perform_all-Agrees rest (perform pr (go_on i) o).0 d
        (go_on_at-Agrees i o.goroutines o.core d h)
