-- ===== src/Core/Overlap.antt =====
-- cmd/argocd-notifier/main.go: the core with calls of `Upsert` that run at the same time. Each callback
-- that hands batches over goes on in its own goroutine (internal/aggregator/engine.go), one batch behind
-- the other, and whatever else happens in the core may happen between two steps of it.
pub mod Agrees
pub mod Invariant
use argocd_notifier.Prelude.{ℕ, zero, suc, none, List, [], ◌∷◌, ◌++◌}
use argocd_notifier.Aggregator.Engine
use argocd_notifier.Aggregator.Engine.{Batch}
use argocd_notifier.Aggregator.Engine.Steps
use argocd_notifier.Aggregator.Session.{Publisher}
use argocd_notifier.Aggregator.Session.Steps.{
  Stage, opening, sending, storing, replying, returned, step,
}
use argocd_notifier.RemoteBackend.{resolve}
use argocd_notifier.Core
use argocd_notifier.Core.{
  World, Program, Core, receiver_step, register_backend, wait, expire, run, surroundings,
  engine_config, publisher_config,
}

-- A callback behind its critical section: where its call of `Upsert` stands, and the batches that wait
-- for it.
pub record Goroutine : Type 0 where
  pub stage : Stage
  pub left : List Batch

pub record Overlapping (Net : Type 0) : Type 0 where
  pub core : Core Net
  pub goroutines : List Goroutine

-- A step of the core, or the next step of a goroutine.
pub data Action : Type 0 where
  core_step : Core.Action → Action
  go_on : ℕ → Action

unfoldable pub spawn : List Batch → List Goroutine → List Goroutine
spawn [] gs = gs
spawn (b ∷ bs) gs = gs ++ record { stage = returned none; left = b ∷ bs } ∷ []

module _ {Net : Type 0} (pr : Program Net) where
  -- The step of a core whose calls of `Upsert` are made elsewhere.
  unfoldable pub engine_step : Engine.Steps.Action → Core Net → Core Net × List Batch
  unfolding engine_config
  engine_step a c =
      let (e, out) = Engine.Steps.perform (engine_config pr.config) a c.engine in
      (record c { engine = e }, out)

  unfoldable pub quiet_step : Core.Action → Core Net → Core Net × List Batch
  unfolding engine_step Core.perform
  quiet_step (receiver_step a) c = Core.perform pr (receiver_step a) c
  quiet_step (register_backend body) c = Core.perform pr (register_backend body) c
  quiet_step (wait n) c = engine_step (Engine.Steps.wait n) c
  quiet_step (expire id) c = engine_step (Engine.Steps.expire id) c
  quiet_step (run id) c = engine_step (Engine.Steps.run id) c

  unfoldable pub behind_call :
      List Batch → Core Net → Stage × (Publisher × World Net) → Goroutine × Core Net
  behind_call left c (x, (p, w)) = (
    record { stage = x; left = left },
    record c { publisher = p; registry = w.registry; net = w.net },
  )

  -- A step of the call of `Upsert`, on what its backends see of the core.
  unfoldable pub call_step : Stage → List Batch → Core Net → Goroutine × Core Net
  unfolding behind_call step publisher_config
  call_step x left c = behind_call left c (
      step pr.sha256 pr.format_time (resolve (surroundings pr)) (publisher_config pr.config)
        c.engine.clock.now x
        (c.publisher, record { now = c.engine.clock.now; registry = c.registry; net = c.net }))

  -- The loop of `flush` over its batches.
  unfoldable pub goroutine_step : Stage → List Batch → Core Net → Goroutine × Core Net
  unfolding call_step
  goroutine_step (returned errs) [] c = (record { stage = returned errs; left = [] }, c)
  goroutine_step (returned errs) ((key, evs) ∷ left) c =
      (record { stage = opening key evs; left = left }, c)
  goroutine_step (opening key evs) left c = call_step (opening key evs) left c
  goroutine_step (sending key t b gs g) left c = call_step (sending key t b gs g) left c
  goroutine_step (storing key t b g) left c = call_step (storing key t b g) left c
  goroutine_step (replying t refs evs g) left c = call_step (replying t refs evs g) left c

  unfoldable pub go_on_at : ℕ → List Goroutine → Core Net → List Goroutine × Core Net
  unfolding goroutine_step
  go_on_at i [] c = ([], c)
  go_on_at zero (g ∷ gs) c = let (g', c') = goroutine_step g.stage g.left c in (g' ∷ gs, c')
  go_on_at (suc i) (g ∷ gs) c = let (gs', c') = go_on_at i gs c in (g ∷ gs', c')

  unfoldable pub perform : Action → Overlapping Net → Overlapping Net × List Batch
  unfolding quiet_step go_on_at spawn
  perform (core_step a) o =
      let (c, out) = quiet_step a o.core in
      (record { core = c; goroutines = spawn out o.goroutines }, out)
  perform (go_on i) o =
      let (gs, c) = go_on_at i o.goroutines o.core in (record { core = c; goroutines = gs }, [])

  unfoldable pub perform_all : List Action → Overlapping Net → Overlapping Net × List Batch
  unfolding perform
  perform_all [] o = (o, [])
  perform_all (a ∷ rest) o =
      let (o', out) = perform a o in let (o'', out') = perform_all rest o' in (o'', out ++ out')

-- The steps of the core in a schedule, without those of the goroutines.
unfoldable pub core_steps : List Action → List Core.Action
core_steps [] = []
core_steps (core_step a ∷ rest) = a ∷ core_steps rest
core_steps (go_on i ∷ rest) = core_steps rest
