-- ===== src/Core.antt =====
-- cmd/argocd-notifier/main.go: the core as a whole. The webhook's handler, its workers, the engine, the
-- session publisher and the registry, put together as `main` does, and the steps that they take in any
-- order. The workers' consumer is the engine's `Ingest`; the engine's publisher is the session
-- publisher; its resolver reads the registry.
pub mod Handover
pub mod Server
pub mod Drain
pub mod Replicas
pub mod Overlap
use argocd_notifier.Prelude.{◌+◌, Option, none, some, ℕ, List, [], ◌∷◌, ◌++◌}
use argocd_notifier.Prelude.Int.{ℤ, pos, negsuc}
use argocd_notifier.Text.{GoString}
use argocd_notifier.Event.{Event}
use argocd_notifier.Config
use argocd_notifier.Config.{Config}
use argocd_notifier.Aggregator.Clock.{Time}
use argocd_notifier.Aggregator.Backends.{Outcome}
use argocd_notifier.Aggregator.Engine
use argocd_notifier.Aggregator.Engine.{Engine, Batch, new_engine, ingest}
use argocd_notifier.Aggregator.Engine.Steps
use argocd_notifier.Aggregator.Session.{PublisherConfig, Publisher, new_publisher, upsert}
use argocd_notifier.RemoteBackend.{ApiClient, Surroundings, resolve}
use argocd_notifier.Registry.{Registry, new_registry}
use argocd_notifier.Registry.Handler.{RegisterBackendRequest, register_request}
use argocd_notifier.Receiver
use argocd_notifier.Receiver.{Receiver, new_receiver}

unfoldable pub engine_config : Config → Engine.Config
engine_config c = record {
  idle_window = c.idle_window;
  max_wait = c.max_wait;
  combine_triggers = c.combine_triggers;
}

-- aggregator.DuplicateAction(cfg.DuplicateAction) is a conversion: it does not look at the text.
unfoldable pub publisher_config : Config → PublisherConfig
publisher_config c = record { session_ttl = c.session_ttl; duplicate_action = c.duplicate_action }

-- What the calls of backends act on: the registry, whose clock is the engine's, and all that is outside.
pub record World (Net : Type 0) : Type 0 where
  pub now : Time
  pub registry : Registry
  pub net : Net

pub record Core (Net : Type 0) : Type 0 where
  pub receiver : Receiver
  pub engine : Engine
  pub publisher : Publisher
  pub registry : Registry
  pub net : Net

-- make(chan event.Event, n), which panics for a negative n
unfoldable pub queue_size : ℤ → Option ℕ
queue_size (pos n) = some n
queue_size (negsuc n) = none

-- `for range n` starts no worker for a negative n.
unfoldable pub worker_count : ℤ → ℕ
worker_count (pos n) = n
worker_count (negsuc n) = 0

unfoldable pub boot_with : {Net : Type 0} → Config → Time → Net → Option ℕ → Option (Core Net)
unfolding worker_count
boot_with c now net none = none
boot_with c now net (some size) = some (record {
  receiver = new_receiver size (worker_count c.worker_count);
  engine = new_engine now;
  publisher = new_publisher;
  registry = new_registry c.backend_registry_ttl;
  net = net;
})

-- `main`, up to the start of the server
unfoldable pub boot : {Net : Type 0} → Config → Time → Net → Option (Core Net)
unfolding boot_with queue_size
boot c now net = boot_with c now net (queue_size c.ingest_queue_size)

unfoldable pub ingest_all : Engine.Config → List Event → Engine → Engine
ingest_all cfg [] e = e
ingest_all cfg (ev ∷ evs) e = ingest_all cfg evs (ingest cfg ev e)

pub data Action : Type 0 where
  -- a request to the webhook, or a worker's step
  receiver_step : Receiver.Action → Action
  register_backend : Outcome RegisterBackendRequest → Action
  -- time passes, a timer expires, a callback runs
  wait : ℕ → Action
  expire : ℕ → Action
  run : ℕ → Action

-- What the core is given: its configuration, and the code outside of it.
pub record Program (Net : Type 0) : Type 0 where
  pub config : Config
  pub sha256 : GoString → GoString
  pub format_time : Time → GoString
  -- the verb %q
  pub quote : GoString → GoString
  pub new_client : GoString → Outcome (ApiClient (World Net))

-- The events that were answered with 202.
unfoldable pub accepted_by : {Net : Type 0} → Action → Core Net → List Event
accepted_by (receiver_step a) c = Receiver.accepted_by a c.receiver
accepted_by _ c = []

module _ {Net : Type 0} (pr : Program Net) where
  abbrev pub surroundings : Surroundings (World Net)
  surroundings = record {
    now = λ w. w.now;
    registry = λ w. w.registry;
    new_client = pr.new_client;
    quote = pr.quote;
  }

  -- The calls of `Upsert`, one behind the other. An error is logged and goes no further.
  unfoldable pub publish : List Batch → Publisher × World Net → Publisher × World Net
  unfolding publisher_config
  publish [] s = s
  publish ((key, evs) ∷ rest) (p, w) =
      publish rest
        (upsert pr.sha256 pr.format_time (resolve surroundings) (publisher_config pr.config) w.now
          key evs (p, w)).1

  -- The engine has taken a step, and its batches are published.
  unfoldable pub after_engine : Core Net → Engine × List Batch → Core Net × List Batch
  unfolding publish
  after_engine c (e, out) =
      let (p, w) =
        publish out
          (c.publisher, record { now = e.clock.now; registry = c.registry; net = c.net }) in
      (record c { engine = e; publisher = p; registry = w.registry; net = w.net }, out)

  unfoldable pub step_engine : Engine.Steps.Action → Core Net → Core Net × List Batch
  unfolding after_engine engine_config
  step_engine a c = after_engine c (Engine.Steps.perform (engine_config pr.config) a c.engine)

  unfoldable pub after_receiver : Core Net → Receiver × List Event → Core Net × List Batch
  unfolding ingest_all engine_config
  after_receiver c (r, evs) =
      (record c { receiver = r; engine = ingest_all (engine_config pr.config) evs c.engine }, [])

  -- A step, with the batches that it hands to `Upsert`.
  unfoldable pub perform : Action → Core Net → Core Net × List Batch
  unfolding after_receiver step_engine
  perform (receiver_step a) c = after_receiver c (Receiver.perform a c.receiver)
  perform (register_backend body) c =
      (record c { registry = (register_request c.engine.clock.now body c.registry).1 }, [])
  perform (wait n) c = step_engine (Engine.Steps.wait n) c
  perform (expire id) c = step_engine (Engine.Steps.expire id) c
  perform (run id) c = step_engine (Engine.Steps.run id) c

  unfoldable pub perform_all : List Action → Core Net → Core Net × List Batch
  unfolding perform
  perform_all [] c = (c, [])
  perform_all (a ∷ rest) c =
      let (c', out) = perform a c in let (c'', out') = perform_all rest c' in (c'', out ++ out')

  unfoldable pub accepted_all : List Action → Core Net → List Event
  unfolding accepted_by perform
  accepted_all [] c = []
  accepted_all (a ∷ rest) c = accepted_by a c ++ accepted_all rest (perform a c).0
