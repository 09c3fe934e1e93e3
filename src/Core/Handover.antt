-- ===== src/Core/Handover.antt =====
-- The way of an event from the webhook to the session publisher, and the sessions that it meets there.
use argocd_notifier.Prelude.{
  ◌≡◌, refl, subst, Bool, Option, none, some, ℕ, ◌+◌, List, [], ◌∷◌, arith, All, All-append,
}
use argocd_notifier.Text.{GoString}
use argocd_notifier.Maps.{total, total-append}
use argocd_notifier.Event.{Event}
use argocd_notifier.Aggregator.Clock.{Time}
use argocd_notifier.Aggregator.Engine
use argocd_notifier.Aggregator.Engine.{Engine, Batch, ingest, new_engine}
use argocd_notifier.Aggregator.Engine.Sessions.{tally, tally_batches, tally-append}
use argocd_notifier.Aggregator.Engine.Conservation.{held, held-ingest, held-perform}
use argocd_notifier.Aggregator.Engine.Owned.{
  IsOwned, OwnEvents, IsFull, IsOwnBatches, ingest-IsOwned, perform-IsOwned,
}
use argocd_notifier.Aggregator.Engine.Steps
use argocd_notifier.Aggregator.Session.{Publisher, new_publisher}
use argocd_notifier.Aggregator.Session.WellFormed.{
  BatchOf, IsWellFormed, new-IsWellFormed, upsert-IsWellFormed,
}
use argocd_notifier.RemoteBackend.{resolve}
use argocd_notifier.Receiver
use argocd_notifier.Receiver.Flow.{load, load-perform}
use argocd_notifier.Core.{
  World, Program, Core, boot_with, boot, ingest_all, publish, after_engine, step_engine,
  after_receiver, Action, receiver_step, register_backend, wait, expire, run, perform, perform_all,
  accepted_by, accepted_all, surroundings, engine_config, publisher_config,
}

held-ingest_all :
    (p : Event → Bool) (cfg : Engine.Config) (evs : List Event) (e : Engine)
    → held p (ingest_all cfg evs e) ≡ held p e + tally p evs
unfolding ingest_all
held-ingest_all p cfg [] e = omega arith
held-ingest_all p cfg (ev ∷ evs) e = omega (
  arith,
  held-ingest_all p cfg evs (ingest cfg ev e),
  held-ingest p cfg ev e,
  tally-append p (ev ∷ []) evs,
)

-- A batch of its session's group, as the session publisher wants it.
pub OwnEvents-BatchOf :
    (gk r : GoString) (evs : List Event)
    → All (λ ev. (ev.group_key ≡ gk) × (ev.revision ≡ r)) evs
    → BatchOf gk evs
OwnEvents-BatchOf gk r [] h = tt
OwnEvents-BatchOf gk r (ev ∷ evs) h = (h.0.0, OwnEvents-BatchOf gk r evs h.1)

ingest_all-IsOwned :
    (cfg : Engine.Config) (evs : List Event) (e : Engine)
    → IsOwned e
    → IsOwned (ingest_all cfg evs e)
unfolding ingest_all
ingest_all-IsOwned cfg [] e h = h
ingest_all-IsOwned cfg (ev ∷ evs) e h =
    ingest_all-IsOwned cfg evs (ingest cfg ev e) (ingest-IsOwned cfg ev e h)

-- How many events that pass a test are in the core, on their way to `Upsert`.
abbrev pub in_core : {Net : Type 0} → (Event → Bool) → Core Net → ℕ
in_core p c = load p c.receiver + held p c.engine

-- The engine's groups and the publisher's sessions hold events of their own group only.
pub record IsSound {Net : Type 0} (c : Core Net) : Type 0 where
  pub owned : IsOwned c.engine
  pub sessions : IsWellFormed c.publisher

module _ {Net : Type 0} (pr : Program Net) where
  flow_engine :
      (p : Event → Bool) (a : Engine.Steps.Action) (c : Core Net)
      → Engine.Steps.arrivals (a ∷ []) ≡ []
      → in_core p (step_engine pr a c).0 + tally_batches p (step_engine pr a c).1 ≡ in_core p c
  unfolding step_engine after_engine
  flow_engine p a c h =
      let k = held-perform p (engine_config pr.config) a c.engine in
      let same : tally p (Engine.Steps.arrivals (a ∷ [])) ≡ 0 = rw h refl in omega (arith, k, same)

  flow-perform :
      (p : Event → Bool) (a : Action) (c : Core Net)
      → in_core p (perform pr a c).0 + tally_batches p (perform pr a c).1
        ≡ in_core p c + tally p (accepted_by a c)
  unfolding perform accepted_by after_receiver total
  flow-perform p (receiver_step a) c = omega (
    arith,
    load-perform p a c.receiver,
    held-ingest_all p (engine_config pr.config) (Receiver.perform a c.receiver).1 c.engine,
  )
  flow-perform p (register_backend body) c = omega arith
  flow-perform p (wait n) c =
      omega (arith, flow_engine p (Engine.Steps.wait n) c (unfold Engine.Steps.arrivals in refl))
  flow-perform p (expire id) c =
      omega (arith, flow_engine p (Engine.Steps.expire id) c (unfold Engine.Steps.arrivals in refl))
  flow-perform p (run id) c =
      omega (arith, flow_engine p (Engine.Steps.run id) c (unfold Engine.Steps.arrivals in refl))

  -- Whatever the order of requests, workers, timers, callbacks and registrations, of the events that
  -- pass any test, as many are in the queue, in a worker's hands or in a bucket at the end, or were
  -- handed to `Upsert`, as were in the core at first or were answered with 202: no accepted event is
  -- lost between the webhook and the publisher, and none is handed over twice.
  pub handover :
      (p : Event → Bool) (schedule : List Action) (c : Core Net)
      → in_core p (perform_all pr schedule c).0 + tally_batches p (perform_all pr schedule c).1
        ≡ in_core p c + tally p (accepted_all pr schedule c)
  unfolding perform_all accepted_all total
  handover p [] c = omega arith
  handover p (a ∷ rest) c =
      let next = perform pr a c in
      omega (
        arith,
        flow-perform p a c,
        handover p rest next.0,
        total-append (tally p) next.1 (perform_all pr rest next.0).1,
        tally-append p (accepted_by a c) (accepted_all pr rest next.0),
      )

  publish-IsWellFormed :
      (out : List Batch) (p : Publisher) (w : World Net)
      → All OwnEvents out
      → IsWellFormed p
      → IsWellFormed (publish pr out (p, w)).0
  unfolding publish
  publish-IsWellFormed [] p w h k = k
  publish-IsWellFormed ((key, evs) ∷ rest) p w h k = publish-IsWellFormed rest _ _ h.1 (
      upsert-IsWellFormed pr.sha256 pr.format_time (resolve (surroundings pr))
        (publisher_config pr.config) w.now key evs p w
        (OwnEvents-BatchOf key.group_key key.revision evs h.0) k)

  step_engine-IsSound :
      (a : Engine.Steps.Action) (c : Core Net)
      → IsSound c
      → IsSound (step_engine pr a c).0 × IsOwnBatches (step_engine pr a c).1
  unfolding step_engine after_engine
  step_engine-IsSound a c h =
      let k = perform-IsOwned (engine_config pr.config) a c.engine h.owned in
      (
        record { owned = k.0; sessions = publish-IsWellFormed _ c.publisher _ k.1.0 h.sessions },
        k.1,
      )

  pub perform-IsSound :
      (a : Action) (c : Core Net)
      → IsSound c
      → IsSound (perform pr a c).0 × IsOwnBatches (perform pr a c).1
  unfolding perform after_receiver
  perform-IsSound (receiver_step a) c h = (
    record {
      owned =
          ingest_all-IsOwned (engine_config pr.config) (Receiver.perform a c.receiver).1 c.engine
            h.owned;
      sessions = h.sessions;
    },
    (tt, tt),
  )
  perform-IsSound (register_backend body) c h =
      (record { owned = h.owned; sessions = h.sessions }, (tt, tt))
  perform-IsSound (wait n) c h = step_engine-IsSound (Engine.Steps.wait n) c h
  perform-IsSound (expire id) c h = step_engine-IsSound (Engine.Steps.expire id) c h
  perform-IsSound (run id) c h = step_engine-IsSound (Engine.Steps.run id) c h

  perform_all-IsSound :
      (schedule : List Action) (c : Core Net)
      → IsSound c
      → IsSound (perform_all pr schedule c).0 × IsOwnBatches (perform_all pr schedule c).1
  unfolding perform_all
  perform_all-IsSound [] c h = (h, (tt, tt))
  perform_all-IsSound (a ∷ rest) c h =
      let k = perform-IsSound a c h in
      let ih = perform_all-IsSound rest (perform pr a c).0 k.0 in
      (ih.0, (All-append OwnEvents _ _ k.1.0 ih.1.0, All-append IsFull _ _ k.1.1 ih.1.1))

  pub boot_with-IsSound :
      (now : Time) (net : Net) (c : Core Net) (size : Option ℕ)
      → boot_with pr.config now net size ≡ some c
      → IsSound c
  unfolding boot_with
  boot_with-IsSound now net c none q = absurd (ground arith)
  boot_with-IsSound now net c (some size) q = record {
    owned = let e : new_engine now ≡ c.engine = cc q in subst IsOwned e (unfold new_engine in tt);
    sessions = let e : new_publisher ≡ c.publisher = cc q in subst IsWellFormed e new-IsWellFormed;
  }

  -- From the start of the core on, in any order of requests, workers, timers, callbacks and
  -- registrations, and whatever the backends do: each batch that is handed to `Upsert` holds events,
  -- and only such as have the group and the revision of its session; and the session store is well
  -- formed: each session files the apps of its own group, each once under its own name.
  pub handed_over :
      (now : Time) (net : Net) (c : Core Net) (schedule : List Action)
      → boot pr.config now net ≡ some c
      → IsOwnBatches (perform_all pr schedule c).1
        × IsWellFormed (perform_all pr schedule c).0.publisher
  unfolding boot
  handed_over now net c schedule q =
      let k = perform_all-IsSound schedule c (boot_with-IsSound now net c _ q) in
      (k.1, k.0.sessions)
