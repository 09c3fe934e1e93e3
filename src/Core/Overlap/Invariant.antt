-- ===== src/Core/Overlap/Invariant.antt =====
-- What holds of the core however the calls of `Upsert` overlap.
use argocd_notifier.Prelude.{
  ◌≡◌, refl, sym, subst, ap, ◌∙◌, Bool, some, ℕ, zero, suc, ◌+◌, List, [], ◌∷◌, All, All-append,
}
use argocd_notifier.Event.{Event}
use argocd_notifier.Aggregator.Clock.{Time}
use argocd_notifier.Aggregator.Engine.{Batch}
use argocd_notifier.Aggregator.Engine.Sessions.{tally, tally_batches}
use argocd_notifier.Aggregator.Engine.Owned.{OwnEvents, IsOwnBatches}
use argocd_notifier.Aggregator.Session.{Publisher}
use argocd_notifier.Aggregator.Session.Steps.{
  Stage, opening, sending, storing, replying, returned, step,
}
use argocd_notifier.Aggregator.Session.WellFormed.{
  BatchOf, IsWellFormed, begin-IsWellFormed, store_refs-IsWellFormed,
}
use argocd_notifier.RemoteBackend.{resolve}
use argocd_notifier.Core
use argocd_notifier.Core.{
  World, Program, Core, boot, after_engine, step_engine, receiver_step, register_backend, wait,
  expire, run, accepted_all, surroundings, engine_config, publisher_config,
}
use argocd_notifier.Core.Handover.{
  in_core, IsSound, boot_with-IsSound, perform-IsSound, OwnEvents-BatchOf, handover, handed_over,
}
use argocd_notifier.Core.Overlap.{
  Goroutine, Overlapping, Action, core_step, go_on, spawn, engine_step, quiet_step, behind_call,
  call_step, goroutine_step, go_on_at, perform, perform_all, core_steps,
}
use argocd_notifier.Core.Overlap.Agrees.{
  Agrees, quiet_step-Agrees, go_on_at-Agrees, perform_all-Agrees,
}

module _ {Net : Type 0} (pr : Program Net) where
  -- The events that a call has still to merge are of its session's group, and so are the batches that
  -- wait behind it.
  abbrev OwnStage : Stage → Type 0
  OwnStage (opening key evs) = BatchOf key.group_key evs
  OwnStage (sending key t b gs g) = Unit
  OwnStage (storing key t b g) = Unit
  OwnStage (replying t refs evs g) = Unit
  OwnStage (returned errs) = Unit

  abbrev OwnGoroutine : Goroutine → Type 0
  OwnGoroutine g = OwnStage g.stage × All OwnEvents g.left

  -- The session store is well formed, and so are the goroutines.
  abbrev IsFine : List Goroutine × Core Net → Type 0
  IsFine s = All OwnGoroutine s.0 × IsWellFormed s.1.publisher

  step-IsWellFormed :
      (now : Time) (x : Stage) (s : Publisher × World Net)
      → OwnStage x
      → IsWellFormed s.0
      → let r =
          step pr.sha256 pr.format_time
            (resolve (surroundings pr))
            (publisher_config pr.config)
            now
            x
            s in
        OwnStage r.0 × IsWellFormed r.1.0
  unfolding step
  step-IsWellFormed now (opening key []) (p, w) q h = (tt, h)
  step-IsWellFormed now (opening key (ev ∷ evs)) (p, w) q h =
      (tt, begin-IsWellFormed pr.sha256 (publisher_config pr.config) now key (ev ∷ evs) p q h)
  step-IsWellFormed now (sending key t b [] g) (p, w) q h = (tt, h)
  step-IsWellFormed now (sending key t b ((rk, apps) ∷ gs) g) (p, w) q h = (tt, h)
  step-IsWellFormed now (storing key t b g) (p, w) q h =
      (tt, store_refs-IsWellFormed p key b.address g.new_refs h)
  step-IsWellFormed now (replying t refs [] g) (p, w) q h = (tt, h)
  step-IsWellFormed now (replying t refs (ev ∷ evs) g) (p, w) q h = (tt, h)
  step-IsWellFormed now (returned errs) (p, w) q h = (tt, h)

  call_step-IsFine :
      (x : Stage) (left : List Batch) (c : Core Net)
      → OwnStage x
      → All OwnEvents left
      → IsWellFormed c.publisher
      → OwnGoroutine (call_step pr x left c).0 × IsWellFormed (call_step pr x left c).1.publisher
  unfolding call_step behind_call
  call_step-IsFine x left c q l h =
      let k = step-IsWellFormed c.engine.clock.now x (c.publisher, _) q h in ((k.0, l), k.1)

  goroutine_step-IsFine :
      (x : Stage) (left : List Batch) (c : Core Net)
      → OwnStage x
      → All OwnEvents left
      → IsWellFormed c.publisher
      → OwnGoroutine (goroutine_step pr x left c).0
        × IsWellFormed (goroutine_step pr x left c).1.publisher
  unfolding goroutine_step
  goroutine_step-IsFine (returned errs) [] c q l h = ((tt, tt), h)
  goroutine_step-IsFine (returned errs) ((key, evs) ∷ left) c q l h =
      ((OwnEvents-BatchOf key.group_key key.revision evs l.0, l.1), h)
  goroutine_step-IsFine (opening key evs) left c q l h =
      call_step-IsFine (opening key evs) left c q l h
  goroutine_step-IsFine (sending key t b gs g) left c q l h =
      call_step-IsFine (sending key t b gs g) left c q l h
  goroutine_step-IsFine (storing key t b g) left c q l h =
      call_step-IsFine (storing key t b g) left c q l h
  goroutine_step-IsFine (replying t refs evs g) left c q l h =
      call_step-IsFine (replying t refs evs g) left c q l h

  go_on_at-IsFine :
      (i : ℕ) (gs : List Goroutine) (c : Core Net) → IsFine (gs, c) → IsFine (go_on_at pr i gs c)
  unfolding go_on_at
  go_on_at-IsFine i [] c h = h
  go_on_at-IsFine zero (g ∷ gs) c h =
      let k = goroutine_step-IsFine g.stage g.left c h.0.0.0 h.0.0.1 h.1 in ((k.0, h.0.1), k.1)
  go_on_at-IsFine (suc i) (g ∷ gs) c h =
      let k = go_on_at-IsFine i gs c (h.0.1, h.1) in ((h.0.0, k.0), k.1)

  spawn-Own :
      (out : List Batch) (gs : List Goroutine)
      → All OwnEvents out
      → All OwnGoroutine gs
      → All OwnGoroutine (spawn out gs)
  unfolding spawn
  spawn-Own [] gs l h = h
  spawn-Own (b ∷ bs) gs l h = All-append OwnGoroutine gs _ h ((tt, l), tt)

  publisher-quiet_step :
      (a : Core.Action) (c : Core Net) → (quiet_step pr a c).0.publisher ≡ c.publisher
  unfolding quiet_step engine_step Core.perform Core.after_receiver
  publisher-quiet_step (receiver_step a) c = refl
  publisher-quiet_step (register_backend body) c = refl
  publisher-quiet_step (wait n) c = refl
  publisher-quiet_step (expire id) c = refl
  publisher-quiet_step (run id) c = refl

  perform_all-IsFine :
      (schedule : List Action) (o : Overlapping Net) (d : Core Net)
      → Agrees o.core d
      → IsSound d
      → IsFine (o.goroutines, o.core)
      → IsFine ((perform_all pr schedule o).0.goroutines, (perform_all pr schedule o).0.core)
  unfolding perform_all perform
  perform_all-IsFine [] o d h s f = f
  perform_all-IsFine (core_step a ∷ rest) o d h s f =
      let k = quiet_step-Agrees pr a o.core d h in
      let next = perform-IsSound pr a d s in
      let own : All OwnEvents (quiet_step pr a o.core).1 =
        subst (λ (x : List Batch). All OwnEvents x) (sym k.1) next.1.0 in
      perform_all-IsFine rest (perform pr (core_step a) o).0 (Core.perform pr a d).0 k.0 next.0 (
        spawn-Own (quiet_step pr a o.core).1 o.goroutines own f.0,
        subst IsWellFormed (sym (publisher-quiet_step a o.core)) f.1,
      )
  perform_all-IsFine (go_on i ∷ rest) o d h s f =
      perform_all-IsFine rest (perform pr (go_on i) o).0 d
        (go_on_at-Agrees pr i o.goroutines o.core d h) s (go_on_at-IsFine i o.goroutines o.core f)

  boot-IsSound :
      (now : Time) (net : Net) (c : Core Net) → boot pr.config now net ≡ some c → IsSound c
  unfolding boot
  boot-IsSound now net c q = boot_with-IsSound pr now net c _ q

  -- From the start of the core on, in any order of requests, workers, timers, callbacks, registrations
  -- and steps of the calls of `Upsert`, so that any number of these are under way at the same time, and
  -- whatever the backends do: each batch that is handed over holds events, and only such as have the
  -- group and the revision of its session; as many events that pass a test are in the core at the end or
  -- were handed over as were answered with 202; and the session store is well formed.
  pub overlapping :
      (p : Event → Bool) (now : Time) (net : Net) (c : Core Net) (schedule : List Action)
      → boot pr.config now net ≡ some c
      → let (o, out) = perform_all pr schedule (record { core = c; goroutines = [] }) in
        IsOwnBatches out
        × (in_core p o.core + tally_batches p out
            ≡ in_core p c + tally p (accepted_all pr (core_steps schedule) c))
        × IsWellFormed o.core.publisher
  overlapping p now net c schedule q =
      let start : Overlapping Net = record { core = c; goroutines = [] } in
      let alike : Agrees c c = record { receiver = refl; engine = refl } in
      let sound : IsSound c = boot-IsSound now net c q in
      let k = perform_all-Agrees pr schedule start c alike in
      let steps = core_steps schedule in
      let same : in_core p (perform_all pr schedule start).0.core
          ≡ in_core p (Core.perform_all pr steps c).0 =
        rw (k.0.receiver, k.0.engine) refl in
      let fine = perform_all-IsFine schedule start c alike sound (tt, sound.sessions) in
      (
        subst IsOwnBatches (sym k.1) (handed_over pr now net c steps q).0,
        ap (λ (n : ℕ). n + tally_batches p (perform_all pr schedule start).1) same
            ∙ (ap
                  (λ (x : List Batch).
                    in_core p (Core.perform_all pr steps c).0 + tally_batches p x)
                  k.1
                ∙ handover pr p steps c),
        fine.1,
      )
