-- ===== src/Core/Drain.antt =====
-- From wherever the core is, it can hand over every event that it has accepted.
pub mod Live
use argocd_notifier.Prelude.{
  ℕ, suc, ◌+◌, ◌≡◌, refl, subst, ap, ◌∙◌, Bool, Option, none, some, List, [], ◌++◌, length, ◌*◌,
  arith, inl, All,
}
use argocd_notifier.Prelude.Int.{pos}
use argocd_notifier.Text.{text_eq}
use argocd_notifier.Maps.{keys, Distinct, total}
use argocd_notifier.Event.{Event}
use argocd_notifier.Aggregator.Engine
use argocd_notifier.Aggregator.Engine.{Engine, new_engine}
use argocd_notifier.Aggregator.Engine.Sessions.{tally, tally_batches, tally-append}
use argocd_notifier.Aggregator.Engine.Conservation.{held}
use argocd_notifier.Aggregator.Engine.Steps
use argocd_notifier.Aggregator.Engine.Armed.{IsArmed}
use argocd_notifier.Aggregator.Engine.Armed.Always.{new-IsArmed}
use argocd_notifier.Aggregator.Engine.Drain.{drains}
use argocd_notifier.Aggregator.Engine.Drain.Busy.{busy, held-idle}
use argocd_notifier.Receiver
use argocd_notifier.Receiver.{Receiver, new_receiver}
use argocd_notifier.Receiver.Flow.{load}
use argocd_notifier.Receiver.Drain.{IsAlive, empties}
use argocd_notifier.Core.{
  Program, Core, boot, boot_with, worker_count, Action, receiver_step, perform, perform_all,
  accepted_all, engine_config,
}
use argocd_notifier.Core.Handover.{in_core, handover}
use argocd_notifier.Core.Drain.Live.{
  KeepsWorkers, IsLive, engine_steps, receiver_steps, perform_all-IsLive, perform_all-append,
  accepted_all-append, receiver-receiver_steps, receiver_steps-live, engine-engine_steps,
}

module _ {Net : Type 0} (pr : Program Net) where
  load-empty : (p : Event → Bool) (r : Receiver) → r.queue ≡ [] → r.in_hand ≡ [] → load p r ≡ 0
  load-empty p r q h = rw (q, h) refl

  -- Steps behind which nothing is in the core, none of which accepts an event.
  empties_core :
      (p : Event → Bool) (n : ℕ) (c : Core Net)
      → IsLive (suc n) c
      → (rest : List Action) × (accepted_all pr rest c ≡ [])
        × (in_core p (perform_all pr rest c).0 ≡ 0)
  empties_core p n c h =
      let cfg = engine_config pr.config in
      let r : Receiver = c.receiver in
      let m =
        empties (2 * length r.queue + length r.in_hand) n r r.queue r.in_hand r.free refl refl refl
          (omega arith) h.alive in
      let c1 : Core Net = (perform_all pr (receiver_steps m.steps) c).0 in
      let first = receiver-receiver_steps pr m.steps c in
      let live = receiver_steps-live pr n m.steps c h.armed h.distinct in
      let l = drains cfg (busy c1.engine) c1.engine (omega arith) live.0 live.1 in
      let second = engine-engine_steps pr l.steps c1 l.no_arrivals in
      let c2 : Core Net = (perform_all pr (engine_steps l.steps) c1).0 in
      let same : c2.receiver ≡ (Receiver.perform_all m.steps r).0 = second.1 ∙ first.0 in
      let no_load : load p c2.receiver ≡ 0 =
        ap (load p) same
        ∙ load-empty p (Receiver.perform_all m.steps r).0 m.queue_empty m.hands_empty in
      let none_held : held p c2.engine ≡ 0 =
        ap (held p) second.0
        ∙ held-idle p (Engine.Steps.perform_all cfg l.steps c1.engine).0.groups l.reached in
      (
        receiver_steps m.steps ++ engine_steps l.steps,
        accepted_all-append pr (receiver_steps m.steps) (engine_steps l.steps) c
            ∙ rw (first.1 ∙ m.accepts_none, second.2) refl,
        ap (in_core p) (perform_all-append pr (receiver_steps m.steps) (engine_steps l.steps) c)
            ∙ omega (arith, no_load, none_held),
      )

  boot-IsLive :
      (n now : ℕ) (net : Net) (c : Core Net) (size : Option ℕ)
      → pr.config.worker_count ≡ pos (suc n)
      → boot_with pr.config now net size ≡ some c
      → IsLive (suc n) c
  unfolding boot_with
  boot-IsLive n now net c none hw q = absurd (ground (arith, q))
  boot-IsLive n now net c (some size) hw q =
      let e : new_engine now ≡ c.engine = cc q in
      let r : new_receiver size (worker_count pr.config.worker_count) ≡ c.receiver = cc q in
      record {
        armed = subst IsArmed e (new-IsArmed now);
        distinct = subst (λ (x : Engine). Distinct (keys x.groups)) e (unfold new_engine in tt);
        alive =
            subst (IsAlive (suc n)) r
              (unfold new_receiver worker_count in (inl refl, rw hw (omega arith)));
      }

  in_core-boot :
      (p : Event → Bool) (now : ℕ) (net : Net) (c : Core Net) (size : Option ℕ)
      → boot_with pr.config now net size ≡ some c
      → in_core p c ≡ 0
  unfolding boot_with
  in_core-boot p now net c none q = absurd (ground (arith, q))
  in_core-boot p now net c (some size) q =
      let e : new_engine now ≡ c.engine = cc q in
      let r : new_receiver size (worker_count pr.config.worker_count) ≡ c.receiver = cc q in
      let nothing : load p c.receiver ≡ 0 =
        subst (λ (x : Receiver). load p x ≡ 0) r (unfold new_receiver in refl) in
      let idle : held p c.engine ≡ 0 =
        subst (λ (x : Engine). held p x ≡ 0) e (unfold new_engine total in refl) in
      omega (arith, nothing, idle)

  -- From the start of the core on, with at least one worker, wherever a schedule that ends no worker has
  -- led it: for any test on events there are steps to go on with, none of which accepts an event, such
  -- that no event that passes the test is in the core at their end, and as many of them were handed to
  -- `Upsert` in all as were answered with 202.
  pub core_drain :
      (p : Event → Bool) (n now : ℕ) (net : Net) (c : Core Net) (schedule : List Action)
      → boot pr.config now net ≡ some c
      → pr.config.worker_count ≡ pos (suc n)
      → All KeepsWorkers schedule
      → (rest : List Action) × (accepted_all pr rest (perform_all pr schedule c).0 ≡ [])
        × (in_core p (perform_all pr (schedule ++ rest) c).0 ≡ 0)
        × (tally_batches p (perform_all pr (schedule ++ rest) c).1
            ≡ tally p (accepted_all pr schedule c))
  unfolding boot
  core_drain p n now net c schedule q hw keeps =
      let c1 : Core Net = (perform_all pr schedule c).0 in
      let live = perform_all-IsLive pr (suc n) schedule c keeps (boot-IsLive n now net c _ hw q) in
      let (rest, silent, empty) = empties_core p n c1 live in
      let left : in_core p (perform_all pr (schedule ++ rest) c).0 ≡ 0 =
        ap (in_core p) (perform_all-append pr schedule rest c) ∙ empty in
      (
        rest,
        silent,
        left,
        omega (
          arith,
          left,
          in_core-boot p now net c _ q,
          handover pr p (schedule ++ rest) c,
          ap (tally p) (accepted_all-append pr schedule rest c),
          tally-append p (accepted_all pr schedule c) (accepted_all pr rest c1),
          ap (tally p) silent,
        ),
      )
