-- ===== src/Core/Drain/Live.antt =====
-- The steps of the engine and of the receiver in the core, and what stays true of both.
use mathlib.Core.List.{append_assoc}
use argocd_notifier.Prelude.{ℕ, ◌≡◌, refl, sym, ap, ◌∙◌, List, [], ◌∷◌, ◌++◌, map, arith, All}
use argocd_notifier.Text.{text_eq}
use argocd_notifier.Maps.{keys, Distinct}
use argocd_notifier.Event.{Event}
use argocd_notifier.Aggregator.Engine
use argocd_notifier.Aggregator.Engine.{Engine, GroupState, ingest, new_engine}
use argocd_notifier.Aggregator.Engine.Steps
use argocd_notifier.Aggregator.Engine.Armed.{IsArmed}
use argocd_notifier.Aggregator.Engine.Armed.Always.{perform-IsArmed}
use argocd_notifier.Aggregator.Engine.Drain.Busy.{perform-Distinct}
use argocd_notifier.Receiver
use argocd_notifier.Receiver.{Receiver, new_receiver}
use argocd_notifier.Receiver.Drain.{GoesOn, IsAlive, perform-IsAlive}
use argocd_notifier.Core.{
  Program, Core, ingest_all, after_engine, step_engine, after_receiver, Action, receiver_step,
  register_backend, wait, expire, run, perform, perform_all, accepted_by, accepted_all,
  engine_config,
}

-- A step that ends no worker.
abbrev pub KeepsWorkers : Action → Type 0
KeepsWorkers (receiver_step a) = GoesOn a
KeepsWorkers (register_backend body) = Unit
KeepsWorkers (wait n) = Unit
KeepsWorkers (expire id) = Unit
KeepsWorkers (run id) = Unit

-- The invariants of the engine and of the receiver, for so many workers.
pub record IsLive {Net : Type 0} (n : ℕ) (c : Core Net) : Type 0 where
  pub armed : IsArmed c.engine
  pub distinct : Distinct (keys c.engine.groups)
  pub alive : IsAlive n c.receiver

-- The steps of the engine, xs steps of the core.
abbrev pub engine_steps : List Engine.Steps.Action → List Action
engine_steps [] = []
engine_steps (Engine.Steps.arrive ev ∷ rest) = engine_steps rest
engine_steps (Engine.Steps.wait n ∷ rest) = wait n ∷ engine_steps rest
engine_steps (Engine.Steps.expire id ∷ rest) = expire id ∷ engine_steps rest
engine_steps (Engine.Steps.run id ∷ rest) = run id ∷ engine_steps rest

abbrev pub receiver_steps : List Receiver.Action → List Action
receiver_steps xs = map (λ a. receiver_step a) xs

module _ {Net : Type 0} (pr : Program Net) where
  ingest_all-live :
      (evs : List Event) (e : Engine)
      → IsArmed e
      → Distinct (keys e.groups)
      → let e' : Engine = ingest_all (engine_config pr.config) evs e in
        IsArmed e' × Distinct (keys e'.groups)
  unfolding ingest_all Engine.Steps.perform
  ingest_all-live [] e h d = (h, d)
  ingest_all-live (ev ∷ evs) e h d =
      let cfg = engine_config pr.config in
      ingest_all-live evs (ingest cfg ev e) (perform-IsArmed cfg (Engine.Steps.arrive ev) e h)
        (perform-Distinct cfg (Engine.Steps.arrive ev) e d)

  step_engine-IsLive :
      (n : ℕ) (a : Engine.Steps.Action) (c : Core Net)
      → IsLive n c
      → IsLive n (step_engine pr a c).0
  unfolding step_engine after_engine
  step_engine-IsLive n a c h = record {
    armed = perform-IsArmed (engine_config pr.config) a c.engine h.armed;
    distinct = perform-Distinct (engine_config pr.config) a c.engine h.distinct;
    alive = h.alive;
  }

  perform-IsLive :
      (n : ℕ) (a : Action) (c : Core Net)
      → KeepsWorkers a
      → IsLive n c
      → IsLive n (perform pr a c).0
  unfolding perform after_receiver
  perform-IsLive n (receiver_step a) c g h =
      let k = ingest_all-live (Receiver.perform a c.receiver).1 c.engine h.armed h.distinct in
      record { armed = k.0; distinct = k.1; alive = perform-IsAlive n a c.receiver g h.alive }
  perform-IsLive n (register_backend body) c g h = record {
    armed = h.armed;
    distinct = h.distinct;
    alive = h.alive;
  }
  perform-IsLive n (wait t) c g h = step_engine-IsLive n (Engine.Steps.wait t) c h
  perform-IsLive n (expire id) c g h = step_engine-IsLive n (Engine.Steps.expire id) c h
  perform-IsLive n (run id) c g h = step_engine-IsLive n (Engine.Steps.run id) c h

  pub perform_all-IsLive :
      (n : ℕ) (schedule : List Action) (c : Core Net)
      → All KeepsWorkers schedule
      → IsLive n c
      → IsLive n (perform_all pr schedule c).0
  unfolding perform_all
  perform_all-IsLive n [] c g h = h
  perform_all-IsLive n (a ∷ rest) c g h =
      perform_all-IsLive n rest (perform pr a c).0 g.1 (perform-IsLive n a c g.0 h)

  pub perform_all-append :
      (xs ys : List Action) (c : Core Net)
      → (perform_all pr (xs ++ ys) c).0 ≡ (perform_all pr ys (perform_all pr xs c).0).0
  unfolding perform_all
  perform_all-append [] ys c = refl
  perform_all-append (x ∷ xs) ys c = perform_all-append xs ys (perform pr x c).0

  pub accepted_all-append :
      (xs ys : List Action) (c : Core Net)
      → accepted_all pr (xs ++ ys) c
        ≡ accepted_all pr xs c ++ accepted_all pr ys (perform_all pr xs c).0
  unfolding perform_all accepted_all
  accepted_all-append [] ys c = refl
  accepted_all-append (x ∷ xs) ys c =
      ap (λ (l : List Event). accepted_by x c ++ l) (accepted_all-append xs ys (perform pr x c).0)
      ∙ sym (append_assoc (accepted_by x c) (accepted_all pr xs (perform pr x c).0) _)

  pub receiver-receiver_steps :
      (xs : List Receiver.Action) (c : Core Net)
      → ((perform_all pr (receiver_steps xs) c).0.receiver ≡ (Receiver.perform_all xs c.receiver).0)
        × (accepted_all pr (receiver_steps xs) c ≡ Receiver.accepted_all xs c.receiver)
  unfolding perform_all perform after_receiver Receiver.perform_all accepted_all accepted_by
      Receiver.accepted_all
  receiver-receiver_steps [] c = (refl, refl)
  receiver-receiver_steps (a ∷ xs) c =
      let k = receiver-receiver_steps xs (perform pr (receiver_step a) c).0 in
      (k.0, ap (λ (l : List Event). Receiver.accepted_by a c.receiver ++ l) k.1)

  pub receiver_steps-live :
      (n : ℕ) (xs : List Receiver.Action) (c : Core Net)
      → IsArmed c.engine
      → Distinct (keys c.engine.groups)
      → let e : Engine = (perform_all pr (receiver_steps xs) c).0.engine in
        IsArmed e × Distinct (keys e.groups)
  unfolding perform_all perform after_receiver
  receiver_steps-live n [] c h d = (h, d)
  receiver_steps-live n (a ∷ xs) c h d =
      let k = ingest_all-live (Receiver.perform a c.receiver).1 c.engine h d in
      receiver_steps-live n xs (perform pr (receiver_step a) c).0 k.0 k.1

  pub engine-engine_steps :
      (xs : List Engine.Steps.Action) (c : Core Net)
      → Engine.Steps.arrivals xs ≡ []
      → ((perform_all pr (engine_steps xs) c).0.engine
          ≡ (Engine.Steps.perform_all (engine_config pr.config) xs c.engine).0)
        × ((perform_all pr (engine_steps xs) c).0.receiver ≡ c.receiver)
        × (accepted_all pr (engine_steps xs) c ≡ [])
  unfolding perform_all perform step_engine after_engine Engine.Steps.perform_all
      Engine.Steps.arrivals accepted_all accepted_by
  engine-engine_steps [] c q = (refl, refl, refl)
  engine-engine_steps (Engine.Steps.arrive ev ∷ xs) c q = absurd (ground (arith, q))
  engine-engine_steps (Engine.Steps.wait n ∷ xs) c q =
      engine-engine_steps xs (perform pr (wait n) c).0 q
  engine-engine_steps (Engine.Steps.expire id ∷ xs) c q =
      engine-engine_steps xs (perform pr (expire id) c).0 q
  engine-engine_steps (Engine.Steps.run id ∷ xs) c q =
      engine-engine_steps xs (perform pr (run id) c).0 q
