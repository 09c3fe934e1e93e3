-- ===== src/Aggregator/Engine/Generations.antt =====
-- The generations of a group, and the callbacks of one that is over.
use argocd_notifier.Prelude.{
  ℕ, ◌+◌, ◌≤◌, ◌<◌, ◌≡◌, ◌≢◌, ap, inl, inr, List, [], ◌∷◌, arith, ◌==◌, nat_eq, Option-cases,
  Bool-cases, eq_of_==, ne_of_==,
}
use argocd_notifier.Text.{GoString, text_eq}
use argocd_notifier.Event.{Event}
use argocd_notifier.Aggregator.Clock.{Callback}
use argocd_notifier.Aggregator.Engine.{
  Config, Engine, GroupState, Batch, ingest, ingest_group, take_batch, on_timer_fire,
}
use argocd_notifier.Aggregator.Engine.Steps.{
  Action, arrive, wait, expire, run, perform, perform_all, run_callback, take_started,
}
use argocd_notifier.Aggregator.Engine.Armed.{state_of}
use argocd_notifier.Aggregator.Engine.Armed.Fire.{
  idle, stale, taken, on_timer_fire-Fired, state_of-take_batch_self, state_of-take_batch_ne,
}
use argocd_notifier.Aggregator.Engine.Armed.Ingest.{state_of-ingest_self, state_of-ingest_ne}

abbrev pub generation_of : Engine → GoString → ℕ
generation_of e gk = (state_of e gk).generation

generation-ingest :
    (cfg : Config) (ev : Event) (e : Engine) (gk : GoString)
    → generation_of (ingest cfg ev e) gk ≡ generation_of e gk
unfolding ingest_group
generation-ingest cfg ev e gk = elim (Bool-cases (ev.group_key == gk)) [
  | inl p ↦
      rw (← eq_of_== ev.group_key gk p)
        (ap (λ (g : GroupState). g.generation) (state_of-ingest_self cfg ev e))
  | inr p ↦
      ap (λ (g : GroupState). g.generation)
        (state_of-ingest_ne cfg ev e gk (ne_of_== ev.group_key gk p))
]

pub generation-take_batch_self :
    (cfg : Config) (f : Callback) (e : Engine)
    → generation_of (take_batch cfg f (state_of e f.group_key) e).0 f.group_key
      ≡ generation_of e f.group_key + 1
generation-take_batch_self cfg f e =
    ap (λ (g : GroupState). g.generation)
      (state_of-take_batch_self cfg f (state_of e f.group_key) e)

generation-take_batch :
    (cfg : Config) (f : Callback) (e : Engine) (gk : GoString)
    → generation_of e gk ≤ generation_of (take_batch cfg f (state_of e f.group_key) e).0 gk
generation-take_batch cfg f e gk = elim (Bool-cases (f.group_key == gk)) [
  | inl p ↦ rw (← eq_of_== f.group_key gk p) (omega (arith, generation-take_batch_self cfg f e))
  | inr p ↦ omega (
    arith,
    ap (λ (g : GroupState). g.generation)
        (state_of-take_batch_ne cfg f (state_of e f.group_key) e gk (ne_of_== f.group_key gk p)),
  )
]

generation-on_timer_fire :
    (cfg : Config) (f : Callback) (e : Engine) (gk : GoString)
    → generation_of e gk ≤ generation_of (on_timer_fire cfg f e).0 gk
generation-on_timer_fire cfg f e gk = elim (on_timer_fire-Fired cfg f e) [
  | idle nil r ↦ rw r (omega arith)
  | stale ne r ↦ rw r (omega arith)
  | taken eq r ↦ rw r (generation-take_batch cfg f e gk)
]

generation-perform :
    (cfg : Config) (a : Action) (e : Engine) (gk : GoString)
    → generation_of e gk ≤ generation_of (perform cfg a e).0 gk
unfolding perform
generation-perform cfg (arrive ev) e gk = rw (generation-ingest cfg ev e gk) (omega arith)
generation-perform cfg (wait n) e gk = omega arith
generation-perform cfg (expire id) e gk = omega arith
generation-perform cfg (run id) e gk = elim (Option-cases (take_started id e.clock.started)) [
  | inl q ↦ rw (q, run_callback) (omega arith)
  | inr ((f, ts), q) ↦
      rw (q, run_callback)
        (generation-on_timer_fire cfg f (record e { clock = record e.clock { started = ts } }) gk)
]

pub generation-perform_all :
    (cfg : Config) (schedule : List Action) (e : Engine) (gk : GoString)
    → generation_of e gk ≤ generation_of (perform_all cfg schedule e).0 gk
unfolding perform_all
generation-perform_all cfg [] e gk = omega arith
generation-perform_all cfg (a ∷ rest) e gk =
    omega
      (arith, generation-perform cfg a e gk, generation-perform_all cfg rest (perform cfg a e).0 gk)

generation_grows :
    (cfg : Config) (f : Callback) (e : Engine)
    → (on_timer_fire cfg f e).1 ≢ []
    → f.generation < generation_of (on_timer_fire cfg f e).0 f.group_key
generation_grows cfg f e out = elim (on_timer_fire-Fired cfg f e) [
  | idle nil r ↦ absurd (out (ap (λ (x : Engine × List Batch). x.1) r))
  | stale ne r ↦ absurd (out (ap (λ (x : Engine × List Batch). x.1) r))
  | taken eq r ↦ rw r (omega (arith, generation-take_batch_self cfg f e))
]

old_callback_idle :
    (cfg : Config) (f : Callback) (e : Engine)
    → f.generation < generation_of e f.group_key
    → on_timer_fire cfg f e ≡ (e, [])
old_callback_idle cfg f e old = elim (on_timer_fire-Fired cfg f e) [
  | idle nil r ↦ r
  | stale ne r ↦ r
  | taken eq r ↦ absurd (omega arith)
]

-- Once a callback has flushed its batch, every other callback that was armed for that batch, such as
-- the other timer's, changes nothing and hands nothing over, whatever happened in between, and also
-- if it had expired before the flush stopped its timer.
pub flushed_once :
    (cfg : Config) (f : Callback) (e : Engine) (schedule : List Action)
    → (on_timer_fire cfg f e).1 ≢ []
    → on_timer_fire cfg f (perform_all cfg schedule (on_timer_fire cfg f e).0).0
      ≡ ((perform_all cfg schedule (on_timer_fire cfg f e).0).0, [])
flushed_once cfg f e schedule out =
    old_callback_idle cfg f (perform_all cfg schedule (on_timer_fire cfg f e).0).0 (
      omega (
        arith,
        generation_grows cfg f e out,
        generation-perform_all cfg schedule (on_timer_fire cfg f e).0 f.group_key,
      ))
