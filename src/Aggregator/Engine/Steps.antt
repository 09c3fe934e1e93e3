-- ===== src/Aggregator/Engine/Steps.antt =====
-- The engine in its surroundings: events arrive, time passes, timers expire, and their callbacks run,
-- in any order. A schedule is a list of such steps.
use argocd_notifier.Prelude.{
  ℕ, ◌+◌, Bool, ◌&&◌, not, Option, none, some, List, [], ◌∷◌, ◌++◌, keep, ◌==◌, nat_eq,
  if◌then◌else◌,
}
use argocd_notifier.Prelude.Int.{pos, ltb_ℤ}
use argocd_notifier.Event.{Event}
use argocd_notifier.Aggregator.Clock.{Callback, Timer, Clock}
use argocd_notifier.Aggregator.Engine.{Config, Engine, Batch, ingest, on_timer_fire}

pub data Action : Type 0 where
  arrive : Event → Action
  wait : ℕ → Action
  expire : ℕ → Action
  run : ℕ → Action

-- The timer with this id has reached its deadline.
unfoldable pub is_due : ℕ → ℕ → Timer → Bool
is_due id now t = (t.id == id) && not (ltb_ℤ (pos now) t.deadline)

unfoldable pub expire_timer : ℕ → Clock → Clock
unfolding is_due
expire_timer id c = record c {
  pending = keep (λ t. not (is_due id c.now t)) c.pending;
  started = c.started ++ keep (is_due id c.now) c.pending;
}

-- The callback of the first started timer with this id, and the other started timers.
unfoldable pub take_started : ℕ → List Timer → Option (Callback × List Timer)
take_started id [] = none
take_started id (t ∷ ts) =
    let rest = take_started id ts in
    if t.id == id
    then some (t.callback, ts)
    else elim rest [ none ↦ none | some (f, us) ↦ some (f, t ∷ us) ]

unfoldable pub run_callback : Config → Option (Callback × List Timer) → Engine → Engine × List Batch
run_callback cfg none e = (e, [])
run_callback cfg (some (f, ts)) e =
    on_timer_fire cfg f (record e { clock = record e.clock { started = ts } })

unfoldable pub perform : Config → Action → Engine → Engine × List Batch
unfolding expire_timer run_callback
perform cfg (arrive ev) e = (ingest cfg ev e, [])
perform cfg (wait n) e = (record e { clock = record e.clock { now = e.clock.now + n } }, [])
perform cfg (expire id) e = (record e { clock = expire_timer id e.clock }, [])
perform cfg (run id) e = run_callback cfg (take_started id e.clock.started) e

unfoldable pub perform_all : Config → List Action → Engine → Engine × List Batch
perform_all cfg [] e = (e, [])
perform_all cfg (a ∷ rest) e =
    let (e', out) = perform cfg a e in
    let (e'', out') = perform_all cfg rest e' in (e'', out ++ out')

-- The events that arrive in a schedule.
unfoldable pub arrivals : List Action → List Event
arrivals [] = []
arrivals (arrive ev ∷ rest) = ev ∷ arrivals rest
arrivals (_ ∷ rest) = arrivals rest
