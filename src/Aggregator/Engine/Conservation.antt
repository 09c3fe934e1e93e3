-- ===== src/Aggregator/Engine/Conservation.antt =====
-- The number of events on their way from `Ingest` to `Upsert`.
use argocd_notifier.Prelude.{
  ℕ, ◌+◌, ◌≡◌, refl, Bool, Option, none, some, List, [], ◌∷◌, ◌++◌, arith, ◌==◌, nat_eq, Bool-cases,
  Option-cases, inl, inr, ap, not, ◌||◌,
}
use argocd_notifier.Text.{GoString, text_eq}
use argocd_notifier.Maps.{
  lookup, get_or, total, total-append, weight_of, total-insert, weight-get_or, total-append,
}
use argocd_notifier.Event.{Event}
use argocd_notifier.Aggregator.Clock.{Callback}
use argocd_notifier.Aggregator.Engine.{
  Config, Engine, GroupState, Buckets, new_group, is_empty_map, add_event, ingest, take_batch,
  fire_group, on_timer_fire,
}
use argocd_notifier.Aggregator.Engine.Sessions.{
  tally, tally_batches, tally_buckets, tally-append, tally-flush,
}
use argocd_notifier.Aggregator.Engine.Steps.{
  Action, arrive, wait, expire, run, perform, perform_all, arrivals, run_callback, take_started,
}

-- How many of the events that wait in buckets pass a test.
abbrev pub held : (Event → Bool) → Engine → ℕ
held p e = total (λ gs. tally_buckets p gs.buckets) e.groups

tally_buckets-add_event :
    (p : Event → Bool) (trigger : GoString) (ev : Event) (b : Buckets)
    → tally_buckets p (add_event trigger ev b) ≡ tally_buckets p b + tally p (ev ∷ [])
unfolding add_event
tally_buckets-add_event p trigger ev b = omega (
  arith,
  total-insert (tally p) trigger (get_or trigger [] b ++ ev ∷ []) b,
  tally-append p (get_or trigger [] b) (ev ∷ []),
  weight-get_or (tally p) trigger [] b refl,
)

pub held-ingest :
    (p : Event → Bool) (cfg : Config) (ev : Event) (e : Engine)
    → held p (ingest cfg ev e) ≡ held p e + tally p (ev ∷ [])
unfolding ingest total
held-ingest p cfg ev e =
    let gs : GroupState = get_or ev.group_key new_group e.groups in
    let w = λ (g : GroupState). tally_buckets p g.buckets in
    omega (
      arith,
      total-insert w ev.group_key _ e.groups,
      tally_buckets-add_event p ev.trigger ev gs.buckets,
      weight-get_or w ev.group_key new_group e.groups refl,
    )

held-take_batch :
    (p : Event → Bool) (cfg : Config) (f : Callback) (gs : GroupState) (e : Engine)
    → lookup f.group_key e.groups ≡ some gs
    → held p (take_batch cfg f gs e).0 + tally_batches p (take_batch cfg f gs e).1 ≡ held p e
unfolding take_batch total
held-take_batch p cfg f gs e h =
    let w = λ (g : GroupState). tally_buckets p g.buckets in
    let left = λ (o : Option GroupState). weight_of w o in
    omega (
      arith,
      total-insert w f.group_key _ e.groups,
      ap left h,
      tally-flush p cfg f.group_key gs.buckets,
    )

held-fire_group :
    (p : Event → Bool) (cfg : Config) (f : Callback) (o : Option GroupState) (e : Engine)
    → lookup f.group_key e.groups ≡ o
    → held p (fire_group cfg f o e).0 + tally_batches p (fire_group cfg f o e).1 ≡ held p e
unfolding fire_group total
held-fire_group p cfg f none e h = omega arith
held-fire_group p cfg f (some gs) e h =
    elim (Bool-cases (not (gs.generation == f.generation) || is_empty_map gs.buckets)) [
      | inl stale ↦ rw stale (omega arith)
      | inr fresh ↦ rw fresh (held-take_batch p cfg f gs e h)
    ]

pub held-perform :
    (p : Event → Bool) (cfg : Config) (a : Action) (e : Engine)
    → held p (perform cfg a e).0 + tally_batches p (perform cfg a e).1
      ≡ held p e + tally p (arrivals (a ∷ []))
unfolding perform arrivals total on_timer_fire
held-perform p cfg (arrive ev) e = omega (arith, held-ingest p cfg ev e)
held-perform p cfg (wait n) e = omega arith
held-perform p cfg (expire id) e = omega arith
held-perform p cfg (run id) e = elim (Option-cases (take_started id e.clock.started)) [
  | inl q ↦ rw (q, run_callback) (omega arith)
  | inr ((f, ts), q) ↦
      rw (q, run_callback)
        (omega (
          arith,
          held-fire_group p cfg f (lookup f.group_key e.groups)
              (record e { clock = record e.clock { started = ts } }) refl,
        ))
]

tally-arrivals :
    (p : Event → Bool) (a : Action) (rest : List Action)
    → tally p (arrivals (a ∷ rest)) ≡ tally p (arrivals (a ∷ [])) + tally p (arrivals rest)
unfolding arrivals
tally-arrivals p (arrive ev) rest = tally-append p (ev ∷ []) (arrivals rest)
tally-arrivals p _ rest = omega arith

-- Whatever the schedule of arrivals, expiries and callbacks, each event that came in is either still
-- held in a bucket or has been handed to `Upsert`, and as often as it came in: of the events that
-- pass any test, as many are held at the end or were handed over as were held at first or arrived.
pub conservation :
    (p : Event → Bool) (cfg : Config) (schedule : List Action) (e : Engine)
    → held p (perform_all cfg schedule e).0 + tally_batches p (perform_all cfg schedule e).1
      ≡ held p e + tally p (arrivals schedule)
unfolding perform_all arrivals total
conservation p cfg [] e = omega arith
conservation p cfg (a ∷ rest) e = omega (
  arith,
  held-perform p cfg a e,
  conservation p cfg rest (perform cfg a e).0,
  total-append (tally p) (perform cfg a e).1 (perform_all cfg rest (perform cfg a e).0).1,
  tally-arrivals p a rest,
)
