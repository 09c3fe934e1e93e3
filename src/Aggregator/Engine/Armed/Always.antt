-- ===== src/Aggregator/Engine/Armed/Always.antt =====
-- The timers of the groups over a whole schedule.
use argocd_notifier.Prelude.{
  ℕ, ◌≡◌, ◌≢◌, refl, sym, ap, ◌⊎◌, inl, inr, not, some, List, [], ◌∷◌, arith, In, ◌==◌, nat_eq,
  Bool-cases, Option-cases, ◌∙◌, subst,
}
use argocd_notifier.Text.{GoString, text_eq}
use argocd_notifier.Maps.{lookup, get_or, get_or-insert_self}
use argocd_notifier.Aggregator.Clock.{Callback, Timer, Clock}
use argocd_notifier.Aggregator.Clock.Outstanding.{
  Stands, Outstanding, In-append_left, In-append_right, In-keep,
}
use argocd_notifier.Aggregator.Engine.{
  Config, Engine, GroupState, take_batch, flush, on_timer_fire, new_group, new_engine,
}
use argocd_notifier.Aggregator.Engine.Steps.{
  Action, arrive, wait, expire, run, perform, perform_all, run_callback, take_started, expire_timer,
  is_due,
}
use argocd_notifier.Aggregator.Engine.Armed.{state_of, HasHardTimer, IsArmed}
use argocd_notifier.Aggregator.Engine.Armed.Ingest.{ingest-IsArmed}
use argocd_notifier.Aggregator.Engine.Armed.Fire.{
  idle, stale, taken, on_timer_fire-Fired, on_timer_fire-IsArmed,
}

pub Stands-expire : (t : Timer) (i : ℕ) (c : Clock) → Stands t c → Stands t (expire_timer i c)
unfolding expire_timer
Stands-expire t i c (inl m) = elim (Bool-cases (is_due i c.now t)) [
  | inl due ↦ inr (In-append_right t c.started _ (In-keep (is_due i c.now) t c.pending due m))
  | inr early ↦ inl (In-keep (λ u. not (is_due i c.now u)) t c.pending (rw early) m)
]
Stands-expire t i c (inr m) = inr (In-append_left t c.started _ m)

Outstanding-expire :
    {id : ℕ} {f : Callback} {c : Clock} (i : ℕ)
    → Outstanding id f c
    → Outstanding id f (expire_timer i c)
Outstanding-expire {c} i o = record {
  timer = o.timer;
  same_id = o.same_id;
  same_callback = o.same_callback;
  there = Stands-expire o.timer i c o.there;
}

-- A started timer is taken off, or stays.
pub In-take_started :
    (id : ℕ) (t : Timer) (ts : List Timer) (f : Callback) (us : List Timer)
    → take_started id ts ≡ some (f, us)
    → In t ts
    → (t.callback ≡ f) ⊎ In t us
unfolding take_started
In-take_started id t [] f us p m = absurd m
In-take_started id t (x ∷ ts) f us p m = elim (Bool-cases (x.id == id)) [
  | inl q ↦
      let same : ts ≡ us = ground arith in
      elim m [ inl here ↦ inl (ground arith) | inr there ↦ inr (subst (In t) same there) ]
  | inr q ↦ elim (Option-cases (take_started id ts)) [
    | inl nothing ↦ absurd (ground arith)
    | inr ((g, vs), found) ↦
        let same : x ∷ vs ≡ us = ground arith in
        let same_f : g ≡ f = ground arith in
        elim m [
          | inl here ↦ inr (subst (In t) same (inl here))
          | inr there ↦ elim (In-take_started id t ts g vs found there) [
            | inl e ↦ inl (e ∙ same_f)
            | inr i ↦ inr (subst (In t) same (inr i))
          ]
        ]
  ]
]

-- The clock behind a started timer that is taken off.
abbrev pub with_started : List Timer → Clock → Clock
with_started ts c = record c { started = ts }

pub Stands-take_started :
    (t : Timer) (id : ℕ) (c : Clock) (f : Callback) (ts : List Timer)
    → take_started id c.started ≡ some (f, ts)
    → Stands t c
    → (t.callback ≡ f) ⊎ Stands t (with_started ts c)
Stands-take_started t id c f ts q (inl m) = inr (inl m)
Stands-take_started t id c f ts q (inr m) = elim (In-take_started id t c.started f ts q m) [
  | inl same ↦ inl same
  | inr i ↦ inr (inr i)
]

pub perform-IsArmed :
    (cfg : Config) (a : Action) (e : Engine) → IsArmed e → IsArmed (perform cfg a e).0
unfolding perform
perform-IsArmed cfg (arrive ev) e h = ingest-IsArmed cfg ev e h
perform-IsArmed cfg (wait n) e h = record {
  timers = record {
    idle_known = h.timers.idle_known;
    hard_known = h.timers.hard_known;
    apart = h.timers.apart;
    hard_apart = h.timers.hard_apart;
  };
  armed = λ gk p.
      let t : HasHardTimer gk (state_of e gk) e.clock = h.armed gk p in
      record {
        id = t.id;
        is_hard = t.is_hard;
        outstanding = record {
          timer = t.outstanding.timer;
          same_id = t.outstanding.same_id;
          same_callback = t.outstanding.same_callback;
          there = t.outstanding.there;
        };
      };
}
perform-IsArmed cfg (expire id) e h = record {
  timers =
      unfold expire_timer in
      record {
        idle_known = h.timers.idle_known;
        hard_known = h.timers.hard_known;
        apart = h.timers.apart;
        hard_apart = h.timers.hard_apart;
      };
  armed = λ gk p.
      let t : HasHardTimer gk (state_of e gk) e.clock = h.armed gk p in
      record { id = t.id; is_hard = t.is_hard; outstanding = Outstanding-expire id t.outstanding };
}
perform-IsArmed cfg (run id) e h = elim (Option-cases (take_started id e.clock.started)) [
  | inl q ↦ rw (q, run_callback) h
  | inr ((f, ts), q) ↦
      rw (q, run_callback)
        (on_timer_fire-IsArmed cfg f (record e { clock = record e.clock { started = ts } })
          (record {
            idle_known = h.timers.idle_known;
            hard_known = h.timers.hard_known;
            apart = h.timers.apart;
            hard_apart = h.timers.hard_apart;
          })
          (λ gk ne p.
            let t : HasHardTimer gk (state_of e gk) e.clock = h.armed gk p in
            let o = t.outstanding in
            record {
              id = t.id;
              is_hard = t.is_hard;
              outstanding = record {
                timer = o.timer;
                same_id = o.same_id;
                same_callback = o.same_callback;
                there = elim o.there [
                  | inl m ↦ inl m
                  | inr m ↦ elim (In-take_started id o.timer e.clock.started f ts q m) [
                    | inl same ↦ absurd (ne (sym same ∙ o.same_callback))
                    | inr i ↦ inr i
                  ]
                ];
              };
            }))
]

pub perform_all-IsArmed :
    (cfg : Config) (schedule : List Action) (e : Engine)
    → IsArmed e
    → IsArmed (perform_all cfg schedule e).0
unfolding perform_all
perform_all-IsArmed cfg [] e h = h
perform_all-IsArmed cfg (a ∷ rest) e h =
    perform_all-IsArmed cfg rest (perform cfg a e).0 (perform-IsArmed cfg a e h)

-- NewEngine, at any reading of the clock
pub new-IsArmed : (now : ℕ) → IsArmed (new_engine now)
unfolding new_engine get_or lookup
new-IsArmed now = record {
  timers = record {
    idle_known = λ gk i p. cc;
    hard_known = λ gk h p. cc;
    apart = λ gk gk' i h p q. cc;
    hard_apart = λ gk gk' h h' ne p q. cc;
  };
  armed = λ gk p. absurd (p refl);
}

take_batch-result :
    (cfg : Config) (f : Callback) (e : Engine)
    → let r = take_batch cfg f (state_of e f.group_key) e in
      (r.1 ≡ flush cfg f.group_key (state_of e f.group_key).buckets)
      × ((state_of r.0 f.group_key).buckets ≡ [])
unfolding take_batch
take_batch-result cfg f e =
    (refl, ap (λ (g : GroupState). g.buckets) (get_or-insert_self f.group_key new_group _ e.groups))

-- The callback of the group's current generation takes the batch.
pub current_flushes :
    (cfg : Config) (gk : GoString) (e : Engine)
    → (state_of e gk).buckets ≢ []
    → let f : Callback = record { group_key = gk; generation = (state_of e gk).generation } in
      ((on_timer_fire cfg f e).1 ≡ flush cfg gk (state_of e gk).buckets)
      × ((state_of (on_timer_fire cfg f e).0 gk).buckets ≡ [])
current_flushes cfg gk e full =
    let f : Callback = record { group_key = gk; generation = (state_of e gk).generation } in
    elim (on_timer_fire-Fired cfg f e) [
      | idle nil r ↦ absurd (full nil)
      | stale ne r ↦ absurd (ne refl)
      | taken eq r ↦ rw r (take_batch-result cfg f e)
    ]

-- The engine that a schedule leads to, from a new one.
abbrev pub engine_after : Config → ℕ → List Action → Engine
engine_after cfg now schedule = (perform_all cfg schedule (new_engine now)).0

pub engine_after-IsArmed :
    (cfg : Config) (now : ℕ) (schedule : List Action) → IsArmed (engine_after cfg now schedule)
engine_after-IsArmed cfg now schedule =
    perform_all-IsArmed cfg schedule (new_engine now) (new-IsArmed now)

-- After any schedule, a group that holds events has a timer that is still to call back, and the call
-- hands all of these events over, split among their sessions, and leaves the group empty.
pub held_events_flush :
    (cfg : Config) (now : ℕ) (schedule : List Action) (gk : GoString)
    → (state_of (engine_after cfg now schedule) gk).buckets ≢ []
    → (t : Timer) × (In t (engine_after cfg now schedule).clock.pending
        ⊎ In t (engine_after cfg now schedule).clock.started)
      × ((on_timer_fire cfg t.callback (engine_after cfg now schedule)).1
          ≡ flush cfg gk (state_of (engine_after cfg now schedule) gk).buckets)
      × ((state_of (on_timer_fire cfg t.callback (engine_after cfg now schedule)).0 gk).buckets
          ≡ [])
held_events_flush cfg now schedule gk full =
    let e : Engine = engine_after cfg now schedule in
    let h : IsArmed e = engine_after-IsArmed cfg now schedule in
    let o = (h.armed gk full).outstanding in
    let r = current_flushes cfg gk e full in
    (o.timer, o.there, rw o.same_callback r.0, rw o.same_callback r.1)
