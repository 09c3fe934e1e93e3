-- ===== src/Aggregator/Engine/Deadline.antt =====
-- The hard timer of a batch: what comes in later does not put it off.
use argocd_notifier.Prelude.{
  ℕ, ◌<◌, ◌≡◌, ◌≢◌, refl, sym, ap, ◌∙◌, ◌⊎◌, inl, inr, some, List, [], ◌∷◌, arith, ◌==◌, nat_eq,
  Bool-cases, Option-cases, eq_of_==, ne_of_==, subst, true, false,
}
use argocd_notifier.Prelude.Int.{pos, ◌+ℤ◌}
use argocd_notifier.Text.{GoString, text_eq}
use argocd_notifier.Maps.{insert-ne-nil}
use argocd_notifier.Event.{Event}
use argocd_notifier.Aggregator.Clock.{Callback, Timer, Clock, after_func}
use argocd_notifier.Aggregator.Clock.Outstanding.{
  Stands, Stands-after_func, Stands-stop_if, Stands-new, new_timer,
}
use argocd_notifier.Aggregator.Engine.{
  Config, Engine, GroupState, is_empty_map, add_event, ingest, ingest_group, arm_hard, take_batch,
  on_timer_fire,
}
use argocd_notifier.Aggregator.Engine.Steps.{
  Action, arrive, wait, expire, run, perform, perform_all, run_callback, take_started,
}
use argocd_notifier.Aggregator.Engine.Armed.{state_of, IsApart, IsArmed}
use argocd_notifier.Aggregator.Engine.Armed.Ingest.{
  state_of-ingest_self, state_of-ingest_ne, clock-ingest, ingest-IsArmed,
}
use argocd_notifier.Aggregator.Engine.Armed.Fire.{
  idle, stale, taken, on_timer_fire-Fired, state_of-take_batch_ne, clock-take_batch,
}
use argocd_notifier.Aggregator.Engine.Armed.Always.{
  with_started, perform-IsArmed, Stands-expire, Stands-take_started, engine_after,
  engine_after-IsArmed,
}
use argocd_notifier.Aggregator.Engine.Generations.{
  generation_of, generation-take_batch_self, generation-perform_all,
}

-- A group that still gathers its batch of generation `g`, with `t` for its hard timer.
pub record Gathers (g : ℕ) (t : Timer) (gs : GroupState) : Type 0 where
  pub current : gs.generation ≡ g
  pub full : gs.buckets ≢ []
  pub is_hard : gs.hard_timer ≡ some t.id

-- The batch is still to be flushed by `t`, or has been flushed.
pub data Due (gk : GoString) (g : ℕ) (t : Timer) (e : Engine) : Type 0 where
  gathering : Gathers g t (state_of e gk) → Stands t e.clock → Due gk g t e
  flushed : g < generation_of e gk → Due gk g t e

-- `Ingest` in any group leaves a timer that is not the group's idle timer.
Stands-ingest_group :
    (t : Timer) (cfg : Config) (ev : Event) (gs : GroupState) (c : Clock)
    → ((i : ℕ) → gs.idle_timer ≡ some i → i ≢ t.id)
    → Stands t c
    → Stands t (ingest_group cfg ev gs c).1
unfolding ingest_group arm_hard
Stands-ingest_group t cfg ev gs c ne h = elim (Bool-cases (is_empty_map gs.buckets)) [
  | inl p ↦ rw p (
      Stands-after_func t _ cfg.idle_window _
        (Stands-stop_if t gs.idle_timer _ ne (Stands-after_func t c cfg.max_wait _ h)))
  | inr p ↦ rw p (Stands-after_func t _ cfg.idle_window _ (Stands-stop_if t gs.idle_timer c ne h))
]

module _ (cfg : Config) (g : ℕ) (t : Timer) where
  Gathers-ingest_group :
      (ev : Event) (gs : GroupState) (c : Clock)
      → Gathers g t gs
      → Gathers g t (ingest_group cfg ev gs c).0
  unfolding ingest_group arm_hard add_event
  Gathers-ingest_group ev gs c h = record {
    current = h.current;
    full = insert-ne-nil ev.trigger _ gs.buckets;
    is_hard =
        let more : is_empty_map gs.buckets ≡ false =
          unfold is_empty_map in ground (arith, h.full) in
        rw more h.is_hard;
  }

  Gathers-ingest :
      (ev : Event) (e : Engine) (gk : GoString)
      → Gathers g t (state_of e gk)
      → Gathers g t (state_of (ingest cfg ev e) gk)
  Gathers-ingest ev e gk = elim (Bool-cases (ev.group_key == gk)) [
    | inl p ↦
        subst (λ k. Gathers g t (state_of e k) → Gathers g t (state_of (ingest cfg ev e) k))
          (eq_of_== ev.group_key gk p)
          (rw (state_of-ingest_self cfg ev e) (Gathers-ingest_group ev _ e.clock))
    | inr p ↦ rw (state_of-ingest_ne cfg ev e gk (ne_of_== ev.group_key gk p)) (λ h. h)
  ]

  module _ (gk : GoString) (own : t.callback ≡ record { group_key = gk; generation = g }) where
    -- A batch that is taken: the group's own, or another group's.
    take_batch-Due :
        (f : Callback) (e : Engine)
        → IsApart e
        → Gathers g t (state_of e gk)
        → (t.callback ≡ f) ⊎ Stands t e.clock
        → Due gk g t (take_batch cfg f (state_of e f.group_key) e).0
    take_batch-Due f e a h there = elim (Bool-cases (f.group_key == gk)) [
      | inl p ↦
          let e' = eq_of_== f.group_key gk p in
          let cur : generation_of e f.group_key ≡ g =
            subst (λ k. generation_of e k ≡ g) (sym e') h.current in
          flushed (
            subst (λ k. g < generation_of (take_batch cfg f (state_of e f.group_key) e).0 k) e'
              (omega (arith, generation-take_batch_self cfg f e, cur)))
      | inr p ↦
          let ne = ne_of_== f.group_key gk p in
          gathering (rw (state_of-take_batch_ne cfg f (state_of e f.group_key) e gk ne) h) (
            rw (clock-take_batch cfg f (state_of e f.group_key) e) (elim there [
              | inl same ↦ absurd (ne (ap (λ (c : Callback). c.group_key) (sym same ∙ own)))
              | inr s ↦
                  let gs = state_of e f.group_key in
                  Stands-stop_if t gs.hard_timer _
                    (λ i q. a.hard_apart f.group_key gk i t.id ne q h.is_hard)
                    (Stands-stop_if t gs.idle_timer e.clock
                      (λ i q. a.apart f.group_key gk i t.id q h.is_hard) s)
            ]))
    ]

    fire-Due :
        (f : Callback) (e : Engine)
        → IsApart e
        → Gathers g t (state_of e gk)
        → (t.callback ≡ f) ⊎ Stands t e.clock
        → Due gk g t (on_timer_fire cfg f e).0
    fire-Due f e a h there = elim (on_timer_fire-Fired cfg f e) [
      | idle nil r ↦ rw r (elim there [
        | inl same ↦ absurd (
            h.full (
              subst (λ k. (state_of e k).buckets ≡ [])
                (ap (λ (c : Callback). c.group_key) (sym same ∙ own)) nil))
        | inr s ↦ gathering h s
      ])
      | stale ne r ↦ rw r (elim there [
        | inl same ↦
            let q = sym same ∙ own in
            absurd (
              ne (
                ap (λ (c : Callback). (state_of e c.group_key).generation) q
                ∙ h.current
                ∙ sym (ap (λ (c : Callback). c.generation) q)))
        | inr s ↦ gathering h s
      ])
      | taken eq r ↦ rw r (take_batch-Due f e a h there)
    ]

    perform-Due :
        (a : Action) (e : Engine)
        → IsArmed e
        → Gathers g t (state_of e gk)
        → Stands t e.clock
        → Due gk g t (perform cfg a e).0
    unfolding perform
    perform-Due (arrive ev) e armed h s = gathering (Gathers-ingest ev e gk h) (
        rw (clock-ingest cfg ev e) (
          Stands-ingest_group t cfg ev (state_of e ev.group_key) e.clock
            (λ i q. armed.timers.apart ev.group_key gk i t.id q h.is_hard) s))
    perform-Due (wait n) e armed h s = gathering h s
    perform-Due (expire id) e armed h s = gathering h (Stands-expire t id e.clock s)
    perform-Due (run id) e armed h s = elim (Option-cases (take_started id e.clock.started)) [
      | inl q ↦ rw (q, run_callback) (gathering h s)
      | inr ((f, ts), q) ↦
          rw (q, run_callback)
            (fire-Due f (record e { clock = with_started ts e.clock })
              (record {
                idle_known = armed.timers.idle_known;
                hard_known = armed.timers.hard_known;
                apart = armed.timers.apart;
                hard_apart = armed.timers.hard_apart;
              })
              h (Stands-take_started t id e.clock f ts q s))
    ]

    perform_all-Due :
        (schedule : List Action) (e : Engine)
        → IsArmed e
        → Due gk g t e
        → Due gk g t (perform_all cfg schedule e).0
    unfolding perform_all
    perform_all-Due schedule e armed (flushed lt) =
        flushed (omega (arith, lt, generation-perform_all cfg schedule e gk))
    perform_all-Due [] e armed (gathering h s) = gathering h s
    perform_all-Due (a ∷ rest) e armed (gathering h s) =
        perform_all-Due rest (perform cfg a e).0 (perform-IsArmed cfg a e armed)
          (perform-Due a e armed h s)

-- The timer that the first event of a batch arms, and the group's state then.
module _ (cfg : Config) (ev : Event) (gs : GroupState) (c : Clock)
    (none_yet : gs.buckets ≡ []) where
  abbrev first_timer : Timer
  first_timer =
      new_timer c cfg.max_wait (record { group_key = ev.group_key; generation = gs.generation })

  empty_lem : is_empty_map gs.buckets ≡ true
  unfolding is_empty_map
  empty_lem = rw none_yet refl

  first-Gathers : Gathers gs.generation first_timer (ingest_group cfg ev gs c).0
  unfolding ingest_group add_event arm_hard after_func
  first-Gathers = record {
    current = refl;
    full = insert-ne-nil ev.trigger _ gs.buckets;
    is_hard = rw empty_lem refl;
  }

  first-Stands :
      ((i : ℕ) → gs.idle_timer ≡ some i → i ≢ c.next_id)
      → Stands first_timer (ingest_group cfg ev gs c).1
  unfolding ingest_group arm_hard
  first-Stands ne = rw empty_lem (
      Stands-after_func first_timer _ cfg.idle_window _
        (Stands-stop_if first_timer gs.idle_timer _ ne (Stands-new c cfg.max_wait _)))

-- No event puts a batch off past its longest wait. When an event comes in for a group that holds none,
-- at any time, and whatever comes in, expires or runs after it: either that batch has been flushed, or
-- the group still holds it, and its hard timer is pending or started, with the deadline that it got at
-- the first event: the time then and the longest wait.
pub hard_deadline :
    (cfg : Config) (now : ℕ) (before : List Action) (ev : Event) (later : List Action)
    → (state_of (engine_after cfg now before) ev.group_key).buckets ≡ []
    → let e = engine_after cfg now before in
      Due ev.group_key
        (generation_of e ev.group_key)
        (record {
          id = e.clock.next_id;
          deadline = pos e.clock.now +ℤ cfg.max_wait;
          callback = record { group_key = ev.group_key; generation = generation_of e ev.group_key };
        })
        (perform_all cfg later (ingest cfg ev e)).0
hard_deadline cfg now before ev later h =
    let e : Engine = engine_after cfg now before in
    let gs : GroupState = state_of e ev.group_key in
    let armed : IsArmed e = engine_after-IsArmed cfg now before in
    perform_all-Due cfg gs.generation (first_timer cfg ev gs e.clock h) ev.group_key refl later
      (ingest cfg ev e) (ingest-IsArmed cfg ev e armed)
      (gathering (rw (state_of-ingest_self cfg ev e) (first-Gathers cfg ev gs e.clock h)) (
        rw (clock-ingest cfg ev e) (
          first-Stands cfg ev gs e.clock h
            (λ i q. let lt = armed.timers.idle_known ev.group_key i q in omega arith))))
