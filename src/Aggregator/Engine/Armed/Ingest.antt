-- ===== src/Aggregator/Engine/Armed/Ingest.antt =====
-- `Ingest`, the timers of its group, and those of the others.
use argocd_notifier.Prelude.{
  ℕ, ◌<◌, ◌≤◌, ◌≡◌, ◌≢◌, refl, ◌⊎◌, inl, inr, some, [], arith, nat_eq, Bool-cases,
}
use argocd_notifier.Text.{GoString, text_eq}
use argocd_notifier.Maps.{get_or-insert_self, get_or-insert_ne}
use argocd_notifier.Event.{Event}
use argocd_notifier.Aggregator.Clock.{Callback, Clock, after_func, stop_if}
use argocd_notifier.Aggregator.Clock.Outstanding.{
  Outstanding, Outstanding-new, Outstanding-after_func, Outstanding-stop_if,
}
use argocd_notifier.Aggregator.Engine.{
  Config, Engine, GroupState, new_group, is_empty_map, ingest, ingest_group,
}
use argocd_notifier.Aggregator.Engine.Armed.{state_of, HasHardTimer, IsArmed, update-IsArmed}

pub state_of-ingest_ne :
    (cfg : Config) (ev : Event) (e : Engine) (gk : GoString)
    → ev.group_key ≢ gk
    → state_of (ingest cfg ev e) gk ≡ state_of e gk
unfolding ingest
state_of-ingest_ne cfg ev e gk ne = get_or-insert_ne ev.group_key gk new_group _ e.groups ne

pub state_of-ingest_self :
    (cfg : Config) (ev : Event) (e : Engine)
    → state_of (ingest cfg ev e) ev.group_key
      ≡ (ingest_group cfg ev (state_of e ev.group_key) e.clock).0
unfolding ingest
state_of-ingest_self cfg ev e = get_or-insert_self ev.group_key new_group _ e.groups

pub clock-ingest :
    (cfg : Config) (ev : Event) (e : Engine)
    → (ingest cfg ev e).clock ≡ (ingest_group cfg ev (state_of e ev.group_key) e.clock).1
unfolding ingest
clock-ingest cfg ev e = refl

-- What `Ingest` does to the timers of its group, and to the timers of others.
module _ (cfg : Config) (ev : Event) (gs : GroupState) (c : Clock) where
  next_id-ingest_group : c.next_id < (ingest_group cfg ev gs c).1.next_id
  unfolding ingest_group after_func stop_if
  next_id-ingest_group = ground arith

  idle-ingest_group :
      (i : ℕ)
      → (ingest_group cfg ev gs c).0.idle_timer ≡ some i
      → (c.next_id ≤ i) × (i < (ingest_group cfg ev gs c).1.next_id)
  unfolding ingest_group after_func stop_if
  idle-ingest_group i h = ground arith

  -- the hard timer is the old one, or is new and older than the idle timer
  hard-ingest_group :
      (h : ℕ)
      → (ingest_group cfg ev gs c).0.hard_timer ≡ some h
      → (gs.hard_timer ≡ some h)
        ⊎ ((h ≡ c.next_id) × ((ingest_group cfg ev gs c).0.idle_timer ≢ some h))
  unfolding ingest_group after_func stop_if
  hard-ingest_group h p = ground arith

  -- a timer that is not the group's idle timer stays
  Outstanding-ingest_group :
      {id : ℕ} {f : Callback}
      → ((i : ℕ) → gs.idle_timer ≡ some i → i ≢ id)
      → Outstanding id f c
      → Outstanding id f (ingest_group cfg ev gs c).1
  unfolding ingest_group
  Outstanding-ingest_group {id} {f} ne o = elim (Bool-cases (is_empty_map gs.buckets)) [
    | inl p ↦ rw p (
        Outstanding-after_func cfg.idle_window _
          (Outstanding-stop_if gs.idle_timer ne (Outstanding-after_func cfg.max_wait _ o)))
    | inr p ↦
        rw p (Outstanding-after_func cfg.idle_window _ (Outstanding-stop_if gs.idle_timer ne o))
  ]

  HasHardTimer-ingest_group :
      ((i h : ℕ) → gs.idle_timer ≡ some i → gs.hard_timer ≡ some h → i ≢ h)
      → ((i : ℕ) → gs.idle_timer ≡ some i → i < c.next_id)
      → (gs.buckets ≢ [] → HasHardTimer ev.group_key gs c)
      → HasHardTimer ev.group_key (ingest_group cfg ev gs c).0 (ingest_group cfg ev gs c).1
  unfolding ingest_group
  HasHardTimer-ingest_group apart known old = elim (Bool-cases (is_empty_map gs.buckets)) [
    | inl p ↦ rw p (record {
      id = c.next_id;
      is_hard = unfold after_func in refl;
      outstanding = Outstanding-after_func cfg.idle_window _ (
          Outstanding-stop_if gs.idle_timer (λ i q. let lt = known i q in omega arith)
            (Outstanding-new c cfg.max_wait _));
    })
    | inr p ↦
        let t : HasHardTimer ev.group_key gs c = old (λ q. unfold is_empty_map in ground arith) in
        rw p (record {
          id = t.id;
          is_hard = t.is_hard;
          outstanding =
              Outstanding-after_func cfg.idle_window _
                (Outstanding-stop_if gs.idle_timer (λ i q. apart i t.id q t.is_hard) t.outstanding);
        })
  ]

pub ingest-IsArmed :
    (cfg : Config) (ev : Event) (e : Engine) → IsArmed e → IsArmed (ingest cfg ev e)
ingest-IsArmed cfg ev e armed =
    let a = armed.timers in
    let gk = ev.group_key in
    let gs = state_of e gk in
    let self = state_of-ingest_self cfg ev e in
    update-IsArmed gk e (ingest cfg ev e) a (state_of-ingest_ne cfg ev e)
      (rw (clock-ingest cfg ev e) (omega (arith, next_id-ingest_group cfg ev gs e.clock)))
      (rw (self, clock-ingest cfg ev e) (idle-ingest_group cfg ev gs e.clock))
      (rw (self, clock-ingest cfg ev e)
        (λ h p.
          ground
            (arith, hard-ingest_group cfg ev gs e.clock h, next_id-ingest_group cfg ev gs e.clock)))
      (rw self (λ i h p q. ground (
        arith,
        hard-ingest_group cfg ev gs e.clock h,
        idle-ingest_group cfg ev gs e.clock i,
        a.hard_known gk h,
      )))
      (rw (self, clock-ingest cfg ev e)
        (λ _.
          HasHardTimer-ingest_group cfg ev gs e.clock (a.apart gk gk) (a.idle_known gk)
            (armed.armed gk)))
      (λ gk' ne p.
        let t : HasHardTimer gk' (state_of e gk') e.clock = armed.armed gk' p in
        rw (clock-ingest cfg ev e) (record {
          id = t.id;
          is_hard = t.is_hard;
          outstanding =
              Outstanding-ingest_group cfg ev gs e.clock (λ i q. a.apart gk gk' i t.id q t.is_hard)
                t.outstanding;
        }))
