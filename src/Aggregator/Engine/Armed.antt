-- ===== src/Aggregator/Engine/Armed.antt =====
-- A group that holds events has a timer that will flush them: the invariant, and the rule for a step
-- that changes one group.
pub mod Ingest
pub mod Fire
pub mod Always
use argocd_notifier.Prelude.{
  ℕ, suc, ◌+◌, ◌<◌, ◌≤◌, ◌≡◌, ◌≢◌, refl, sym, ap, ◌∙◌, ◌⊎◌, inl, inr, Bool, true, false, not, ◌||◌,
  Option, none, some, List, [], ◌∷◌, ◌++◌, arith, keep, In, ◌==◌, nat_eq, Bool-cases, Option-cases,
  if◌then◌else◌, subst, ne_of_==, eq_of_==,
}
use argocd_notifier.Text.{GoString, text_eq, str_eq_iff}
use argocd_notifier.Maps.{lookup, insert, get_or, get_or-insert_self, get_or-insert_ne}
use argocd_notifier.Event.{Event}
use argocd_notifier.Aggregator.Clock.{Callback, Timer, Clock, after_func, stop_if}
use argocd_notifier.Aggregator.Clock.Outstanding.{
  Outstanding, Outstanding-new, Outstanding-after_func, Outstanding-stop_if, next_id-stop_if,
}
use argocd_notifier.Aggregator.Engine.{
  Config, Engine, GroupState, Batch, new_group, is_empty_map, ingest, ingest_group, take_batch,
  fire_group, on_timer_fire, add_event, arm_hard,
}
use argocd_notifier.Aggregator.Engine.Steps.{
  Action, arrive, wait, expire, run, perform, perform_all, run_callback, take_started, expire_timer,
  is_due,
}

-- The state of a group: that of a new one, if the engine does not know it yet.
abbrev pub state_of : Engine → GoString → GroupState
state_of e gk = get_or gk new_group e.groups

-- A group's hard timer is there, and calls back with the group's own generation.
pub record HasHardTimer (gk : GoString) (gs : GroupState) (c : Clock) : Type 0 where
  pub id : ℕ
  pub is_hard : gs.hard_timer ≡ some id
  pub outstanding : Outstanding id (record { group_key = gk; generation = gs.generation }) c

-- No timer has two owners.
pub record IsApart (e : Engine) : Type 0 where
  pub idle_known :
      (gk : GoString) (i : ℕ) → (state_of e gk).idle_timer ≡ some i → i < e.clock.next_id
  pub hard_known :
      (gk : GoString) (h : ℕ) → (state_of e gk).hard_timer ≡ some h → h < e.clock.next_id
  -- no timer is one group's idle timer and some group's hard timer
  pub apart :
      (gk gk' : GoString) (i h : ℕ)
      → (state_of e gk).idle_timer ≡ some i
      → (state_of e gk').hard_timer ≡ some h
      → i ≢ h
  pub hard_apart :
      (gk gk' : GoString) (h h' : ℕ)
      → gk ≢ gk'
      → (state_of e gk).hard_timer ≡ some h
      → (state_of e gk').hard_timer ≡ some h'
      → h ≢ h'

-- Each group that holds events has its hard timer.
pub record IsArmed (e : Engine) : Type 0 where
  pub timers : IsApart e
  pub armed :
      (gk : GoString) → (state_of e gk).buckets ≢ [] → HasHardTimer gk (state_of e gk) e.clock

-- A step that changes the state of one group, and the clock.
module _ (gk0 : GoString) (e e' : Engine) (a : IsApart e)
    (others : (gk : GoString) → gk0 ≢ gk → state_of e' gk ≡ state_of e gk)
    (later : e.clock.next_id ≤ e'.clock.next_id)
    (new_idle : (i : ℕ)
      → (state_of e' gk0).idle_timer ≡ some i
      → (e.clock.next_id ≤ i) × (i < e'.clock.next_id))
    (new_hard : (h : ℕ)
      → (state_of e' gk0).hard_timer ≡ some h
      → ((state_of e gk0).hard_timer ≡ some h) ⊎ ((e.clock.next_id ≤ h) × (h < e'.clock.next_id)))
    (own_apart : (i h : ℕ)
      → (state_of e' gk0).idle_timer ≡ some i
      → (state_of e' gk0).hard_timer ≡ some h
      → i ≢ h) where
  idle_cases :
      (gk : GoString) (i : ℕ)
      → (state_of e' gk).idle_timer ≡ some i
      → ((state_of e gk).idle_timer ≡ some i)
        ⊎ ((gk0 ≡ gk) × (e.clock.next_id ≤ i) × (i < e'.clock.next_id))
  idle_cases gk i p = elim (Bool-cases (gk0 == gk)) [
    | inl q ↦ let w : gk0 ≡ gk = eq_of_== gk0 gk q in ground (arith, new_idle i)
    | inr q ↦ ground (arith, others gk (ne_of_== gk0 gk q))
  ]

  hard_cases :
      (gk : GoString) (h : ℕ)
      → (state_of e' gk).hard_timer ≡ some h
      → ((state_of e gk).hard_timer ≡ some h)
        ⊎ ((gk0 ≡ gk) × (e.clock.next_id ≤ h) × (h < e'.clock.next_id))
  hard_cases gk h p = elim (Bool-cases (gk0 == gk)) [
    | inl q ↦ let w : gk0 ≡ gk = eq_of_== gk0 gk q in ground (arith, new_hard h)
    | inr q ↦ ground (arith, others gk (ne_of_== gk0 gk q))
  ]

  pub update-IsArmed :
      ((state_of e' gk0).buckets ≢ [] → HasHardTimer gk0 (state_of e' gk0) e'.clock)
      → ((gk : GoString)
          → gk0 ≢ gk
          → (state_of e gk).buckets ≢ []
          → HasHardTimer gk (state_of e gk) e'.clock)
      → IsArmed e'
  update-IsArmed own keeps = record {
    timers = record {
      idle_known = λ gk i p. ground (arith, idle_cases gk i, a.idle_known gk i);
      hard_known = λ gk h p. ground (arith, hard_cases gk h, a.hard_known gk h);
      apart = λ gk gk' i h p q. ground (
        arith,
        idle_cases gk i,
        hard_cases gk' h,
        a.idle_known gk i,
        a.hard_known gk' h,
        a.apart gk gk' i h,
        own_apart i h,
      );
      hard_apart = λ gk gk' h h' ne p q. ground (
        arith,
        hard_cases gk h,
        hard_cases gk' h',
        a.hard_known gk h,
        a.hard_known gk' h',
        a.hard_apart gk gk' h h',
      );
    };
    armed = λ gk. elim (Bool-cases (gk0 == gk)) [
      | inl p ↦
          subst (λ k. (state_of e' k).buckets ≢ [] → HasHardTimer k (state_of e' k) e'.clock)
            (eq_of_== gk0 gk p) own
      | inr p ↦ let ne : gk0 ≢ gk = ne_of_== gk0 gk p in rw (others gk ne) (keeps gk ne)
    ];
  }
