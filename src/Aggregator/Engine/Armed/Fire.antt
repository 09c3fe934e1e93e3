-- ===== src/Aggregator/Engine/Armed/Fire.antt =====
-- A callback that flushes a group, and the timers of the others.
use argocd_notifier.Prelude.{
  ◌+◌, ◌≡◌, ◌≢◌, refl, ap, ◌∙◌, inl, inr, true, none, List, [], ◌∷◌, arith, ◌==◌, nat_eq,
  Bool-cases, Option-cases, subst, ne_of_==, eq_of_==,
}
use argocd_notifier.Text.{GoString, text_eq}
use argocd_notifier.Maps.{lookup, get_or, get_or-insert_self, get_or-insert_ne}
use argocd_notifier.Aggregator.Clock.{Callback, stop_if}
use argocd_notifier.Aggregator.Clock.Outstanding.{Outstanding-stop_if, next_id-stop_if}
use argocd_notifier.Aggregator.Engine.{
  Config, Engine, GroupState, Batch, new_group, is_empty_map, take_batch, fire_group, on_timer_fire,
}
use argocd_notifier.Aggregator.Engine.Armed.{
  state_of, HasHardTimer, IsApart, IsArmed, update-IsArmed,
}

pub state_of-take_batch_ne :
    (cfg : Config) (f : Callback) (gs : GroupState) (e : Engine) (gk : GoString)
    → f.group_key ≢ gk
    → state_of (take_batch cfg f gs e).0 gk ≡ state_of e gk
unfolding take_batch
state_of-take_batch_ne cfg f gs e gk ne = get_or-insert_ne f.group_key gk new_group _ e.groups ne

pub state_of-take_batch_self :
    (cfg : Config) (f : Callback) (gs : GroupState) (e : Engine)
    → state_of (take_batch cfg f gs e).0 f.group_key ≡ record {
      buckets = [];
      idle_timer = none;
      hard_timer = none;
      generation = gs.generation + 1;
    }
unfolding take_batch
state_of-take_batch_self cfg f gs e = get_or-insert_self f.group_key new_group _ e.groups

pub clock-take_batch :
    (cfg : Config) (f : Callback) (gs : GroupState) (e : Engine)
    → (take_batch cfg f gs e).0.clock ≡ stop_if gs.hard_timer (stop_if gs.idle_timer e.clock)
unfolding take_batch
clock-take_batch cfg f gs e = refl

take_batch-IsArmed :
    (cfg : Config) (f : Callback) (e : Engine)
    → IsApart e
    → ((gk : GoString)
        → f.group_key ≢ gk
        → (state_of e gk).buckets ≢ []
        → HasHardTimer gk (state_of e gk) e.clock)
    → IsArmed (take_batch cfg f (state_of e f.group_key) e).0
take_batch-IsArmed cfg f e a others =
    let gk = f.group_key in
    let gs = state_of e gk in
    let self = state_of-take_batch_self cfg f gs e in
    let c = stop_if gs.idle_timer e.clock in
    let same_id = next_id-stop_if gs.hard_timer c ∙ next_id-stop_if gs.idle_timer e.clock in
    update-IsArmed gk e (take_batch cfg f gs e).0 a (state_of-take_batch_ne cfg f gs e)
      (rw (clock-take_batch cfg f gs e) (omega (arith, same_id))) (λ i p. cc (self, p))
      (λ h p. cc (self, p)) (λ i h p q. cc (self, p)) (λ p. absurd (p (rw self)))
      (λ gk' ne p.
        let t : HasHardTimer gk' (state_of e gk') e.clock = others gk' ne p in
        rw (clock-take_batch cfg f gs e) (record {
          id = t.id;
          is_hard = t.is_hard;
          outstanding =
              Outstanding-stop_if gs.hard_timer (λ h q. a.hard_apart gk gk' h t.id ne q t.is_hard)
                (Outstanding-stop_if gs.idle_timer (λ i q. a.apart gk gk' i t.id q t.is_hard)
                  t.outstanding);
        }))

is_empty_map-eq-nil : {A : Type 0} (xs : List A) → is_empty_map xs ≡ true → xs ≡ []
unfolding is_empty_map
is_empty_map-eq-nil [] h = refl
is_empty_map-eq-nil (x ∷ xs) h = ground arith

-- What a callback finds: its group is unknown or empty, or a later batch's, and nothing happens; or
-- it takes the batch.
pub data Fired (cfg : Config) (f : Callback) (e : Engine) (r : Engine × List Batch) : Type 0 where
  idle : (state_of e f.group_key).buckets ≡ [] → r ≡ (e, []) → Fired cfg f e r
  stale : (state_of e f.group_key).generation ≢ f.generation → r ≡ (e, []) → Fired cfg f e r
  taken :
      (state_of e f.group_key).generation ≡ f.generation
      → r ≡ take_batch cfg f (state_of e f.group_key) e
      → Fired cfg f e r

-- A callback that finds its group empty, or of another generation than its own, changes nothing. One
-- that finds a batch of its own generation takes it.
pub on_timer_fire-Fired :
    (cfg : Config) (f : Callback) (e : Engine) → Fired cfg f e (on_timer_fire cfg f e)
unfolding on_timer_fire fire_group get_or
on_timer_fire-Fired cfg f e = elim (Option-cases (lookup f.group_key e.groups)) [
  | inl p ↦ idle (rw (p, get_or)) (rw p)
  | inr (gs, p) ↦ elim (Bool-cases (gs.generation == f.generation)) [
    | inr ne ↦ stale (rw (p, get_or) (ne_of_== gs.generation f.generation ne)) (rw (p, ne))
    | inl eq ↦ elim (Bool-cases (is_empty_map gs.buckets)) [
      | inl nil ↦ idle (rw (p, get_or) (is_empty_map-eq-nil gs.buckets nil)) (rw (p, eq, nil))
      | inr full ↦
          taken (rw (p, get_or) (eq_of_== gs.generation f.generation eq)) (rw (p, get_or, eq, full))
    ]
  ]
]

-- A callback that runs leaves every group armed, if all were but for that callback itself.
pub on_timer_fire-IsArmed :
    (cfg : Config) (f : Callback) (e : Engine)
    → IsApart e
    → ((gk : GoString)
        → f ≢ record { group_key = gk; generation = (state_of e gk).generation }
        → (state_of e gk).buckets ≢ []
        → HasHardTimer gk (state_of e gk) e.clock)
    → IsArmed (on_timer_fire cfg f e).0
on_timer_fire-IsArmed cfg f e a others = elim (on_timer_fire-Fired cfg f e) [
  | idle nil r ↦ rw r (record {
    timers = a;
    armed = λ gk p.
        others gk
          (λ q.
            p (subst (λ k. (state_of e k).buckets ≡ []) (ap (λ (g : Callback). g.group_key) q) nil))
          p;
  })
  | stale ne r ↦ rw r (record {
    timers = a;
    armed = λ gk p.
        others gk
          (λ q.
            ne (cc (ap (λ (g : Callback). g.group_key) q, ap (λ (g : Callback). g.generation) q)))
          p;
  })
  | taken eq r ↦ rw r (
      take_batch-IsArmed cfg f e a
        (λ gk ne p. others gk (λ q. ne (ap (λ (g : Callback). g.group_key) q)) p))
]
