-- ===== src/Aggregator/Engine/Drain/Busy.antt =====
-- The groups that hold events, and that a callback leaves one fewer of them or changes nothing.
use argocd_notifier.Prelude.{
  ℕ, ◌<◌, ◌≡◌, ◌≢◌, refl, ◌⊎◌, inl, inr, Bool, true, false, not, ◌||◌, Option, none, some, List, [],
  ◌∷◌, arith, ◌==◌, nat_eq, Bool-cases, Option-cases, subst, if◌then◌else◌, ==-refl, eq_of_==,
}
use argocd_notifier.Text.{GoString, text_eq}
use argocd_notifier.Maps.{
  GoMap, lookup, keys, total, total-insert, weight_of, Distinct, insert-Distinct,
  lookup-none_of_All-ne,
}
use argocd_notifier.Event.{Event}
use argocd_notifier.Aggregator.Clock.{Callback}
use argocd_notifier.Aggregator.Engine.{
  Config, Buckets, Engine, GroupState, is_empty_map, ingest, take_batch, fire_group, on_timer_fire,
}
use argocd_notifier.Aggregator.Engine.Steps.{
  Action, arrive, wait, expire, run, perform, perform_all, run_callback, take_started,
}
use argocd_notifier.Aggregator.Engine.Sessions.{tally_buckets}

-- 1 for a group that holds events
abbrev pub is_busy : GroupState → ℕ
is_busy gs = if is_empty_map gs.buckets then 0 else 1

-- How many groups hold events.
abbrev pub busy : Engine → ℕ
busy e = total is_busy e.groups

busy-fire_group :
    (cfg : Config) (f : Callback) (o : Option GroupState) (e : Engine)
    → lookup f.group_key e.groups ≡ o
    → ((fire_group cfg f o e).0 ≡ e) ⊎ (busy (fire_group cfg f o e).0 < busy e)
unfolding fire_group take_batch is_empty_map
busy-fire_group cfg f none e h = inl refl
busy-fire_group cfg f (some gs) e h =
    elim (Bool-cases (not (gs.generation == f.generation) || is_empty_map gs.buckets)) [
      | inl idle ↦ inl (rw idle refl)
      | inr fresh ↦
          let full : is_empty_map gs.buckets ≡ false = ground arith in
          let weight : weight_of is_busy (lookup f.group_key e.groups) ≡ 1 = rw (h, full) refl in
          inr (rw fresh (omega (arith, weight, total-insert is_busy f.group_key _ e.groups)))
    ]

pub busy-on_timer_fire :
    (cfg : Config) (f : Callback) (e : Engine)
    → ((on_timer_fire cfg f e).0 ≡ e) ⊎ (busy (on_timer_fire cfg f e).0 < busy e)
unfolding on_timer_fire
busy-on_timer_fire cfg f e = busy-fire_group cfg f (lookup f.group_key e.groups) e refl

-- A group that holds events, if there is one.
pub busy_group :
    (m : GoMap GoString GroupState)
    → Distinct (keys m)
    → total is_busy m ≢ 0
    → (gk : GoString) × (gs : GroupState) × (lookup gk m ≡ some gs)
      × (is_empty_map gs.buckets ≡ false)
unfolding total lookup
busy_group [] d h = absurd (h refl)
busy_group ((k, gs) ∷ m) d h = elim (Bool-cases (is_empty_map gs.buckets)) [
  | inr full ↦ (k, gs, rw (==-refl k) refl, full)
  | inl idle ↦
      let (gk, gs', found, full) = busy_group m d.1 (λ z. h (rw idle (omega (arith, z)))) in
      elim (Bool-cases (k == gk)) [
        | inl same ↦
            let nothing : lookup gk m ≡ none =
              subst (λ (j : GoString). lookup j m ≡ none) (eq_of_== k gk same)
                (lookup-none_of_All-ne k m d.0) in
            absurd (ground (arith, found, nothing))
        | inr other ↦ (gk, gs', rw other found, full)
      ]
]

tally-idle : (p : Event → Bool) (b : Buckets) → is_empty_map b ≡ true → tally_buckets p b ≡ 0
unfolding total is_empty_map
tally-idle p [] h = refl
tally-idle p (x ∷ b) h = absurd (ground (arith, h))

-- Where no group holds events, nothing is held.
pub held-idle :
    (p : Event → Bool) (m : GoMap GoString GroupState)
    → total is_busy m ≡ 0
    → total (λ gs. tally_buckets p gs.buckets) m ≡ 0
unfolding total is_empty_map
held-idle p [] h = refl
held-idle p ((k, gs) ∷ m) h = elim (Bool-cases (is_empty_map gs.buckets)) [
  | inl idle ↦
      let left : total is_busy m ≡ 0 = omega (arith, rw idle at h) in
      omega (arith, tally-idle p gs.buckets idle, held-idle p m left)
  | inr full ↦ absurd (omega (arith, rw full at h))
]

pub full-ne : {A : Type 0} (xs : List A) → is_empty_map xs ≡ false → xs ≢ []
unfolding is_empty_map
full-ne [] h = absurd (ground (arith, h))
full-ne (x ∷ xs) h = λ p. cc

fire_group-Distinct :
    (cfg : Config) (f : Callback) (o : Option GroupState) (e : Engine)
    → Distinct (keys e.groups)
    → Distinct (keys (fire_group cfg f o e).0.groups)
unfolding fire_group take_batch
fire_group-Distinct cfg f none e d = d
fire_group-Distinct cfg f (some gs) e d =
    elim (Bool-cases (not (gs.generation == f.generation) || is_empty_map gs.buckets)) [
      | inl idle ↦ rw idle d
      | inr fresh ↦ rw fresh (insert-Distinct f.group_key _ e.groups d)
    ]

module _ (cfg : Config) where
  pub perform-Distinct :
      (a : Action) (e : Engine)
      → Distinct (keys e.groups)
      → Distinct (keys (perform cfg a e).0.groups)
  unfolding perform ingest on_timer_fire
  perform-Distinct (arrive ev) e d = insert-Distinct ev.group_key _ e.groups d
  perform-Distinct (wait n) e d = d
  perform-Distinct (expire id) e d = d
  perform-Distinct (run id) e d = elim (Option-cases (take_started id e.clock.started)) [
    | inl q ↦ rw (q, run_callback) d
    | inr ((f, ts), q) ↦
        let e1 : Engine = record e { clock = record e.clock { started = ts } } in
        rw (q, run_callback) (fire_group-Distinct cfg f (lookup f.group_key e.groups) e1 d)
  ]

  pub perform_all-Distinct :
      (schedule : List Action) (e : Engine)
      → Distinct (keys e.groups)
      → Distinct (keys (perform_all cfg schedule e).0.groups)
  unfolding perform_all
  perform_all-Distinct [] e d = d
  perform_all-Distinct (a ∷ rest) e d =
      perform_all-Distinct rest (perform cfg a e).0 (perform-Distinct a e d)
