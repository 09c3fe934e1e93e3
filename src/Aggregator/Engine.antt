-- ===== src/Aggregator/Engine.antt =====
-- internal/aggregator/engine.go. An operation returns the new engine; `on_timer_fire` also returns
-- the calls of `Publisher.Upsert` in their order. (Their errors are logged and go no further.)
pub mod Sessions
pub mod Steps
pub mod Conservation
pub mod Armed
pub mod Generations
pub mod Owned
pub mod Deadline
pub mod Drain
use argocd_notifier.Prelude.{
  ℕ, ◌+◌, Bool, true, false, ◌||◌, not, Option, none, some, List, [], ◌∷◌, ◌++◌, ◌==◌, nat_eq,
  if◌then◌else◌,
}
use argocd_notifier.Text.{GoString, text_eq}
use argocd_notifier.Maps.{GoMap, lookup, insert, get_or}
use argocd_notifier.Event.{Event}
use argocd_notifier.Aggregator.Keys.{SessionKey, session_key_eq}
use argocd_notifier.Aggregator.Clock.{Time, Duration, Callback, Clock, after_func, stop_if}

pub record Config : Type 0 where
  pub idle_window : Duration
  pub max_wait : Duration
  pub combine_triggers : Bool

abbrev pub Buckets : Type 0
Buckets = GoMap GoString (List Event)

pub record GroupState : Type 0 where
  pub buckets : Buckets
  pub idle_timer : Option ℕ
  pub hard_timer : Option ℕ
  pub generation : ℕ

pub record Engine : Type 0 where
  pub groups : GoMap GoString GroupState
  pub clock : Clock

abbrev pub new_group : GroupState
new_group = record { buckets = []; idle_timer = none; hard_timer = none; generation = 0 }

-- NewEngine, where the clock reads `now` and no timer runs
unfoldable pub new_engine : Time → Engine
new_engine now = record {
  groups = [];
  clock = record { now = now; next_id = 0; pending = []; started = [] };
}

-- len(m) == 0
unfoldable pub is_empty_map {ℓ} : {A : Type ℓ} → List A → Bool
is_empty_map [] = true
is_empty_map (x ∷ xs) = false

unfoldable pub add_event : GoString → Event → Buckets → Buckets
add_event trigger ev buckets = insert trigger (get_or trigger [] buckets ++ ev ∷ []) buckets

-- `if freshBatch { gs.hardTimer = … }`: the timer that the group has then, and the clock
unfoldable pub arm_hard : Config → Bool → Callback → GroupState → Clock → Option ℕ × Clock
arm_hard cfg true f gs c = let (id, c') = after_func c cfg.max_wait f in (some id, c')
arm_hard cfg false f gs c = (gs.hard_timer, c)

-- The body of `Ingest` at the state of the event's group.
unfoldable pub ingest_group : Config → Event → GroupState → Clock → GroupState × Clock
unfolding arm_hard
ingest_group cfg ev gs clock =
    let fresh_batch = is_empty_map gs.buckets in
    let f : Callback = record { group_key = ev.group_key; generation = gs.generation } in
    let (hard, c) = arm_hard cfg fresh_batch f gs clock in
    let (idle, c') = after_func (stop_if gs.idle_timer c) cfg.idle_window f in
    (
      record {
        buckets = add_event ev.trigger ev gs.buckets;
        idle_timer = some idle;
        hard_timer = hard;
        generation = gs.generation;
      },
      c',
    )

unfoldable pub ingest : Config → Event → Engine → Engine
unfolding ingest_group
ingest cfg ev e =
    let (gs, c) = ingest_group cfg ev (get_or ev.group_key new_group e.groups) e.clock in
    record { groups = insert ev.group_key gs e.groups; clock = c }

abbrev pub Batch : Type 0
Batch = SessionKey × List Event

-- The key of the session that takes an event out of the bucket of `trigger`.
unfoldable pub session_key : Config → GoString → GoString → Event → SessionKey
session_key cfg group_key trigger ev = record {
  group_key = group_key;
  revision = ev.revision;
  trigger = if cfg.combine_triggers then [] else trigger;
}

-- sessioned[key] = append(sessioned[key], ev)
unfoldable pub add_to_session : SessionKey → Event → List Batch → List Batch
add_to_session key ev sessioned = insert key (get_or key [] sessioned ++ ev ∷ []) sessioned

unfoldable pub flush_bucket : Config → GoString → GoString → List Event → List Batch → List Batch
unfolding add_to_session session_key
flush_bucket cfg gk trigger [] sessioned = sessioned
flush_bucket cfg gk trigger (ev ∷ evs) sessioned =
    flush_bucket cfg gk trigger evs (add_to_session (session_key cfg gk trigger ev) ev sessioned)

unfoldable pub flush_buckets : Config → GoString → Buckets → List Batch → List Batch
unfolding flush_bucket
flush_buckets cfg gk [] sessioned = sessioned
flush_buckets cfg gk ((trigger, evs) ∷ rest) sessioned =
    flush_buckets cfg gk rest (flush_bucket cfg gk trigger evs sessioned)

-- The batches, each of which goes to `Upsert`.
unfoldable pub flush : Config → GoString → Buckets → List Batch
unfolding flush_buckets
flush cfg gk buckets = flush_buckets cfg gk buckets []

unfoldable pub take_batch : Config → Callback → GroupState → Engine → Engine × List Batch
take_batch cfg f gs e = (
  record {
    groups =
        insert f.group_key
          (record {
            buckets = [];
            idle_timer = none;
            hard_timer = none;
            generation = gs.generation + 1;
          })
          e.groups;
    clock = stop_if gs.hard_timer (stop_if gs.idle_timer e.clock);
  },
  flush cfg f.group_key gs.buckets,
)

unfoldable pub fire_group : Config → Callback → Option GroupState → Engine → Engine × List Batch
unfolding take_batch
fire_group cfg f none e = (e, [])
fire_group cfg f (some gs) e =
    if not (gs.generation == f.generation) || is_empty_map gs.buckets
    then (e, [])
    else take_batch cfg f gs e

unfoldable pub on_timer_fire : Config → Callback → Engine → Engine × List Batch
unfolding fire_group
on_timer_fire cfg f e = fire_group cfg f (lookup f.group_key e.groups) e
