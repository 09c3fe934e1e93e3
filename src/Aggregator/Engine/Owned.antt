-- ===== src/Aggregator/Engine/Owned.antt =====
-- The events of a group's buckets, and of the batches that go to `Upsert`, belong where they are.
use argocd_notifier.Prelude.{
  ◌≡◌, ◌≢◌, refl, not, ◌||◌, Option, none, some, List, [], ◌∷◌, ◌++◌, ◌==◌, nat_eq, All, All-append,
  Bool-cases, Option-cases, inl, inr,
}
use argocd_notifier.Text.{GoString, text_eq}
use argocd_notifier.Maps.{lookup, get_or, All-insert-entry, All-lookup, All-get_or}
use argocd_notifier.Event.{Event}
use argocd_notifier.Aggregator.Keys.{SessionKey, session_key_eq}
use argocd_notifier.Aggregator.Clock.{Callback}
use argocd_notifier.Aggregator.Engine.{
  Config, Buckets, GroupState, Engine, Batch, new_group, is_empty_map, add_event, ingest,
  ingest_group, session_key, add_to_session, flush_bucket, flush_buckets, flush, take_batch,
  fire_group, on_timer_fire,
}
use argocd_notifier.Aggregator.Engine.Steps.{
  Action, arrive, wait, expire, run, perform, run_callback, take_started,
}

-- Events of a group.
abbrev pub AllOfGroup : GoString → List Event → Type 0
AllOfGroup gk evs = All (λ ev. ev.group_key ≡ gk) evs

abbrev pub BucketsOfGroup : GoString → Buckets → Type 0
BucketsOfGroup gk b = All (λ x. AllOfGroup gk x.1) b

-- Each group holds events of its own only.
abbrev pub IsOwned : Engine → Type 0
IsOwned e = All (λ x. BucketsOfGroup x.0 x.1.buckets) e.groups

-- The events of a batch have the group and the revision of its session.
abbrev pub OwnEvents : Batch → Type 0
OwnEvents b = All (λ ev. (ev.group_key ≡ b.0.group_key) × (ev.revision ≡ b.0.revision)) b.1

abbrev pub IsFull : Batch → Type 0
IsFull b = b.1 ≢ []

-- Batches that each hold events, of their own session only.
abbrev pub IsOwnBatches : List Batch → Type 0
IsOwnBatches out = All OwnEvents out × All IsFull out

append-ne-nil : {A : Type 0} (xs : List A) (y : A) → xs ++ y ∷ [] ≢ []
append-ne-nil [] y = λ p. cc
append-ne-nil (x ∷ xs) y = λ p. cc

module _ (cfg : Config) (gk : GoString) where
  flush_bucket-IsOwnBatches :
      (trigger : GoString) (evs : List Event) (s : List Batch)
      → AllOfGroup gk evs
      → IsOwnBatches s
      → IsOwnBatches (flush_bucket cfg gk trigger evs s)
  unfolding flush_bucket add_to_session session_key
  flush_bucket-IsOwnBatches trigger [] s g h = h
  flush_bucket-IsOwnBatches trigger (ev ∷ evs) s g h =
      let key : SessionKey = session_key cfg gk trigger ev in
      let old : List Event = get_or key [] s in
      flush_bucket-IsOwnBatches trigger evs (add_to_session key ev s) g.1 (
        All-insert-entry OwnEvents key (old ++ ev ∷ []) s h.0
            (All-append _ old (ev ∷ []) (All-get_or OwnEvents key [] s h.0 tt) ((g.0, refl), tt)),
        All-insert-entry IsFull key (old ++ ev ∷ []) s h.1 (append-ne-nil old ev),
      )

  flush_buckets-IsOwnBatches :
      (b : Buckets) (s : List Batch)
      → BucketsOfGroup gk b
      → IsOwnBatches s
      → IsOwnBatches (flush_buckets cfg gk b s)
  unfolding flush_buckets
  flush_buckets-IsOwnBatches [] s g h = h
  flush_buckets-IsOwnBatches ((trigger, evs) ∷ rest) s g h =
      flush_buckets-IsOwnBatches rest (flush_bucket cfg gk trigger evs s) g.1
        (flush_bucket-IsOwnBatches trigger evs s g.0 h)

add_event-BucketsOfGroup :
    (ev : Event) (b : Buckets)
    → BucketsOfGroup ev.group_key b
    → BucketsOfGroup ev.group_key (add_event ev.trigger ev b)
unfolding add_event
add_event-BucketsOfGroup ev b h =
    let P = λ (x : GoString × List Event). AllOfGroup ev.group_key x.1 in
    All-insert-entry P ev.trigger _ b h (
      All-append _ (get_or ev.trigger [] b) (ev ∷ []) (All-get_or P ev.trigger [] b h tt)
        (refl, tt))

abbrev OwnState : GoString × GroupState → Type 0
OwnState x = BucketsOfGroup x.0 x.1.buckets

pub ingest-IsOwned :
    (cfg : Config) (ev : Event) (e : Engine) → IsOwned e → IsOwned (ingest cfg ev e)
unfolding ingest ingest_group
ingest-IsOwned cfg ev e h =
    let gs : GroupState = get_or ev.group_key new_group e.groups in
    All-insert-entry OwnState ev.group_key _ e.groups h (
      add_event-BucketsOfGroup ev gs.buckets
        (All-get_or OwnState ev.group_key new_group e.groups h tt))

fire_group-IsOwned :
    (cfg : Config) (f : Callback) (o : Option GroupState) (e : Engine)
    → lookup f.group_key e.groups ≡ o
    → IsOwned e
    → IsOwned (fire_group cfg f o e).0 × IsOwnBatches (fire_group cfg f o e).1
unfolding fire_group take_batch flush
fire_group-IsOwned cfg f none e q h = (h, (tt, tt))
fire_group-IsOwned cfg f (some gs) e q h =
    elim (Bool-cases (not (gs.generation == f.generation) || is_empty_map gs.buckets)) [
      | inl stale ↦ rw stale (h, (tt, tt))
      | inr fresh ↦ rw fresh (
        All-insert-entry OwnState f.group_key _ e.groups h tt,
        flush_buckets-IsOwnBatches cfg f.group_key gs.buckets []
            (All-lookup OwnState f.group_key gs e.groups h q) (tt, tt),
      )
    ]

-- In every step each group keeps events of its own only, and what is handed over are batches that hold
-- events of their own session only.
pub perform-IsOwned :
    (cfg : Config) (a : Action) (e : Engine)
    → IsOwned e
    → IsOwned (perform cfg a e).0 × IsOwnBatches (perform cfg a e).1
unfolding perform on_timer_fire
perform-IsOwned cfg (arrive ev) e h = (ingest-IsOwned cfg ev e h, (tt, tt))
perform-IsOwned cfg (wait n) e h = (h, (tt, tt))
perform-IsOwned cfg (expire id) e h = (h, (tt, tt))
perform-IsOwned cfg (run id) e h = elim (Option-cases (take_started id e.clock.started)) [
  | inl q ↦ rw (q, run_callback) (h, (tt, tt))
  | inr ((f, ts), q) ↦
      rw (q, run_callback)
        (fire_group-IsOwned cfg f (lookup f.group_key e.groups)
          (record e { clock = record e.clock { started = ts } }) refl h)
]
