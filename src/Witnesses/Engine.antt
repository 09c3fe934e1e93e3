-- ===== src/Witnesses/Engine.antt =====
-- The theorems on `Engine` at a run of it.
use argocd_notifier.Prelude.{◌≡◌, ◌≢◌, refl, false, List, [], ◌∷◌, ◌⊎◌, In}
use argocd_notifier.Text.{str_eq, bytes}
use argocd_notifier.Maps.{lookup, insert, get_or, Distinct, keys}
use argocd_notifier.Aggregator.Keys.{session_key_eq, session_key_beq}
use argocd_notifier.Aggregator.Clock.{Timer, Callback, after_func, stop, stop_if}
use argocd_notifier.Aggregator.Engine.{
  Engine, Buckets, new_engine, on_timer_fire, fire_group, take_batch, is_empty_map, add_event,
  arm_hard, ingest_group, ingest, flush, flush_buckets, flush_bucket, add_to_session, session_key,
}
use argocd_notifier.Aggregator.Engine.Steps.{Action, arrive, wait, perform, perform_all}
use argocd_notifier.Aggregator.Engine.Sessions.{flush_lem, events_of}
use argocd_notifier.Aggregator.Engine.Armed.{state_of}
use argocd_notifier.Aggregator.Engine.Armed.Always.{engine_after, held_events_flush}
use argocd_notifier.Aggregator.Engine.Generations.{flushed_once}
use argocd_notifier.Prelude.Int.{pos, ◌+ℤ◌}
use argocd_notifier.Aggregator.Engine.Generations.{generation_of}
use argocd_notifier.Aggregator.Engine.Deadline.{Due, hard_deadline}
use argocd_notifier.Witnesses.Data.{group, created, deployed, engine_config, session}

abbrev two_arrivals : List Action
two_arrivals = arrive created ∷ wait 3 ∷ arrive deployed ∷ []

abbrev first_callback : Callback
first_callback = record { group_key = group; generation = 0 }

abbrev two_buckets : Buckets
two_buckets =
    (bytes "on-created", created ∷ []) ∷ (bytes "on-deployed", deployed ∷ deployed ∷ []) ∷ []

not_empty : {A : Type 0} (xs : List A) → is_empty_map xs ≡ false → xs ≢ []
unfolding is_empty_map
not_empty [] h p = cc
not_empty (x ∷ xs) h p = cc

buckets_full : (state_of (engine_after engine_config 0 two_arrivals) group).buckets ≢ []
unfolding perform_all perform new_engine ingest ingest_group arm_hard add_event after_func stop_if
    stop get_or lookup insert is_empty_map str_eq
buckets_full = λ p. cc

held_events_flush_example :
    (t : Timer) × (In t (engine_after engine_config 0 two_arrivals).clock.pending
      ⊎ In t (engine_after engine_config 0 two_arrivals).clock.started)
    × ((on_timer_fire engine_config t.callback (engine_after engine_config 0 two_arrivals)).1
        ≡ flush engine_config group
            (state_of (engine_after engine_config 0 two_arrivals) group).buckets)
    × ((state_of
          (on_timer_fire engine_config t.callback (engine_after engine_config 0 two_arrivals)).0
          group).buckets
        ≡ [])
held_events_flush_example = held_events_flush engine_config 0 two_arrivals group buckets_full

batch_out :
    (on_timer_fire engine_config first_callback (engine_after engine_config 0 two_arrivals)).1 ≢ []
unfolding perform_all perform new_engine ingest ingest_group arm_hard add_event after_func stop_if
    stop get_or lookup insert is_empty_map str_eq on_timer_fire fire_group take_batch flush
    flush_buckets flush_bucket add_to_session session_key session_key_beq
batch_out = not_empty _ refl

abbrev flushed_engine : Engine
flushed_engine =
    (perform_all engine_config (arrive created ∷ [])
      (on_timer_fire engine_config first_callback (engine_after engine_config 0 two_arrivals)).0).0

flushed_once_example :
    on_timer_fire engine_config first_callback flushed_engine ≡ (flushed_engine, [])
flushed_once_example =
    flushed_once engine_config first_callback (engine_after engine_config 0 two_arrivals)
      (arrive created ∷ []) batch_out

flush_lem_example :
    Distinct (keys (flush engine_config group two_buckets))
    × (get_or session [] (flush engine_config group two_buckets)
        ≡ events_of engine_config group session two_buckets)
flush_lem_example = flush_lem engine_config group two_buckets session

no_events_yet : (state_of (engine_after engine_config 0 []) group).buckets ≡ []
unfolding perform_all new_engine get_or lookup
no_events_yet = refl

hard_deadline_example :
    Due group
      (generation_of (engine_after engine_config 0 []) group)
      (record {
        id = 0;
        deadline = pos 0 +ℤ engine_config.max_wait;
        callback = record {
          group_key = group;
          generation = generation_of (engine_after engine_config 0 []) group;
        };
      })
      (perform_all engine_config two_arrivals
        (ingest engine_config created (engine_after engine_config 0 []))).0
unfolding perform_all new_engine
hard_deadline_example = hard_deadline engine_config 0 [] created two_arrivals no_events_yet
