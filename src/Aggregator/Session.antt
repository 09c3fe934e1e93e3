-- ===== src/Aggregator/Session.antt =====
-- internal/aggregator/session.go: `SessionPublisher.Upsert`. It holds its lock twice: `begin` is the
-- first critical section, `store_refs` the second; between them other calls may run.
mod State
mod Sending
mod Replies
pub mod Merge
pub mod WellFormed
pub mod Refs
pub mod Errors
pub mod Calls
pub mod Lifecycle
pub mod Threads
pub mod Steps
pub mod Interleave
unfoldable pub use State.*
unfoldable pub use Sending.*
unfoldable pub use Replies.*
use argocd_notifier.Prelude.{
  ℕ, suc, Bool, true, false, not, Option, none, some, List, [], ◌∷◌, ◌++◌, ◌==◌, nat_eq,
  if◌then◌else◌,
}
use argocd_notifier.Text.{GoString, text_eq}
use argocd_notifier.Maps.{lookup, insert, copy}
use argocd_notifier.Event.{Event, join_errors}
use argocd_notifier.Aggregator.Keys.{SessionKey, session_key_eq, ref_key_eq}
use argocd_notifier.Aggregator.Clock.{Time, Duration, is_stale}
use argocd_notifier.Aggregator.Content.{same_hash}
use argocd_notifier.Aggregator.Recipients.{group_apps}
use argocd_notifier.Aggregator.Backends.{Resolver}

-- `none` for a session that is not there or has expired.
unfoldable pub live_session : Duration → Time → Option Session → Option Session
live_session ttl now none = none
live_session ttl now (some s) = if is_stale now s.state.last_flush ttl then none else some s

unfoldable pub open_session : Time → Option Session → Publisher → Session × Publisher
open_session now none p = (
  record { address = p.next_address; state = record { per_app = []; refs = []; last_flush = now } },
  record p { next_address = suc p.next_address },
)
open_session now (some s) p = (s, p)

module _ (sha256 : GoString → GoString) where
  unfoldable pub is_duplicate : Option Event → Event → Bool
  is_duplicate none ev = false
  is_duplicate (some prior) ev = same_hash sha256 prior ev

  unfoldable pub merge_one : Merged → Event → Merged
  merge_one m ev =
      if is_duplicate (lookup ev.app_name m.per_app) ev
      then record m { duplicates = m.duplicates ++ ev ∷ [] }
      else record m { per_app = insert ev.app_name ev m.per_app; changed = true }

  unfoldable pub merge : Merged → List Event → Merged
  unfolding merge_one is_duplicate
  merge m [] = m
  merge m (ev ∷ evs) = merge (merge_one m ev) evs

  unfoldable pub begin :
      PublisherConfig → Time → SessionKey → List Event → Publisher → Begun × Publisher
  unfolding open_session live_session merge
  begin cfg now key events p =
      let (s, p') = open_session now (live_session cfg.session_ttl now (lookup key p.sessions)) p in
      let m =
        merge (record { per_app = s.state.per_app; duplicates = []; changed = false }) events in
      (
        record {
          address = s.address;
          per_app = m.per_app;
          refs = s.state.refs;
          duplicates = m.duplicates;
          changed = m.changed;
        },
        record p' {
          sessions =
              insert key
                (record {
                  address = s.address;
                  state = record { per_app = m.per_app; refs = s.state.refs; last_flush = now };
                })
                p.sessions;
        },
      )

-- `maps.Copy(cur.refs, newRefs)`, if the session is still the one that `begin` saw
unfoldable pub update_refs : Option Session → SessionKey → ℕ → MessageRefs → Publisher → Publisher
update_refs none key address new_refs p = p
update_refs (some cur) key address new_refs p =
    if cur.address == address
    then record p {
      sessions =
          insert key
            (record cur { state = record cur.state { refs = copy cur.state.refs new_refs } })
            p.sessions;
    }
    else p

-- The second critical section. It is entered only if a reference came back.
unfoldable pub store_refs : SessionKey → ℕ → MessageRefs → Publisher → Publisher
unfolding update_refs
store_refs key address [] p = p
store_refs key address (r ∷ rs) p = update_refs (lookup key p.sessions) key address (r ∷ rs) p

module _ {W : Type 0} where
  abbrev pub nothing_sent : W → Sent W
  nothing_sent w = record { world = w; new_refs = []; errs = [] }

  -- The calls to backends, between the critical sections and behind them.
  unfoldable pub send_changes : Resolver W → Begun → Sent W → Sent W
  unfolding send_groups
  send_changes resolve b s =
      if b.changed then send_groups resolve b.refs (group_apps b.per_app) s else s

  unfoldable pub send_replies :
      PublisherConfig → Resolver W → (Time → GoString) → Time → Begun → Sent W → Sent W
  unfolding reply_all
  send_replies cfg resolve format_time now b s =
      if cfg.duplicate_action == duplicate_action_thread
      then reply_all resolve format_time now b.refs b.duplicates s
      else s

-- A call of `Upsert` that no other call of it interrupts.
module _ {W : Type 0} (sha256 : GoString → GoString) (format_time : Time → GoString)
    (resolve : Resolver W) where
  -- What is left of the call when the lock is released.
  unfoldable pub upsert_begun :
      PublisherConfig
      → Time
      → SessionKey
      → W
      → Begun × Publisher
      → Option (List PublishError) × (Publisher × W)
  unfolding send_changes store_refs send_replies join_errors
  upsert_begun cfg now key w (b, p) =
      let sent = send_changes resolve b (nothing_sent w) in
      let p' = store_refs key b.address sent.new_refs p in
      let done = send_replies cfg resolve format_time now b sent in
      (join_errors done.errs, (p', done.world))

  unfoldable pub upsert_events :
      PublisherConfig
      → Time
      → SessionKey
      → List Event
      → Publisher × W
      → Option (List PublishError) × (Publisher × W)
  unfolding begin upsert_begun
  upsert_events cfg now key events (p, w) =
      upsert_begun cfg now key w (begin sha256 cfg now key events p)

  unfoldable pub upsert :
      PublisherConfig
      → Time
      → SessionKey
      → List Event
      → Publisher × W
      → Option (List PublishError) × (Publisher × W)
  unfolding upsert_events
  upsert cfg now key [] s = (none, s)
  upsert cfg now key (ev ∷ evs) s = upsert_events cfg now key (ev ∷ evs) s
