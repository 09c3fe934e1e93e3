-- ===== src/Aggregator/Session/Threads.antt =====
-- The thread replies that `Upsert` makes for repeated events.
use mathlib.Core.List.{append_assoc, append-nil}
use argocd_notifier.Prelude.{
  ◌≡◌, refl, sym, ap, ◌∙◌, true, false, Option, none, some, List, [], ◌∷◌, ◌++◌, ◌==◌, nat_eq, All,
}
use argocd_notifier.Text.{GoString, text_eq}
use argocd_notifier.Maps.{lookup, insert}
use argocd_notifier.Event.{Event, join_errors}
use argocd_notifier.Aggregator.Keys.{SessionKey, session_key_eq, RefKey, ref_key_eq}
use argocd_notifier.Aggregator.Clock.{Time, is_stale}
use argocd_notifier.Aggregator.Recipients.{split_recipients}
use argocd_notifier.Aggregator.Backends.{Outcome, success, failure, Call, Backend, Resolver}
use argocd_notifier.Aggregator.Session.{
  PublisherConfig, duplicate_action_thread, Publisher, PublishError, MessageRefs, Session, Sent,
  nothing_sent, record_outcome, send_changes, send_replies, store_refs, add_error, reply_note,
  reply_to_ref, reply_to_recipients, reply_threader, reply_backend, reply_all, upsert,
  upsert_events, upsert_begun,
}
use argocd_notifier.Aggregator.Session.Merge.{IsRepeat}
use argocd_notifier.Aggregator.Session.Lifecycle.{begin-repeats}

pub record Reply : Type 0 where
  pub destination : RefKey
  pub ref : GoString
  pub text : GoString

-- A destination without a reference gets no reply.
abbrev pub reply_at : RefKey → GoString → Option GoString → List Reply
reply_at rk text none = []
reply_at rk text (some ref) = record { destination = rk; ref = ref; text = text } ∷ []

abbrev pub replies_of : GoString → MessageRefs → GoString → List GoString → List Reply
replies_of backend refs text [] = []
replies_of backend refs text (r ∷ rs) =
    let rk : RefKey = record { backend = backend; recipient = r } in
    reply_at rk text (lookup rk refs) ++ replies_of backend refs text rs

-- The replies that a list of repeated events asks for.
abbrev pub replies : (Time → GoString) → Time → MessageRefs → List Event → List Reply
replies format_time now refs [] = []
replies format_time now refs (ev ∷ evs) =
    replies_of ev.backend refs (reply_note format_time now ev) (split_recipients ev.recipient)
    ++ replies format_time now refs evs

-- Every backend is a ThreadReplier, and a call notes itself in the log of the world, whatever its outcome.
pub record LogsReplies {W : Type 0} (resolve : Resolver W) (log : W → List Reply) : Type 0 where
  pub backend : GoString → W → Backend W
  pub reply : GoString → GoString → GoString → GoString → Call W (Unit {0})
  pub resolves : (name : GoString) (w : W) → resolve name w ≡ some (backend name w)
  pub replying : (name : GoString) (w : W) → (backend name w).post_thread_reply ≡ some (reply name)
  pub logs :
      (name recipient ref text : GoString) (w : W)
      → log (reply name recipient ref text w).1
        ≡ log w
          ++ record {
            destination = record { backend = name; recipient = recipient };
            ref = ref;
            text = text;
          }
            ∷ []

module _ {W : Type 0} (resolve : Resolver W) (log : W → List Reply)
    (l : LogsReplies resolve log) where
  world-record_outcome :
      (err : GoString → PublishError) (o : Outcome (Unit {0}) × W) (s : Sent W)
      → ((record_outcome err o s).world ≡ o.1) × ((record_outcome err o s).new_refs ≡ s.new_refs)
  unfolding record_outcome add_error
  world-record_outcome err (success x, w) s = (refl, refl)
  world-record_outcome err (failure e, w) s = (refl, refl)

  log-reply_to_ref :
      (name recipient text : GoString) (o : Option GoString) (s : Sent W)
      → let rk : RefKey = record { backend = name; recipient = recipient } in
        log (reply_to_ref rk text o (l.reply name) s).world ≡ log s.world ++ reply_at rk text o
  unfolding reply_to_ref
  log-reply_to_ref name recipient text none s = sym (append-nil (log s.world))
  log-reply_to_ref name recipient text (some ref) s =
      ap log (world-record_outcome _ (l.reply name recipient ref text s.world) s).0
      ∙ l.logs name recipient ref text s.world

  log-reply_to_recipients :
      (name text : GoString) (refs : MessageRefs) (rs : List GoString) (s : Sent W)
      → log (reply_to_recipients name rs text refs (l.reply name) s).world
        ≡ log s.world ++ replies_of name refs text rs
  unfolding reply_to_recipients
  log-reply_to_recipients name text refs [] s = sym (append-nil (log s.world))
  log-reply_to_recipients name text refs (r ∷ rs) s =
      let rk : RefKey = record { backend = name; recipient = r } in
      log-reply_to_recipients name text refs rs _
      ∙ rw (log-reply_to_ref name r text (lookup rk refs) s) (
          append_assoc (log s.world) (reply_at rk text (lookup rk refs))
            (replies_of name refs text rs))

  log-reply_all :
      (format_time : Time → GoString) (now : Time) (refs : MessageRefs) (evs : List Event)
      (s : Sent W)
      → log (reply_all resolve format_time now refs evs s).world
        ≡ log s.world ++ replies format_time now refs evs
  unfolding reply_all reply_backend reply_threader
  log-reply_all format_time now refs [] s = sym (append-nil (log s.world))
  log-reply_all format_time now refs (ev ∷ evs) s =
      let rs = split_recipients ev.recipient in
      let text = reply_note format_time now ev in
      log-reply_all format_time now refs evs _
      ∙ rw
          (
            l.resolves ev.backend s.world,
            l.replying ev.backend s.world,
            log-reply_to_recipients ev.backend text refs rs s,
          )
          (append_assoc (log s.world) (replies_of ev.backend refs text rs)
            (replies format_time now refs evs))

  upsert-repeats :
      (sha256 : GoString → GoString) (format_time : Time → GoString) (cfg : PublisherConfig)
      (now : Time) (key : SessionKey) (ev : Event) (evs : List Event) (p : Publisher) (w : W)
      (s : Session)
      → lookup key p.sessions ≡ some s
      → is_stale now s.state.last_flush cfg.session_ttl ≡ false
      → All (IsRepeat sha256 s.state.per_app) (ev ∷ evs)
      → (cfg.duplicate_action == duplicate_action_thread) ≡ true
      → let done = reply_all resolve format_time now s.state.refs (ev ∷ evs) (nothing_sent w) in
        upsert sha256 format_time resolve cfg now key (ev ∷ evs) (p, w) ≡ (
          join_errors done.errs,
          (
            record p {
              sessions =
                  insert key (record s { state = record s.state { last_flush = now } }) p.sessions;
            },
            done.world,
          ),
        )
  unfolding upsert upsert_events upsert_begun send_changes send_replies store_refs
  upsert-repeats sha256 format_time cfg now key ev evs p w s there fresh again thread =
      ap (upsert_begun sha256 format_time resolve cfg now key w)
        (begin-repeats sha256 cfg now key (ev ∷ evs) p s there fresh again)
      ∙ rw thread refl

  -- A batch that only repeats what a live session knows, where repeats are answered in the thread, makes
  -- exactly one reply for each recipient of each event, in their order, to the reference that the session
  -- has for it, and none where it has no reference, be the replies before it failures or not; and of the
  -- session only the time of its last flush changes.
  pub threaded_repeats :
      (sha256 : GoString → GoString) (format_time : Time → GoString) (cfg : PublisherConfig)
      (now : Time) (key : SessionKey) (ev : Event) (evs : List Event) (p : Publisher) (w : W)
      (s : Session)
      → lookup key p.sessions ≡ some s
      → is_stale now s.state.last_flush cfg.session_ttl ≡ false
      → All (IsRepeat sha256 s.state.per_app) (ev ∷ evs)
      → (cfg.duplicate_action == duplicate_action_thread) ≡ true
      → let done = upsert sha256 format_time resolve cfg now key (ev ∷ evs) (p, w) in
        (log done.1.1 ≡ log w ++ replies format_time now s.state.refs (ev ∷ evs))
        × (done.1.0 ≡ record p {
          sessions =
              insert key (record s { state = record s.state { last_flush = now } }) p.sessions;
        })
  threaded_repeats sha256 format_time cfg now key ev evs p w s there fresh again thread =
      rw (upsert-repeats sha256 format_time cfg now key ev evs p w s there fresh again thread)
        (log-reply_all format_time now s.state.refs (ev ∷ evs) (nothing_sent w), refl)
