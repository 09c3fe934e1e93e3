-- ===== src/Aggregator/Session/Lifecycle.antt =====
-- The life of a session over several flushes.
use argocd_notifier.Prelude.{
  ℕ, ◌≡◌, ◌≢◌, refl, ap, ◌∙◌, true, false, Option, none, some, List, [], ◌∷◌, arith, ◌==◌, ==-refl,
  nat_eq, nat_beq_iff, All,
}
use argocd_notifier.Text.{GoString, text_eq}
use argocd_notifier.Maps.{
  lookup, insert, get_or, get_or-some, keys, copy, Distinct, lookup-insert_self, lookup-copy,
}
use argocd_notifier.Event.{Event, join_errors}
use argocd_notifier.Aggregator.Keys.{SessionKey, session_key_eq, RefKey, ref_key_eq}
use argocd_notifier.Aggregator.Clock.{Time, Duration, is_stale}
use argocd_notifier.Aggregator.Backends.{Resolver}
use argocd_notifier.Aggregator.Session.{
  PublisherConfig, MessageRefs, Session, Publisher, Begun, live_session, open_session, merge, begin,
  update_refs, store_refs, send_changes, send_replies, upsert, upsert_events, upsert_begun,
  duplicate_action_thread,
}
use argocd_notifier.Aggregator.Session.Merge.{IsRepeat, merge-repeats}
use argocd_notifier.Aggregator.Session.WellFormed.{IsWellFormed}

neq-== : (a b : ℕ) → a ≢ b → (a == b) ≡ false
neq-== a b h = ground (arith, nat_beq_iff a b)

-- The session that the first critical section leaves.
pub session_after :
    (sha256 : GoString → GoString) (cfg : PublisherConfig) (now : Time) (key : SessionKey)
    (events : List Event) (p : Publisher)
    → let (b, p') = begin sha256 cfg now key events p in
      lookup key p'.sessions
      ≡ some (record {
        address = b.address;
        state = record { per_app = b.per_app; refs = b.refs; last_flush = now };
      })
unfolding begin
session_after sha256 cfg now key events p = lookup-insert_self key _ p.sessions

live_session-fresh :
    (ttl : Duration) (now : Time) (o : Option Session) (s : Session)
    → o ≡ some s
    → is_stale now s.state.last_flush ttl ≡ false
    → live_session ttl now o ≡ some s
unfolding live_session
live_session-fresh ttl now o s there fresh = rw there (rw fresh refl)

live_session-stale :
    (ttl : Duration) (now : Time) (o : Option Session) (s : Session)
    → o ≡ some s
    → is_stale now s.state.last_flush ttl ≡ true
    → live_session ttl now o ≡ none
unfolding live_session
live_session-stale ttl now o s there stale = rw there (rw stale refl)

-- What `begin` finds of a session that has not expired.
begin-live :
    (sha256 : GoString → GoString) (cfg : PublisherConfig) (now : Time) (key : SessionKey)
    (events : List Event) (p : Publisher) (s : Session)
    → lookup key p.sessions ≡ some s
    → is_stale now s.state.last_flush cfg.session_ttl ≡ false
    → ((begin sha256 cfg now key events p).0.refs ≡ s.state.refs)
      × ((begin sha256 cfg now key events p).0.address ≡ s.address)
unfolding begin open_session
begin-live sha256 cfg now key events p s there fresh =
    let q = live_session-fresh cfg.session_ttl now (lookup key p.sessions) s there fresh in
    (rw (q, begin) refl, rw (q, begin) refl)

-- A reference that came back is stored in the session that the call began with.
stored_ref :
    (key : SessionKey) (new_refs : MessageRefs) (rk : RefKey) (ref : GoString) (s : Session)
    (p : Publisher)
    → lookup key p.sessions ≡ some s
    → Distinct (keys new_refs)
    → lookup rk new_refs ≡ some ref
    → (t : Session) × (lookup key (store_refs key s.address new_refs p).sessions ≡ some t)
      × (lookup rk t.state.refs ≡ some ref)
      × (t.state.last_flush ≡ s.state.last_flush)
      × (t.address ≡ s.address)
unfolding store_refs update_refs
stored_ref key [] rk ref s p there d h = absurd (unfold lookup in ground (arith, h))
stored_ref key (r ∷ rs) rk ref s p there d h =
    let t : Session = record s { state = record s.state { refs = copy s.state.refs (r ∷ rs) } } in
    let own = ==-refl s.address in
    (
      t,
      rw (there, own) (lookup-insert_self key t p.sessions),
      rw (lookup-copy rk s.state.refs (r ∷ rs) d, h),
      refl,
      refl,
    )

-- A flush within the TTL of the one before it edits in place: it has, for each destination, the
-- reference that the backend returned then.
pub next_flush_edits :
    (sha256 : GoString → GoString) (cfg : PublisherConfig) (now later : Time) (key : SessionKey)
    (events events' : List Event) (p : Publisher) (new_refs : MessageRefs) (rk : RefKey)
    (ref : GoString)
    → Distinct (keys new_refs)
    → lookup rk new_refs ≡ some ref
    → is_stale later now cfg.session_ttl ≡ false
    → let (b, p') = begin sha256 cfg now key events p in
      let b' = (begin sha256 cfg later key events' (store_refs key b.address new_refs p')).0 in
      (get_or rk [] b'.refs ≡ ref) × (b'.address ≡ b.address)
next_flush_edits sha256 cfg now later key events events' p new_refs rk ref d h fresh =
    let b : Begun = (begin sha256 cfg now key events p).0 in
    let p' : Publisher = (begin sha256 cfg now key events p).1 in
    let (t, there, has, when, who) =
      stored_ref key new_refs rk ref _ p' (session_after sha256 cfg now key events p) d h in
    let live =
      begin-live sha256 cfg later key events' (store_refs key b.address new_refs p') t there
        (rw when fresh) in
    (ap (get_or rk []) live.0 ∙ get_or-some rk [] ref t.state.refs has, live.1 ∙ who)

begin-expired :
    (sha256 : GoString → GoString) (cfg : PublisherConfig) (now : Time) (key : SessionKey)
    (events : List Event) (p : Publisher) (s : Session)
    → lookup key p.sessions ≡ some s
    → is_stale now s.state.last_flush cfg.session_ttl ≡ true
    → let b : Begun = (begin sha256 cfg now key events p).0 in
      (b.refs ≡ [])
      × (b.address ≡ p.next_address)
      × (b.per_app
          ≡ (merge sha256
              (record { per_app = []; duplicates = []; changed = false })
              events).per_app)
unfolding begin open_session
begin-expired sha256 cfg now key events p s there stale =
    let q = live_session-stale cfg.session_ttl now (lookup key p.sessions) s there stale in
    (rw (q, begin) refl, rw (q, begin) refl, rw (q, begin) refl)

-- A session that has been idle for longer than its TTL is replaced: the next flush of its key knows no
-- reference, knows the apps of its own batch and no other, and stands at a pointer that is not the old one.
pub expired_session :
    (sha256 : GoString → GoString) (cfg : PublisherConfig) (now : Time) (key : SessionKey)
    (events : List Event) (p : Publisher) (s : Session)
    → IsWellFormed p
    → lookup key p.sessions ≡ some s
    → is_stale now s.state.last_flush cfg.session_ttl ≡ true
    → let b : Begun = (begin sha256 cfg now key events p).0 in
      (b.refs ≡ [])
      × (b.per_app
          ≡ (merge sha256
              (record { per_app = []; duplicates = []; changed = false })
              events).per_app)
      × (b.address ≢ s.address)
expired_session sha256 cfg now key events p s h there stale =
    let (no_refs, new, apps) = begin-expired sha256 cfg now key events p s there stale in
    (no_refs, apps, λ e. omega (arith, h.known key s there, new, e))

-- A call that began with a session which another call has replaced meanwhile does not store its
-- references in the session that took its place.
pub late_refs :
    (sha256 : GoString → GoString) (cfg : PublisherConfig) (now : Time) (key : SessionKey)
    (events : List Event) (p : Publisher) (s : Session) (new_refs : MessageRefs)
    → IsWellFormed p
    → lookup key p.sessions ≡ some s
    → is_stale now s.state.last_flush cfg.session_ttl ≡ true
    → let p' : Publisher = (begin sha256 cfg now key events p).1 in
      store_refs key s.address new_refs p' ≡ p'
unfolding store_refs update_refs
late_refs sha256 cfg now key events p s [] h there stale = refl
late_refs sha256 cfg now key events p s (r ∷ rs) h there stale =
    let other = (expired_session sha256 cfg now key events p s h there stale).2 in
    rw (session_after sha256 cfg now key events p)
      (rw (neq-== (begin sha256 cfg now key events p).0.address s.address other) refl)

pub begin-repeats :
    (sha256 : GoString → GoString) (cfg : PublisherConfig) (now : Time) (key : SessionKey)
    (events : List Event) (p : Publisher) (s : Session)
    → lookup key p.sessions ≡ some s
    → is_stale now s.state.last_flush cfg.session_ttl ≡ false
    → All (IsRepeat sha256 s.state.per_app) events
    → begin sha256 cfg now key events p ≡ (
      record {
        address = s.address;
        per_app = s.state.per_app;
        refs = s.state.refs;
        duplicates = events;
        changed = false;
      },
      record p {
        sessions = insert key (record s { state = record s.state { last_flush = now } }) p.sessions;
      },
    )
unfolding begin open_session
begin-repeats sha256 cfg now key events p s there fresh again =
    rw (live_session-fresh cfg.session_ttl now (lookup key p.sessions) s there fresh, begin)
      (rw
        (merge-repeats sha256
          (record { per_app = s.state.per_app; duplicates = []; changed = false }) events again)
        refl)

-- A batch that only repeats what a live session knows calls no backend, where repeats are dropped: the
-- call returns no error, the world stays as it is, and of the session only the time of its last
-- flush changes.
pub dropped_repeats :
    {W : Type 0} (sha256 : GoString → GoString) (format_time : Time → GoString)
    (resolve : Resolver W) (cfg : PublisherConfig) (now : Time) (key : SessionKey) (ev : Event)
    (events : List Event) (p : Publisher) (w : W) (s : Session)
    → lookup key p.sessions ≡ some s
    → is_stale now s.state.last_flush cfg.session_ttl ≡ false
    → All (IsRepeat sha256 s.state.per_app) (ev ∷ events)
    → (cfg.duplicate_action == duplicate_action_thread) ≡ false
    → upsert sha256 format_time resolve cfg now key (ev ∷ events) (p, w) ≡ (
      none,
      (
        record p {
          sessions =
              insert key (record s { state = record s.state { last_flush = now } }) p.sessions;
        },
        w,
      ),
    )
unfolding upsert upsert_events upsert_begun send_changes send_replies store_refs join_errors
dropped_repeats sha256 format_time resolve cfg now key ev events p w s there fresh again drop =
    ap (upsert_begun sha256 format_time resolve cfg now key w)
      (begin-repeats sha256 cfg now key (ev ∷ events) p s there fresh again)
    ∙ rw drop refl
