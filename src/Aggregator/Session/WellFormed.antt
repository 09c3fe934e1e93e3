-- ===== src/Aggregator/Session/WellFormed.antt =====
-- The invariant of the session store: each session files the latest event of each app of its own group
-- under the app's name, once, and each pointer that is in use was handed out.
use argocd_notifier.Prelude.{
  ℕ, suc, ◌<◌, ◌≤◌, ◌≡◌, refl, false, Option, none, some, List, [], ◌∷◌, arith, ◌==◌, nat_eq, All,
  Bool-cases, eq_of_==, subst, Option-cases, inl, inr,
}
use argocd_notifier.Text.{GoString, text_eq}
use argocd_notifier.Maps.{
  GoMap, lookup, insert, keys, Distinct, lookup-insert, insert-Distinct, All-insert-entry,
}
use argocd_notifier.Event.{Event}
use argocd_notifier.Notification.Build.Deterministic.{OfGroup}
use argocd_notifier.Notification.Build.Contents.{FiledByName}
use argocd_notifier.Aggregator.Keys.{SessionKey, session_key_eq}
use argocd_notifier.Aggregator.Clock.{Time, Duration, is_stale}
use argocd_notifier.Aggregator.Session.{
  PublisherConfig, MessageRefs, Session, Publisher, Merged, new_publisher, live_session,
  open_session, merge_one, merge, begin, update_refs, store_refs, is_duplicate, upsert,
  upsert_events, upsert_begun,
}
use argocd_notifier.Aggregator.Backends.{Resolver}

-- The apps of a session of the group.
pub record AppsOf (group_key : GoString) (per_app : GoMap GoString Event) : Type 0 where
  pub distinct : Distinct (keys per_app)
  pub filed : FiledByName per_app
  pub of_group : OfGroup group_key per_app

-- A batch for a session of the group.
abbrev pub BatchOf : GoString → List Event → Type 0
BatchOf gk evs = All (λ ev. ev.group_key ≡ gk) evs

pub record IsWellFormed (p : Publisher) : Type 0 where
  pub apps :
      (key : SessionKey) (s : Session)
      → lookup key p.sessions ≡ some s
      → AppsOf key.group_key s.state.per_app
  pub known :
      (key : SessionKey) (s : Session) → lookup key p.sessions ≡ some s → s.address < p.next_address

module _ (sha256 : GoString → GoString) where
  merge_one-AppsOf :
      (gk : GoString) (m : Merged) (ev : Event)
      → ev.group_key ≡ gk
      → AppsOf gk m.per_app
      → AppsOf gk (merge_one sha256 m ev).per_app
  unfolding merge_one
  merge_one-AppsOf gk m ev g h =
      elim (Bool-cases (is_duplicate sha256 (lookup ev.app_name m.per_app) ev)) [
        | inl p ↦ rw p h
        | inr p ↦ rw p (record {
          distinct = insert-Distinct ev.app_name ev m.per_app h.distinct;
          filed = All-insert-entry (λ x. x.0 ≡ x.1.app_name) ev.app_name ev m.per_app h.filed refl;
          of_group =
              All-insert-entry (λ x. x.1.group_key ≡ gk) ev.app_name ev m.per_app h.of_group g;
        })
      ]

  pub merge-AppsOf :
      (gk : GoString) (m : Merged) (evs : List Event)
      → BatchOf gk evs
      → AppsOf gk m.per_app
      → AppsOf gk (merge sha256 m evs).per_app
  unfolding merge
  merge-AppsOf gk m [] b h = h
  merge-AppsOf gk m (ev ∷ evs) b h =
      merge-AppsOf gk (merge_one sha256 m ev) evs b.1 (merge_one-AppsOf gk m ev b.0 h)

pub no_apps-AppsOf : (gk : GoString) → AppsOf gk []
no_apps-AppsOf gk = record { distinct = tt; filed = tt; of_group = tt }

insert-IsWellFormed :
    (p : Publisher) (key : SessionKey) (s : Session) (next : ℕ)
    → IsWellFormed p
    → p.next_address ≤ next
    → s.address < next
    → AppsOf key.group_key s.state.per_app
    → IsWellFormed (record { sessions = insert key s p.sessions; next_address = next })
insert-IsWellFormed p key s next h le lt a = record {
  apps = λ k t q. elim (Bool-cases (key == k)) [
    | inl same ↦
        let e : key ≡ k = eq_of_== key k same in
        let e' : s ≡ t = ground (arith, lookup-insert key k s p.sessions) in
        subst (λ (j : SessionKey). AppsOf j.group_key t.state.per_app) e
          (subst (λ (u : Session). AppsOf key.group_key u.state.per_app) e' a)
    | inr other ↦ h.apps k t (ground (arith, lookup-insert key k s p.sessions))
  ];
  known = λ k t q. ground (arith, lookup-insert key k s p.sessions, h.known k t);
}

pub live_session-eq-some :
    (ttl : Duration) (now : Time) (o : Option Session) (s : Session)
    → live_session ttl now o ≡ some s
    → (o ≡ some s) × (is_stale now s.state.last_flush ttl ≡ false)
unfolding live_session
live_session-eq-some ttl now none s h = absurd (ground arith)
live_session-eq-some ttl now (some t) s h = ground arith

-- The first critical section keeps the invariant, for a batch of the session's group.
pub begin-IsWellFormed :
    (sha256 : GoString → GoString) (cfg : PublisherConfig) (now : Time) (key : SessionKey)
    (events : List Event) (p : Publisher)
    → BatchOf key.group_key events
    → IsWellFormed p
    → IsWellFormed (begin sha256 cfg now key events p).1
unfolding begin open_session
begin-IsWellFormed sha256 cfg now key events p b h =
    elim (Option-cases (live_session cfg.session_ttl now (lookup key p.sessions))) [
      | inl q ↦ rw q (
          insert-IsWellFormed p key _ (suc p.next_address) h (omega arith) (omega arith)
            (merge-AppsOf sha256 key.group_key _ events b (no_apps-AppsOf key.group_key)))
      | inr (s, q) ↦
          let there = (live_session-eq-some cfg.session_ttl now (lookup key p.sessions) s q).0 in
          rw q (
            insert-IsWellFormed p key _ p.next_address h (omega arith) (h.known key s there)
              (merge-AppsOf sha256 key.group_key _ events b (h.apps key s there)))
    ]

update_refs-IsWellFormed :
    (p : Publisher) (key : SessionKey) (address : ℕ) (refs : MessageRefs) (o : Option Session)
    → lookup key p.sessions ≡ o
    → IsWellFormed p
    → IsWellFormed (update_refs o key address refs p)
unfolding update_refs
update_refs-IsWellFormed p key address refs none q h = h
update_refs-IsWellFormed p key address refs (some cur) q h =
    elim (Bool-cases (cur.address == address)) [
      | inl same ↦ rw same (
          insert-IsWellFormed p key _ p.next_address h (omega arith) (h.known key cur q)
            (h.apps key cur q))
      | inr other ↦ rw other h
    ]

pub store_refs-IsWellFormed :
    (p : Publisher) (key : SessionKey) (address : ℕ) (refs : MessageRefs)
    → IsWellFormed p
    → IsWellFormed (store_refs key address refs p)
unfolding store_refs
store_refs-IsWellFormed p key address [] h = h
store_refs-IsWellFormed p key address (r ∷ rs) h =
    update_refs-IsWellFormed p key address (r ∷ rs) (lookup key p.sessions) refl h

pub new-IsWellFormed : IsWellFormed new_publisher
unfolding lookup
new-IsWellFormed = record { apps = λ key s q. cc; known = λ key s q. cc }

-- `Upsert` keeps the invariant, whatever the backends do.
pub upsert-IsWellFormed :
    {W : Type 0} (sha256 : GoString → GoString) (format_time : Time → GoString)
    (resolve : Resolver W) (cfg : PublisherConfig) (now : Time) (key : SessionKey)
    (events : List Event) (p : Publisher) (w : W)
    → BatchOf key.group_key events
    → IsWellFormed p
    → IsWellFormed (upsert sha256 format_time resolve cfg now key events (p, w)).1.0
unfolding upsert upsert_events upsert_begun
upsert-IsWellFormed sha256 format_time resolve cfg now key [] p w b h = h
upsert-IsWellFormed sha256 format_time resolve cfg now key (ev ∷ evs) p w b h =
    store_refs-IsWellFormed _ key _ _ (begin-IsWellFormed sha256 cfg now key (ev ∷ evs) p b h)
