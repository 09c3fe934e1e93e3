-- ===== src/Aggregator/Session/Interleave/Opening.antt =====
-- The invariant of overlapping calls, and a first critical section.
use argocd_notifier.Prelude.{
  ℕ, suc, ◌<◌, ◌≤◌, ◌≡◌, refl, sym, ap, ◌∙◌, false, some, List, [], ◌∷◌, arith, ◌==◌, nat_eq, All,
  Bool-cases, Option-cases, inl, inr, subst, eq_of_==,
}
use argocd_notifier.Text.{GoString}
use argocd_notifier.Maps.{lookup, insert, lookup-insert}
use argocd_notifier.Event.{Event}
use argocd_notifier.Aggregator.Keys.{SessionKey, session_key_eq, ref_key_eq}
use argocd_notifier.Aggregator.Clock.{Time}
use argocd_notifier.Aggregator.Session.{
  PublisherConfig, MessageRefs, Session, Publisher, live_session, open_session, begin,
}
use argocd_notifier.Aggregator.Session.WellFormed.{live_session-eq-some}
use argocd_notifier.Aggregator.Session.Interleave.{Stored, Running, refs_of}

-- What `begin` opens: a new session, or the one that is there.
pub data Opened (key : SessionKey) (p : Publisher) (address : ℕ) (refs : MessageRefs) (next : ℕ)
    : Type 0 where
  fresh :
      address ≡ p.next_address
      → refs ≡ []
      → next ≡ suc p.next_address
      → Opened key p address refs next
  live :
      (s : Session)
      → lookup key p.sessions ≡ some s
      → address ≡ s.address
      → refs ≡ s.state.refs
      → next ≡ p.next_address
      → Opened key p address refs next

pub begin-Opened :
    (sha256 : GoString → GoString) (cfg : PublisherConfig) (now : Time) (key : SessionKey)
    (events : List Event) (p : Publisher)
    → let (b, p') = begin sha256 cfg now key events p in
      Opened key p b.address b.refs p'.next_address
unfolding begin open_session
begin-Opened sha256 cfg now key events p =
    elim (Option-cases (live_session cfg.session_ttl now (lookup key p.sessions))) [
      | inl q ↦ fresh (rw (q, begin) refl) (rw (q, begin) refl) (rw (q, begin) refl)
      | inr (s, q) ↦
          live s (live_session-eq-some cfg.session_ttl now (lookup key p.sessions) s q).0
            (rw (q, begin) refl) (rw (q, begin) refl) (rw (q, begin) refl)
    ]

-- Every pointer in use was handed out, and each session has the references of its own calls.
pub record IsConsistent (r : Running) : Type 0 where
  pub known :
      (key : SessionKey) (s : Session)
      → lookup key r.publisher.sessions ≡ some s
      → s.address < r.publisher.next_address
  pub flying : All (λ c. c.address < r.publisher.next_address) r.in_flight
  pub past : All (λ x. x.call.address < r.publisher.next_address) r.history
  pub own :
      (key : SessionKey) (s : Session)
      → lookup key r.publisher.sessions ≡ some s
      → s.state.refs ≡ refs_of key s.address r.history

All-lt :
    {A : Type 0} (f : A → ℕ) (n m : ℕ) (xs : List A)
    → n ≤ m
    → All (λ x. f x < n) xs
    → All (λ x. f x < m) xs
All-lt f n m [] le h = tt
All-lt f n m (x ∷ xs) le h = (omega (arith, h.0), All-lt f n m xs le h.1)

refs_of-new :
    (key : SessionKey) (n : ℕ) (history : List Stored)
    → All (λ x. x.call.address < n) history
    → refs_of key n history ≡ []
unfolding refs_of
refs_of-new key n [] h = refl
refs_of-new key n (x ∷ history) h =
    let apart : (x.call.address == n) ≡ false = ground (arith, h.0) in
    elim (Bool-cases (x.call.key == key)) [
      | inl q ↦ rw (q, apart) (refs_of-new key n history h.1)
      | inr q ↦ rw q (refs_of-new key n history h.1)
    ]

-- The three facts that a new first critical section brings.
opening_facts :
    (key : SessionKey) (r : Running) (address : ℕ) (refs : MessageRefs) (next : ℕ)
    → IsConsistent r
    → Opened key r.publisher address refs next
    → (r.publisher.next_address ≤ next) × (address < next) × (refs ≡ refs_of key address r.history)
opening_facts key r address refs next h (fresh a e n) = (
  omega (arith, n),
  omega (arith, n, a),
  e
      ∙ sym (
          ap (λ k. refs_of key k r.history) a
          ∙ refs_of-new key r.publisher.next_address r.history h.past),
)
opening_facts key r address refs next h (live s there a e n) = (
  omega (arith, n),
  omega (arith, n, a, h.known key s there),
  e ∙ (h.own key s there ∙ ap (λ k. refs_of key k r.history) (sym a)),
)

pub start-IsConsistent :
    (key : SessionKey) (r : Running) (t : Session) (next : ℕ)
    → IsConsistent r
    → Opened key r.publisher t.address t.state.refs next
    → IsConsistent (record {
      publisher = record { sessions = insert key t r.publisher.sessions; next_address = next };
      in_flight = record { key = key; address = t.address } ∷ r.in_flight;
      history = r.history;
    })
start-IsConsistent key r t next h o =
    let (le, lt, same) = opening_facts key r t.address t.state.refs next h o in
    record {
      known =
          λ k s q. ground (arith, lookup-insert key k t r.publisher.sessions, h.known k s, le, lt);
      flying = (lt, All-lt (λ c. c.address) r.publisher.next_address next r.in_flight le h.flying);
      past = All-lt (λ x. x.call.address) r.publisher.next_address next r.history le h.past;
      own = λ k s q. elim (Bool-cases (key == k)) [
        | inl e ↦
            let here : t ≡ s = ground (arith, lookup-insert key k t r.publisher.sessions) in
            subst (λ (u : Session). u.state.refs ≡ refs_of k u.address r.history) here
              (subst (λ j. t.state.refs ≡ refs_of j t.address r.history) (eq_of_== key k e) same)
        | inr e ↦ h.own k s (ground (arith, lookup-insert key k t r.publisher.sessions))
      ];
    }
