-- ===== src/Aggregator/Session/Interleave/Finishing.antt =====
-- A second critical section, and the invariant.
use argocd_notifier.Prelude.{
  ℕ, ◌<◌, ◌≡◌, ◌≢◌, refl, sym, ap, ◌∙◌, true, false, ◌&&◌, Option, none, some, List, [], ◌∷◌, arith,
  ◌==◌, ==-refl, nat_eq, All, Bool-cases, inl, inr, subst, eq_of_==, ne_of_==, ◌⊎◌,
}
use argocd_notifier.Maps.{lookup, insert, copy, lookup-insert}
use argocd_notifier.Aggregator.Keys.{SessionKey, session_key_eq, ref_key_eq}
use argocd_notifier.Aggregator.Session.{MessageRefs, Session, Publisher, update_refs, store_refs}
use argocd_notifier.Aggregator.Session.Interleave.{Call, Stored, Running, refs_of}
use argocd_notifier.Aggregator.Session.Interleave.Opening.{IsConsistent}

-- What the second critical section does.
pub data StoreResult (key : SessionKey) (address : ℕ) (refs : MessageRefs) (p p' : Publisher)
    : Type 0 where
  nothing_new : refs ≡ [] → p' ≡ p → StoreResult key address refs p p'
  replaced :
      ((s : Session) → lookup key p.sessions ≡ some s → s.address ≢ address)
      → p' ≡ p
      → StoreResult key address refs p p'
  written :
      (s : Session)
      → lookup key p.sessions ≡ some s
      → s.address ≡ address
      → p' ≡ record p {
        sessions =
            insert key
              (record s { state = record s.state { refs = copy s.state.refs refs } })
              p.sessions;
      }
      → StoreResult key address refs p p'

update_refs-StoreResult :
    (key : SessionKey) (address : ℕ) (refs : MessageRefs) (o : Option Session) (p : Publisher)
    → lookup key p.sessions ≡ o
    → StoreResult key address refs p (update_refs o key address refs p)
unfolding update_refs
update_refs-StoreResult key address refs none p h =
    replaced (λ s q e. absurd (ground (arith, h, q))) refl
update_refs-StoreResult key address refs (some cur) p h =
    elim (Bool-cases (cur.address == address)) [
      | inl q ↦ rw q (written cur h (eq_of_== cur.address address q) refl)
      | inr q ↦ rw q (
          replaced
            (λ s there e.
              let one : cur ≡ s = ground (arith, h, there) in
              ne_of_== cur.address address q (ap (λ (u : Session). u.address) one ∙ e))
            refl)
    ]

pub store_refs-StoreResult :
    (key : SessionKey) (address : ℕ) (refs : MessageRefs) (p : Publisher)
    → StoreResult key address refs p (store_refs key address refs p)
unfolding store_refs
store_refs-StoreResult key address [] p = nothing_new refl refl
store_refs-StoreResult key address (x ∷ xs) p =
    update_refs-StoreResult key address (x ∷ xs) (lookup key p.sessions) p refl

refs_of-other :
    (key : SessionKey) (address : ℕ) (x : Stored) (history : List Stored)
    → ((x.call.key == key) && (x.call.address == address)) ≡ false
    → refs_of key address (x ∷ history) ≡ refs_of key address history
unfolding refs_of
refs_of-other key address x history h = rw h refl

refs_of-own :
    (key : SessionKey) (address : ℕ) (x : Stored) (history : List Stored)
    → ((x.call.key == key) && (x.call.address == address)) ≡ true
    → refs_of key address (x ∷ history) ≡ copy (refs_of key address history) x.new_refs
unfolding refs_of
refs_of-own key address x history h = rw h refl

-- A session that the second section leaves alone keeps its references, and so does its history.
own-unchanged :
    (x : Stored) (r : Running) (key : SessionKey) (s : Session)
    → IsConsistent r
    → lookup key r.publisher.sessions ≡ some s
    → (x.new_refs ≡ []) ⊎ (((x.call.key == key) && (x.call.address == s.address)) ≡ false)
    → s.state.refs ≡ refs_of key s.address (x ∷ r.history)
unfolding copy
own-unchanged x r key s h there (inr other) =
    h.own key s there ∙ sym (refs_of-other key s.address x r.history other)
own-unchanged x r key s h there (inl nil) =
    elim (Bool-cases ((x.call.key == key) && (x.call.address == s.address))) [
      | inr other ↦ h.own key s there ∙ sym (refs_of-other key s.address x r.history other)
      | inl mine ↦
          h.own key s there
          ∙ sym (
              refs_of-own key s.address x r.history mine
              ∙ ap (copy (refs_of key s.address r.history)) nil)
    ]

not_mine :
    (x : Stored) (p : Publisher) (key : SessionKey) (s : Session)
    → ((t : Session) → lookup x.call.key p.sessions ≡ some t → t.address ≢ x.call.address)
    → lookup key p.sessions ≡ some s
    → ((x.call.key == key) && (x.call.address == s.address)) ≡ false
not_mine x p key s f there = elim (Bool-cases (x.call.key == key)) [
  | inr other ↦ rw other refl
  | inl same ↦ elim (Bool-cases (x.call.address == s.address)) [
    | inr other ↦ rw (same, other) refl
    | inl mine ↦
        let back : key ≡ x.call.key = sym (eq_of_== x.call.key key same) in
        absurd (
          f s (subst (λ k. lookup k p.sessions ≡ some s) back there)
            (sym (eq_of_== x.call.address s.address mine)))
  ]
]

pub finish-IsConsistent :
    (x : Stored) (r : Running) (rest : List Call) (p : Publisher)
    → IsConsistent r
    → x.call.address < r.publisher.next_address
    → All (λ c. c.address < r.publisher.next_address) rest
    → StoreResult x.call.key x.call.address x.new_refs r.publisher p
    → IsConsistent (record { publisher = p; in_flight = rest; history = x ∷ r.history })
finish-IsConsistent x r rest p h lt all (nothing_new nil e) =
    subst (λ p. IsConsistent (record { publisher = p; in_flight = rest; history = x ∷ r.history }))
      (sym e)
      (record {
        known = h.known;
        flying = all;
        past = (lt, h.past);
        own = λ k s q. own-unchanged x r k s h q (inl nil);
      })
finish-IsConsistent x r rest p h lt all (replaced f e) =
    subst (λ p. IsConsistent (record { publisher = p; in_flight = rest; history = x ∷ r.history }))
      (sym e)
      (record {
        known = h.known;
        flying = all;
        past = (lt, h.past);
        own = λ k s q. own-unchanged x r k s h q (inr (not_mine x r.publisher k s f q));
      })
finish-IsConsistent x r rest p h lt all (written s0 there mine e) =
    let t : Session = record s0 {
      state = record s0.state { refs = copy s0.state.refs x.new_refs };
    } in
    let key : SessionKey = x.call.key in
    let cond : ((key == key) && (x.call.address == s0.address)) ≡ true =
      rw (==-refl key, mine) (==-refl x.call.address) in
    let stored : t.state.refs ≡ refs_of key t.address (x ∷ r.history) =
      ap (λ m. copy m x.new_refs) (h.own key s0 there)
      ∙ sym (refs_of-own key s0.address x r.history cond) in
    subst (λ p. IsConsistent (record { publisher = p; in_flight = rest; history = x ∷ r.history }))
      (sym e)
      (record {
        known = λ k s q.
            ground (
              arith,
              lookup-insert key k t r.publisher.sessions,
              h.known k s,
              h.known key s0 there,
            );
        flying = all;
        past = (lt, h.past);
        own = λ k s q. elim (Bool-cases (key == k)) [
          | inl same ↦
              let here : t ≡ s = ground (arith, lookup-insert key k t r.publisher.sessions) in
              subst (λ (u : Session). u.state.refs ≡ refs_of k u.address (x ∷ r.history)) here
                (subst (λ j. t.state.refs ≡ refs_of j t.address (x ∷ r.history))
                  (eq_of_== key k same) stored)
          | inr other ↦
              own-unchanged x r k s h (ground (arith, lookup-insert key k t r.publisher.sessions))
                (inr (rw other refl))
        ];
      })
