-- ===== src/Receiver/Drain.antt =====
-- The workers can empty the queue.
use argocd_notifier.Prelude.{
  ℕ, zero, suc, ◌+◌, ◌*◌, ◌≤◌, ◌≡◌, refl, sym, subst, ap, ◌⊎◌, inl, inr, some, List, [], ◌∷◌, ◌++◌,
  length, length-append, arith, ltb, pick, Bool-cases, Option-cases,
}
use argocd_notifier.Event.{Event, validate}
use argocd_notifier.Aggregator.Backends.{Outcome, success, failure}
use argocd_notifier.Receiver.{
  Receiver, try_send, answer_send, handle_event, handle, receive_from, receive, hand_over, Action,
  request, poll, ingest_one, cancel, perform, perform_all, accepted_by, accepted_all,
}

-- No worker waits while there is an event in the queue.
abbrev pub IsServed : Receiver → Type 0
IsServed r = (r.waiting ≡ 0) ⊎ (r.queue ≡ [])

-- The workers that have not ended.
abbrev pub workers : Receiver → ℕ
workers r = r.waiting + r.free + length r.in_hand

abbrev pub GoesOn : Action → Type 0
GoesOn (request body) = Unit
GoesOn poll = Unit
GoesOn (ingest_one n) = Unit
GoesOn cancel = ⊥

-- Both hold, for so many workers.
abbrev pub IsAlive : ℕ → Receiver → Type 0
IsAlive n r = IsServed r × (workers r ≡ n)

try_send-IsAlive :
    (n k : ℕ) (ev : Event) (r : Receiver)
    → r.waiting ≡ k
    → IsAlive n r
    → IsAlive n (answer_send (try_send ev k r) r).1
unfolding try_send answer_send
try_send-IsAlive n zero ev r e h = elim (Bool-cases (ltb (length r.queue) r.capacity)) [
  | inl room ↦ rw room (inl e, h.1)
  | inr full ↦ rw full h
]
try_send-IsAlive n (suc k) ev r e h = (
  elim h.0 [ inl z ↦ absurd (omega (arith, e, z)) | inr empty ↦ inr empty ],
  omega (arith, e, h.1, length-append r.in_hand (ev ∷ [])),
)

handle-IsAlive :
    (n : ℕ) (body : Outcome Event) (r : Receiver) → IsAlive n r → IsAlive n (handle body r).1
unfolding handle handle_event
handle-IsAlive n (failure e) r h = h
handle-IsAlive n (success ev) r h = elim (Option-cases (validate ev)) [
  | inl q ↦ rw q (try_send-IsAlive n r.waiting ev r refl h)
  | inr (errs, q) ↦ rw q h
]

receive_from-IsAlive :
    (n : ℕ) (queue : List Event) (free : ℕ) (r : Receiver)
    → r.queue ≡ queue
    → r.free ≡ free
    → IsAlive n r
    → IsAlive n (receive_from queue free r)
unfolding receive_from
receive_from-IsAlive n queue zero r q f h = h
receive_from-IsAlive n [] (suc free) r q f h = (inr q, omega (arith, f, h.1))
receive_from-IsAlive n (ev ∷ queue) (suc free) r q f h = (
  elim h.0 [ inl z ↦ inl z | inr empty ↦ absurd (ground (arith, q, empty)) ],
  omega (arith, f, h.1, length-append r.in_hand (ev ∷ [])),
)

length-pick :
    {A : Type 0} (i : ℕ) (xs : List A) (x : A) (rest : List A)
    → pick i xs ≡ some (x, rest)
    → length xs ≡ suc (length rest)
unfolding pick
length-pick i [] x rest h = absurd (ground (arith, h))
length-pick zero (y ∷ ys) x rest h = let same : ys ≡ rest = ground (arith, h) in rw same refl
length-pick {A = A} (suc i) (y ∷ ys) x rest h = elim (Option-cases (pick i ys)) [
  | inl q ↦ absurd (ground (arith, rw q at h))
  | inr ((z, zs), q) ↦
      let same : y ∷ zs ≡ rest = ground (arith, rw q at h) in
      omega (arith, length-pick i ys z zs q, ap (λ (l : List A). length l) same)
]

pub perform-IsAlive :
    (n : ℕ) (a : Action) (r : Receiver) → GoesOn a → IsAlive n r → IsAlive n (perform a r).0
unfolding perform receive
perform-IsAlive n (request body) r g h = handle-IsAlive n body r h
perform-IsAlive n poll r g h = receive_from-IsAlive n r.queue r.free r refl refl h
perform-IsAlive n (ingest_one i) r g h = elim (Option-cases (pick i r.in_hand)) [
  | inl q ↦ rw (q, hand_over) h
  | inr ((ev, rest), q) ↦
      rw (q, hand_over) (h.0, omega (arith, h.1, length-pick i r.in_hand ev rest q))
]
perform-IsAlive n cancel r g h = absurd g

-- Steps of the workers behind which nothing is in the queue or in a worker's hands.
pub record Empties (r : Receiver) : Type 0 where
  pub steps : List Action
  pub accepts_none : accepted_all steps r ≡ []
  pub queue_empty : (perform_all steps r).0.queue ≡ []
  pub hands_empty : (perform_all steps r).0.in_hand ≡ []

behind-poll : (r : Receiver) → Empties (perform poll r).0 → Empties r
unfolding accepted_all accepted_by perform_all
behind-poll r m = record {
  steps = poll ∷ m.steps;
  accepts_none = m.accepts_none;
  queue_empty = m.queue_empty;
  hands_empty = m.hands_empty;
}

behind-ingest : (r : Receiver) → Empties (perform (ingest_one 0) r).0 → Empties r
unfolding accepted_all accepted_by perform_all
behind-ingest r m = record {
  steps = ingest_one 0 ∷ m.steps;
  accepts_none = m.accepts_none;
  queue_empty = m.queue_empty;
  hands_empty = m.hands_empty;
}

pub empties :
    (k n : ℕ) (r : Receiver) (queue in_hand : List Event) (free : ℕ)
    → r.queue ≡ queue
    → r.in_hand ≡ in_hand
    → r.free ≡ free
    → 2 * length queue + length in_hand ≤ k
    → IsAlive (suc n) r
    → Empties r
unfolding accepted_all perform_all perform hand_over receive receive_from pick
empties k n r [] [] free eq eh ef le h = record {
  steps = [];
  accepts_none = refl;
  queue_empty = eq;
  hands_empty = eh;
}
empties zero n r queue (ev ∷ rest) free eq eh ef le h = absurd (omega (arith, le))
empties (suc k) n r queue (ev ∷ rest) free eq eh ef le h =
    let r' : Receiver = record r { in_hand = rest; free = suc r.free } in
    let next : (perform (ingest_one 0) r).0 ≡ r' = rw eh refl in
    let alive : IsAlive (suc n) r' =
      (h.0, omega (arith, h.1, ap (λ (l : List Event). length l) eh)) in
    behind-ingest r (
      subst Empties (sym next)
        (empties k n r' queue rest (suc r.free) eq refl refl (omega (arith, le)) alive))
empties zero n r (ev ∷ queue) [] free eq eh ef le h = absurd (omega (arith, le))
empties (suc k) n r (ev ∷ queue) [] zero eq eh ef le h = absurd (elim h.0 [
  | inl z ↦ omega (arith, z, ef, h.1, ap (λ (l : List Event). length l) eh)
  | inr empty ↦ ground (arith, eq, empty)
])
empties (suc k) n r (ev ∷ queue) [] (suc free) eq eh ef le h =
    let r' : Receiver = record r { free = free; queue = queue; in_hand = r.in_hand ++ ev ∷ [] } in
    let next : (perform poll r).0 ≡ r' = rw (eq, ef) refl in
    let alive : IsAlive (suc n) r' =
      subst (IsAlive (suc n)) next (perform-IsAlive (suc n) poll r tt h) in
    behind-poll r (
      subst Empties (sym next)
        (empties k n r' queue (ev ∷ []) free refl (rw eh refl) refl (omega (arith, le)) alive))
