-- ===== src/Receiver/Complete.antt =====
-- What is in the receiver: complete events, and no more of them than the queue has room for.
use argocd_notifier.Prelude.{
  pick, AllPicked, pick-AllPicked, All-append, ℕ, suc, zero, ◌≤◌, ◌≡◌, refl, ap, Option, none, some,
  List, [], ◌∷◌, length, length-append, ltb, arith, Bool-cases, Option-cases, inl, inr, All,
}
use argocd_notifier.Event.{Event, validate}
use argocd_notifier.Event.Laws.{IsComplete, validate_iff-IsComplete}
use argocd_notifier.Aggregator.Backends.{Outcome, success, failure}
use argocd_notifier.Receiver.{
  Receiver, new_receiver, try_send, answer_send, handle_event, handle, receive_from, receive,
  hand_over, leave_from, leave, Action, request, poll, ingest_one, cancel, perform, perform_all,
}

-- The queue holds at most as many events as its capacity, and every event in the receiver has the
-- fields that it must have.
pub record IsSound (capacity : ℕ) (r : Receiver) : Type 0 where
  pub same_capacity : r.capacity ≡ capacity
  pub bounded : length r.queue ≤ capacity
  pub queued : All IsComplete r.queue
  pub held : All IsComplete r.in_hand

module _ (capacity : ℕ) where
  abbrev SoundSend : Option Receiver → Type 0
  SoundSend none = Unit
  SoundSend (some r) = IsSound capacity r

  sound-try_send :
      (ev : Event) (n : ℕ) (r : Receiver)
      → IsComplete ev
      → IsSound capacity r
      → SoundSend (try_send ev n r)
  unfolding try_send
  sound-try_send ev zero r c h = elim (Bool-cases (ltb (length r.queue) r.capacity)) [
    | inl q ↦ rw q (record {
      same_capacity = h.same_capacity;
      bounded = ground (arith, q, h.same_capacity, length-append r.queue (ev ∷ []));
      queued = All-append IsComplete r.queue (ev ∷ []) h.queued (c, tt);
      held = h.held;
    })
    | inr q ↦ rw q tt
  ]
  sound-try_send ev (suc n) r c h = record {
    same_capacity = h.same_capacity;
    bounded = h.bounded;
    queued = h.queued;
    held = All-append IsComplete r.in_hand (ev ∷ []) h.held (c, tt);
  }

  answer_send-IsSound :
      (o : Option Receiver) (r : Receiver)
      → SoundSend o
      → IsSound capacity r
      → IsSound capacity (answer_send o r).1
  unfolding answer_send
  answer_send-IsSound none r k h = h
  answer_send-IsSound (some r') r k h = k

  handle-IsSound :
      (body : Outcome Event) (r : Receiver)
      → IsSound capacity r
      → IsSound capacity (handle body r).1
  unfolding handle handle_event
  handle-IsSound (failure e) r h = h
  handle-IsSound (success ev) r h = elim (Option-cases (validate ev)) [
    | inl q ↦ rw q (
        answer_send-IsSound (try_send ev r.waiting r) r
          (sound-try_send ev r.waiting r ((validate_iff-IsComplete ev).0 q) h) h)
    | inr (errs, q) ↦ rw q h
  ]

  receive_from-IsSound :
      (queue : List Event) (n : ℕ) (r : Receiver)
      → r.queue ≡ queue
      → IsSound capacity r
      → IsSound capacity (receive_from queue n r)
  unfolding receive_from
  receive_from-IsSound queue zero r e h = h
  receive_from-IsSound [] (suc n) r e h = record {
    same_capacity = h.same_capacity;
    bounded = h.bounded;
    queued = h.queued;
    held = h.held;
  }
  receive_from-IsSound (ev ∷ queue) (suc n) r e h =
      let all : All IsComplete (ev ∷ queue) = rw e at h.queued in
      record {
        same_capacity = h.same_capacity;
        bounded = omega (arith, h.bounded, ap length e);
        queued = all.1;
        held = All-append IsComplete r.in_hand (ev ∷ []) h.held (all.0, tt);
      }

  leave_from-IsSound :
      (w n : ℕ) (r : Receiver) → IsSound capacity r → IsSound capacity (leave_from w n r)
  unfolding leave_from
  leave_from-IsSound (suc w) n r h = record {
    same_capacity = h.same_capacity;
    bounded = h.bounded;
    queued = h.queued;
    held = h.held;
  }
  leave_from-IsSound zero (suc n) r h = record {
    same_capacity = h.same_capacity;
    bounded = h.bounded;
    queued = h.queued;
    held = h.held;
  }
  leave_from-IsSound zero zero r h = h

  hand_over-IsSound :
      (o : Option (Event × List Event)) (r : Receiver)
      → AllPicked IsComplete o
      → IsSound capacity r
      → IsSound capacity (hand_over o r).0 × All IsComplete (hand_over o r).1
  unfolding hand_over
  hand_over-IsSound none r k h = (h, tt)
  hand_over-IsSound (some (ev, rest)) r k h = (
    record { same_capacity = h.same_capacity; bounded = h.bounded; queued = h.queued; held = k.1 },
    (k.0, tt),
  )

  perform-IsSound :
      (a : Action) (r : Receiver)
      → IsSound capacity r
      → IsSound capacity (perform a r).0 × All IsComplete (perform a r).1
  unfolding perform receive leave
  perform-IsSound (request body) r h = (handle-IsSound body r h, tt)
  perform-IsSound poll r h = (receive_from-IsSound r.queue r.free r refl h, tt)
  perform-IsSound (ingest_one n) r h =
      hand_over-IsSound (pick n r.in_hand) r (pick-AllPicked IsComplete n r.in_hand h.held) h
  perform-IsSound cancel r h = (leave_from-IsSound r.waiting r.free r h, tt)

  perform_all-IsSound :
      (schedule : List Action) (r : Receiver)
      → IsSound capacity r
      → IsSound capacity (perform_all schedule r).0 × All IsComplete (perform_all schedule r).1
  unfolding perform_all
  perform_all-IsSound [] r h = (h, tt)
  perform_all-IsSound (a ∷ rest) r h =
      let (kept, out) = perform-IsSound a r h in
      let (kept', out') = perform_all-IsSound rest (perform a r).0 kept in
      (kept', All-append IsComplete (perform a r).1 (perform_all rest (perform a r).0).1 out out')

-- From a new receiver on, in any schedule, the queue never holds more events than its size, and every
-- event that is ingested has the six fields that it must have.
pub ingested-IsComplete :
    (queue_size n : ℕ) (schedule : List Action)
    → (length (perform_all schedule (new_receiver queue_size n)).0.queue ≤ queue_size)
      × All IsComplete (perform_all schedule (new_receiver queue_size n)).1
unfolding new_receiver
ingested-IsComplete queue_size n schedule =
    let (kept, out) =
      perform_all-IsSound queue_size schedule (new_receiver queue_size n)
        (record { same_capacity = refl; bounded = omega arith; queued = tt; held = tt }) in
    (kept.bounded, out)
