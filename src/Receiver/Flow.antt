-- ===== src/Receiver/Flow.antt =====
-- The way of an event from the webhook to `Ingest`.
use argocd_notifier.Prelude.{
  pick, ℕ, suc, zero, ◌+◌, ◌≡◌, refl, ap, Bool, Option, none, some, List, [], ◌∷◌, length, ltb,
  arith, Bool-cases, Option-cases, inl, inr,
}
use argocd_notifier.Event.{Event, validate}
use argocd_notifier.Aggregator.Backends.{Outcome, success, failure}
use argocd_notifier.Aggregator.Engine.Sessions.{tally, tally-append}
use argocd_notifier.Receiver.{
  Receiver, try_send, answer_send, handle_event, handle, receive_from, receive, hand_over,
  leave_from, leave, Action, request, poll, ingest_one, cancel, perform, perform_all,
  accepted_event, accepted_by, accepted_all,
}

-- How many of the events that were accepted and not ingested yet pass a test.
abbrev pub load : (Event → Bool) → Receiver → ℕ
load p r = tally p r.queue + tally p r.in_hand

module _ (p : Event → Bool) where
  abbrev SendLoad : Event → Receiver → Option Receiver → Type 0
  SendLoad ev r none = Unit
  SendLoad ev r (some r') = load p r' ≡ load p r + tally p (ev ∷ [])

  load-try_send : (ev : Event) (n : ℕ) (r : Receiver) → SendLoad ev r (try_send ev n r)
  unfolding try_send
  load-try_send ev zero r = elim (Bool-cases (ltb (length r.queue) r.capacity)) [
    | inl q ↦ rw q (omega (arith, tally-append p r.queue (ev ∷ [])))
    | inr q ↦ rw q tt
  ]
  load-try_send ev (suc n) r = omega (arith, tally-append p r.in_hand (ev ∷ []))

  load-answer_send :
      (ev : Event) (o : Option Receiver) (r : Receiver)
      → SendLoad ev r o
      → load p (answer_send o r).1
        ≡ load p r + tally p (accepted_event (success ev) (answer_send o r).0)
  unfolding answer_send accepted_event
  load-answer_send ev none r h = omega arith
  load-answer_send ev (some r') r h = h

  load-handle :
      (body : Outcome Event) (r : Receiver)
      → load p (handle body r).1 ≡ load p r + tally p (accepted_event body (handle body r).0)
  unfolding handle handle_event
  load-handle (failure e) r = unfold accepted_event in omega arith
  load-handle (success ev) r = elim (Option-cases (validate ev)) [
    | inl q ↦ rw q (load-answer_send ev (try_send ev r.waiting r) r (load-try_send ev r.waiting r))
    | inr (errs, q) ↦ rw q (unfold accepted_event in omega arith)
  ]

  load-receive_from :
      (queue : List Event) (n : ℕ) (r : Receiver)
      → r.queue ≡ queue
      → load p (receive_from queue n r) ≡ load p r
  unfolding receive_from
  load-receive_from queue zero r h = refl
  load-receive_from [] (suc n) r h = refl
  load-receive_from (ev ∷ queue) (suc n) r h =
      omega
        (arith, tally-append p r.in_hand (ev ∷ []), ap (tally p) h, tally-append p (ev ∷ []) queue)

  load-leave_from : (w n : ℕ) (r : Receiver) → load p (leave_from w n r) ≡ load p r
  unfolding leave_from
  load-leave_from (suc w) n r = refl
  load-leave_from zero (suc n) r = refl
  load-leave_from zero zero r = refl

  abbrev Picked : List Event → Option (Event × List Event) → Type 0
  Picked evs none = Unit
  Picked evs (some (e, es)) = tally p evs ≡ tally p (e ∷ []) + tally p es

  tally-pick : (n : ℕ) (evs : List Event) → Picked evs (pick n evs)
  unfolding pick
  tally-pick n [] = tt
  tally-pick zero (ev ∷ evs) = tally-append p (ev ∷ []) evs
  tally-pick (suc n) (ev ∷ evs) =
      let ih = tally-pick n evs in
      elim (Option-cases (pick n evs)) [
        | inl q ↦ rw q tt
        | inr ((e, es), q) ↦
            let eq : tally p evs ≡ tally p (e ∷ []) + tally p es = rw q at ih in
            rw q (omega (arith, eq, tally-append p (ev ∷ []) evs, tally-append p (ev ∷ []) es))
      ]

  load-hand_over :
      (o : Option (Event × List Event)) (r : Receiver)
      → Picked r.in_hand o
      → load p (hand_over o r).0 + tally p (hand_over o r).1 ≡ load p r
  unfolding hand_over
  load-hand_over none r h = omega arith
  load-hand_over (some (ev, rest)) r h = omega (arith, h)

  pub load-perform :
      (a : Action) (r : Receiver)
      → load p (perform a r).0 + tally p (perform a r).1 ≡ load p r + tally p (accepted_by a r)
  unfolding perform accepted_by receive leave
  load-perform (request body) r = omega (arith, load-handle body r)
  load-perform poll r = omega (arith, load-receive_from r.queue r.free r refl)
  load-perform (ingest_one n) r =
      omega (arith, load-hand_over (pick n r.in_hand) r (tally-pick n r.in_hand))
  load-perform cancel r = omega (arith, load-leave_from r.waiting r.free r)

-- Whatever the workers do and in whatever order, each event that was answered with 202 is ingested once
-- or is still in the queue or in a worker's hands: of the events that pass any test, as many have been
-- ingested or are in the receiver at the end as were in it at first or were accepted.
pub accepted_flow :
    (p : Event → Bool) (schedule : List Action) (r : Receiver)
    → load p (perform_all schedule r).0 + tally p (perform_all schedule r).1
      ≡ load p r + tally p (accepted_all schedule r)
unfolding perform_all accepted_all
accepted_flow p [] r = refl
accepted_flow p (a ∷ rest) r = omega (
  arith,
  load-perform p a r,
  accepted_flow p rest (perform a r).0,
  tally-append p (perform a r).1 (perform_all rest (perform a r).0).1,
  tally-append p (accepted_by a r) (accepted_all rest (perform a r).0),
)
