-- ===== src/Receiver.antt =====
-- internal/receiver/handler.go: the webhook's handler, the queue behind it, and the workers that drain
-- the queue. The engine's `Ingest` is the consumer.
pub mod Flow
pub mod Complete
pub mod Drain
use argocd_notifier.Prelude.{
  pick, ℕ, suc, zero, ◌^◌, ltb, Option, none, some, List, [], ◌∷◌, ◌++◌, length, if◌then◌else◌,
}
use argocd_notifier.Text.{GoString}
use argocd_notifier.Event.{Event, ValidationError, validate}
use argocd_notifier.Aggregator.Backends.{Outcome, success, failure}

abbrev pub max_body_bytes : ℕ
max_body_bytes = 2 ^ 20

-- The channel and the goroutines at its other end: those that wait in a receive, those that are on
-- their way to one, and the events of those that are in `ingest`.
pub record Receiver : Type 0 where
  pub capacity : ℕ
  pub queue : List Event
  pub waiting : ℕ
  pub free : ℕ
  pub in_hand : List Event

-- NewHandler, and RunWorkers with n goroutines
unfoldable pub new_receiver : ℕ → ℕ → Receiver
new_receiver queue_size n = record {
  capacity = queue_size;
  queue = [];
  waiting = 0;
  free = n;
  in_hand = [];
}

-- The answers of the handler: 202, 400 for either of two reasons, and 503.
pub data Answer : Type 0 where
  accepted : Answer
  invalid_payload : GoString → Answer
  invalid_event : List ValidationError → Answer
  queue_full : Answer

-- `case h.ch <- ev` with a `default`: a receiver that waits gets the event at once, a buffer that has
-- room takes it, and otherwise the send is not ready.
unfoldable pub try_send : Event → ℕ → Receiver → Option Receiver
try_send ev (suc waiting) r = some (record r { waiting = waiting; in_hand = r.in_hand ++ ev ∷ [] })
try_send ev zero r =
    if ltb (length r.queue) r.capacity then some (record r { queue = r.queue ++ ev ∷ [] }) else none

unfoldable pub answer_send : Option Receiver → Receiver → Answer × Receiver
answer_send none r = (queue_full, r)
answer_send (some r') r = (accepted, r')

unfoldable pub handle_event : Event → Option (List ValidationError) → Receiver → Answer × Receiver
unfolding try_send answer_send
handle_event ev (some errs) r = (invalid_event errs, r)
handle_event ev none r = answer_send (try_send ev r.waiting r) r

-- `ServeHTTP`, behind the JSON decoder on the limited body
unfoldable pub handle : Outcome Event → Receiver → Answer × Receiver
unfolding handle_event
handle (failure e) r = (invalid_payload e, r)
handle (success ev) r = handle_event ev (validate ev) r

unfoldable pub serve_http :
    {Body : Type 0} → (ℕ → Body → Outcome Event) → Body → Receiver → Answer × Receiver
unfolding handle
serve_http decode body r = handle (decode max_body_bytes body) r

-- A worker comes to its `select`: it takes the first event of the queue, or waits for one.
unfoldable pub receive_from : List Event → ℕ → Receiver → Receiver
receive_from queue zero r = r
receive_from [] (suc free) r = record r { free = free; waiting = suc r.waiting }
receive_from (ev ∷ queue) (suc free) r = record r {
  free = free;
  queue = queue;
  in_hand = r.in_hand ++ ev ∷ [];
}

unfoldable pub receive : Receiver → Receiver
unfolding receive_from
receive r = receive_from r.queue r.free r

-- `ingest(ev)`: the worker hands its event over and goes back to the loop.
unfoldable pub hand_over : Option (Event × List Event) → Receiver → Receiver × List Event
hand_over none r = (r, [])
hand_over (some (ev, rest)) r = (record r { in_hand = rest; free = suc r.free }, ev ∷ [])

-- `case <-ctx.Done()`: a worker that waits, or one that comes to its `select`, ends.
unfoldable pub leave_from : ℕ → ℕ → Receiver → Receiver
leave_from (suc waiting) free r = record r { waiting = waiting }
leave_from zero (suc free) r = record r { free = free }
leave_from zero zero r = r

unfoldable pub leave : Receiver → Receiver
unfolding leave_from
leave r = leave_from r.waiting r.free r

pub data Action : Type 0 where
  request : Outcome Event → Action
  poll : Action
  ingest_one : ℕ → Action
  cancel : Action

-- The state behind an action, with the events that were ingested.
unfoldable pub perform : Action → Receiver → Receiver × List Event
unfolding handle receive hand_over leave pick
perform (request body) r = ((handle body r).1, [])
perform poll r = (receive r, [])
perform (ingest_one n) r = hand_over (pick n r.in_hand) r
perform cancel r = (leave r, [])

unfoldable pub perform_all : List Action → Receiver → Receiver × List Event
unfolding perform
perform_all [] r = (r, [])
perform_all (a ∷ rest) r =
    let (r', out) = perform a r in let (r'', out') = perform_all rest r' in (r'', out ++ out')

-- The events that the handler answered with 202.
unfoldable pub accepted_event : Outcome Event → Answer → List Event
accepted_event (success ev) accepted = ev ∷ []
accepted_event body answer = []

unfoldable pub accepted_by : Action → Receiver → List Event
unfolding accepted_event
accepted_by (request body) r = accepted_event body (handle body r).0
accepted_by poll r = []
accepted_by (ingest_one n) r = []
accepted_by cancel r = []

unfoldable pub accepted_all : List Action → Receiver → List Event
unfolding accepted_by
accepted_all [] r = []
accepted_all (a ∷ rest) r = accepted_by a r ++ accepted_all rest (perform a r).0
