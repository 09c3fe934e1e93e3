-- ===== src/Witnesses/Core.antt =====
-- The theorems on the core as a whole at a run of it.
use argocd_notifier.Prelude.{ℕ, ◌+◌, ◌≡◌, refl, Bool, true, false, some, List, [], ◌∷◌}
use argocd_notifier.Prelude.Int.{pos}
use argocd_notifier.Text.{bytes}
use argocd_notifier.Event.{Event}
use argocd_notifier.Aggregator.Backends.{success, failure}
use argocd_notifier.Aggregator.Engine.{new_engine}
use argocd_notifier.Aggregator.Engine.Sessions.{tally, tally_batches}
use argocd_notifier.Aggregator.Engine.Owned.{IsOwnBatches}
use argocd_notifier.Aggregator.Session.{new_publisher}
use argocd_notifier.Aggregator.Session.WellFormed.{IsWellFormed}
use argocd_notifier.Http.{Request, new_writer, returned, post}
use argocd_notifier.Registry.{new_registry}
use argocd_notifier.Receiver
use argocd_notifier.Receiver.{new_receiver}
use argocd_notifier.Core.{
  Core, Program, boot, boot_with, queue_size, worker_count, Action, receiver_step, register_backend,
  wait, expire, run, perform_all, accepted_all,
}
use argocd_notifier.Core.Handover.{in_core, handover}
use argocd_notifier.Prelude.{◌++◌}
use argocd_notifier.Core.Drain.{core_drain}
use argocd_notifier.Core.Overlap
use argocd_notifier.Core.Overlap.{core_step, go_on, core_steps}
use argocd_notifier.Core.Overlap.Invariant.{overlapping}
use argocd_notifier.Core.Server.{Codec, serve, request_step, after_request, serve-after_request}
use argocd_notifier.Witnesses.Data.{created, deployed}
use argocd_notifier.Witnesses.Notification.{defaults}

-- The world outside counts nothing here: no backend can be reached.
abbrev pub program : Program ℕ
program = record {
  config = defaults;
  sha256 = λ s. s;
  format_time = λ t. bytes "t";
  quote = λ s. s;
  new_client = λ url. failure (bytes "no network");
}

abbrev pub new_core : Core ℕ
new_core = record {
  receiver = new_receiver 1024 4;
  engine = new_engine 100;
  publisher = new_publisher;
  registry = new_registry (pos 90);
  net = 0;
}

abbrev booted : Core ℕ
booted = record {
  receiver = new_receiver 1024 4;
  engine = new_engine 0;
  publisher = new_publisher;
  registry = new_registry defaults.backend_registry_ttl;
  net = 0;
}

boots : boot program.config 0 0 ≡ some booted
unfolding boot boot_with queue_size worker_count
boots = refl

abbrev every : Event → Bool
every ev = true

abbrev schedule : List Action
schedule =
    receiver_step Receiver.poll
    ∷ receiver_step (Receiver.request (success created))
    ∷ receiver_step (Receiver.request (success deployed))
    ∷ receiver_step (Receiver.ingest_one 0)
    ∷ register_backend (failure (bytes "eof"))
    ∷ wait 30000000000
    ∷ expire 1
    ∷ run 1
    ∷ []

handover_example :
    in_core every (perform_all program schedule booted).0
      + tally_batches every (perform_all program schedule booted).1
    ≡ in_core every booted + tally every (accepted_all program schedule booted)
handover_example = handover program every schedule booted

abbrev pub codec : Codec
codec = record {
  decode_event = λ limit body. success created;
  decode_registration = λ limit body.
      success (record {
        base_url = bytes "http://m";
        name = bytes "mail";
        supports_thread_reply = false;
      });
  event_errors = λ errs. bytes "missing";
  registration_errors = λ errs. bytes "missing";
}

abbrev pub event_request : Request
event_request = record { method = post; path = bytes "/events"; body = bytes "{}" }

serve-after_request_example :
    ((serve codec event_request (new_writer, booted)).0 ≡ returned)
    × ((serve codec event_request (new_writer, booted)).1.1
        ≡ after_request program (request_step codec event_request) booted)
serve-after_request_example = serve-after_request program codec event_request new_writer booted

-- Two callbacks, of which the second goes on between the steps of the first.
abbrev overlap : List Overlap.Action
overlap =
    core_step (receiver_step (Receiver.request (success created)))
    ∷ core_step (receiver_step (Receiver.ingest_one 0))
    ∷ core_step (wait 30000000000)
    ∷ core_step (expire 1)
    ∷ core_step (run 1)
    ∷ go_on 0
    ∷ go_on 0
    ∷ core_step (receiver_step (Receiver.request (success deployed)))
    ∷ core_step (receiver_step (Receiver.ingest_one 0))
    ∷ core_step (wait 30000000000)
    ∷ core_step (expire 3)
    ∷ core_step (run 3)
    ∷ go_on 1
    ∷ go_on 0
    ∷ go_on 1
    ∷ []

overlapping_example :
    let (o, out) =
      Overlap.perform_all program overlap (record { core = booted; goroutines = [] }) in
    IsOwnBatches out
    × (in_core every o.core + tally_batches every out
        ≡ in_core every booted + tally every (accepted_all program (core_steps overlap) booted))
    × IsWellFormed o.core.publisher
overlapping_example = overlapping program every 0 0 booted overlap boots

core_drain_example :
    (rest : List Action) × (accepted_all program rest (perform_all program schedule booted).0 ≡ [])
    × (in_core every (perform_all program (schedule ++ rest) booted).0 ≡ 0)
    × (tally_batches every (perform_all program (schedule ++ rest) booted).1
        ≡ tally every (accepted_all program schedule booted))
core_drain_example =
    core_drain program every 3 0 0 booted schedule boots refl
      (tt, (tt, (tt, (tt, (tt, (tt, (tt, (tt, tt))))))))
