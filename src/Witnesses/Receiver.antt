-- ===== src/Witnesses/Receiver.antt =====
-- The theorems on the receiver at a short schedule.
use argocd_notifier.Prelude.{◌≤◌, List, [], ◌∷◌, length, All}
use argocd_notifier.Text.{bytes}
use argocd_notifier.Event.Laws.{IsComplete}
use argocd_notifier.Aggregator.Backends.{success, failure}
use argocd_notifier.Receiver.{Action, request, poll, ingest_one, cancel, perform_all, new_receiver}
use argocd_notifier.Receiver.Complete.{ingested-IsComplete}
use argocd_notifier.Witnesses.Data.{created, deployed}

abbrev schedule : List Action
schedule =
    poll
    ∷ request (success created)
    ∷ request (success deployed)
    ∷ request (success (record deployed { revision = [] }))
    ∷ request (failure (bytes "eof"))
    ∷ ingest_one 0
    ∷ poll
    ∷ ingest_one 0
    ∷ cancel
    ∷ []

ingested-IsComplete_example :
    (length (perform_all schedule (new_receiver 1 1)).0.queue ≤ 1)
    × All IsComplete (perform_all schedule (new_receiver 1 1)).1
ingested-IsComplete_example = ingested-IsComplete 1 1 schedule
