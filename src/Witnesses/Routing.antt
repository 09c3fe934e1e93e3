-- ===== src/Witnesses/Routing.antt =====
-- The theorems on recipients and content hashes at examples.
use argocd_notifier.Prelude.{◌≡◌, refl, [], ◌∷◌, none, arith, ne_of_==}
use argocd_notifier.Text.{GoString, bytes, text_eq, str_eq}
use argocd_notifier.Maps.{GoMap, lookup, Distinct, keys}
use argocd_notifier.Event.{Event}
use argocd_notifier.Aggregator.Content.{SameFields, NoBar, content, content-SameFields}
use argocd_notifier.Aggregator.Recipients.{group_apps}
use argocd_notifier.Aggregator.Recipients.Routing.{group_apps-entry, entry, addressed_event}
use argocd_notifier.Witnesses.Data.{created, deployed, channel}

abbrev apps : GoMap GoString Event
apps = (bytes "x", created) ∷ (bytes "y", deployed) ∷ []

apps-Distinct : Distinct (keys apps)
unfolding str_eq
apps-Distinct = ((ne_of_== (bytes "y") (bytes "x") refl, tt), (tt, tt))

group_apps-entry_example :
    entry channel (bytes "x") (group_apps apps)
    ≡ addressed_event channel (lookup (bytes "x") apps) none
group_apps-entry_example = group_apps-entry channel (bytes "x") apps apps-Distinct

abbrev changed_labels : Event
changed_labels = record created { labels = (bytes "k", bytes "v") ∷ [] }

NoBar-trigger : NoBar created.trigger
NoBar-trigger = ground arith

NoBar-revision : NoBar created.revision
NoBar-revision = ground arith

NoBar-phase : NoBar created.sync_phase
NoBar-phase = ground arith

content-SameFields_example : SameFields created changed_labels
unfolding content
content-SameFields_example =
    content-SameFields created changed_labels NoBar-trigger NoBar-trigger NoBar-revision
      NoBar-revision NoBar-phase NoBar-phase tt tt refl
