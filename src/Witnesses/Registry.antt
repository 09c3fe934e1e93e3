-- ===== src/Witnesses/Registry.antt =====
-- The theorems on the registry at a history of three registrations.
use argocd_notifier.Prelude.{
  ◌≡◌, refl, true, false, List, [], ◌∷◌, none, some, if◌then◌else◌, arith,
}
use argocd_notifier.Prelude.Int.{pos}
use argocd_notifier.Text.{bytes, text_eq, is_empty}
use argocd_notifier.Aggregator.Clock.{is_stale}
use argocd_notifier.Registry.{Registry, register, find}
use argocd_notifier.Registry.History.{
  Registration, is_complete, latest, registry_after, find-latest,
}
use argocd_notifier.Event.{join_errors}
use argocd_notifier.Aggregator.Clock.{time_sub}
use argocd_notifier.Registry.{register_errors, register_valid, new_registry}
use argocd_notifier.SlackBackend.Registrar.{Registrar}

abbrev slack : Registration
slack = record {
  at = 5;
  name = bytes "slack";
  base_url = bytes "http://s/";
  supports_thread_reply = true;
}

abbrev mail : Registration
mail = record {
  at = 100;
  name = bytes "mail";
  base_url = bytes "http://m";
  supports_thread_reply = false;
}

abbrev history : List Registration
history = mail ∷ slack ∷ []

abbrev registry : Registry
registry = registry_after (pos 60) (slack ∷ [])

mail_complete : is_complete mail ≡ true
unfolding is_empty
mail_complete = refl

find-latest_example :
    find 120 (bytes "mail") (registry_after (pos 60) history)
    ≡ elim (latest (bytes "mail") history) [
      | none ↦ none
      | some b ↦ if is_stale 120 b.last_seen (pos 60) then none else some b
    ]
find-latest_example =
    find-latest (pos 60) 120 (bytes "mail") history (omega arith, (omega arith, tt))

abbrev registrar : Registrar
registrar = record {
  name = bytes "mail";
  base_url = bytes "http://m";
  supports_thread_reply = false;
  registered = true;
}

still_fresh : is_stale 120 100 registry.ttl ≡ false
unfolding is_stale time_sub register register_errors register_valid join_errors is_empty
    new_registry
still_fresh = refl
