-- ===== src/SlackBackend/Config.antt =====
-- internal/slackbackend/config.go: the configuration of the Slack backend, and the checks on it.
use argocd_notifier.Prelude.{
  ◌≡◌, ◌↔◌, Bool, true, Option, none, some, arith, if◌then◌else◌, ap, refl,
}
use argocd_notifier.Prelude.Int.{ℤ, pos, ltb_ℤ}
use argocd_notifier.Text.{GoString}
use argocd_notifier.Aggregator.Clock.{Duration}
use argocd_notifier.Aggregator.Backends.{Outcome, success, failure}
use argocd_notifier.Config.{at_least}

pub data ConfigError : Type 0 where
  invalid_register_interval : ConfigError
  invalid_message_template_reload_interval : ConfigError
  not_processed : GoString → ConfigError

pub record Config : Type 0 where
  pub slack_bot_token : GoString
  pub slack_request_timeout : Duration
  pub slack_max_retries : ℤ
  pub listen_addr : GoString
  pub core_url : GoString
  pub public_base_url : GoString
  pub backend_name : GoString
  pub register_interval : Duration
  pub message_template_path : GoString
  pub message_template_reload_interval : Duration
  pub message_template_fallback_to_default : Bool
  pub log_level : GoString
  pub log_format : GoString

-- `d <= 0` is an error.
unfoldable pub validate : Config → Option ConfigError
validate c =
    if at_least (pos 0) c.register_interval
    then some invalid_register_interval
    else if at_least (pos 0) c.message_template_reload_interval
    then some invalid_message_template_reload_interval
    else none

pub data Loaded : Type 0 where
  loaded : Config → Loaded
  refused : ConfigError → Loaded

unfoldable pub checked : Config → Option ConfigError → Loaded
checked c none = loaded c
checked c (some e) = refused e

-- `Load`, behind what envconfig makes of the environment
unfoldable pub load : Outcome Config → Loaded
unfolding checked validate
load (failure e) = refused (not_processed e)
load (success c) = checked c (validate c)

checked-loaded :
    (c d : Config) (e : Option ConfigError) → (checked c e ≡ loaded d) ↔ ((c ≡ d) × (e ≡ none))
unfolding checked
checked-loaded c d none = (λ h. (cc h, refl), λ h. ap loaded h.0)
checked-loaded c d (some e) = ground arith

-- `Load` succeeds exactly with the configuration that was read, and only where the heartbeat's interval
-- and the interval of the template's reloads are positive: the tickers that are made from them do not
-- panic.
pub load_iff :
    (c d : Config)
    → (load (success c) ≡ loaded d) ↔ (
        (c ≡ d)
        × (ltb_ℤ (pos 0) c.register_interval ≡ true)
        × (ltb_ℤ (pos 0) c.message_template_reload_interval ≡ true))
unfolding load validate
load_iff c d = ground (arith, checked-loaded c d (validate c))
