-- ===== src/Config.antt =====
-- internal/config/config.go: the configuration of the core, and the checks on it.
pub mod Valid
use argocd_notifier.Prelude.{
  Bool, ◌&&◌, ◌||◌, not, Option, none, some, List, [], ◌∷◌, ◌++◌, ◌==◌, if◌then◌else◌,
}
use argocd_notifier.Prelude.Int.{ℤ, pos, ltb_ℤ}
use argocd_notifier.Text.{GoString, text_eq, bytes, is_empty, to_lower}
use argocd_notifier.Event.{join_errors}
use argocd_notifier.Aggregator.Clock.{Duration}
use argocd_notifier.Aggregator.Backends.{Outcome, success, failure}

pub data ConfigError : Type 0 where
  idle_window_too_long max_wait_too_long : ConfigError
  invalid_log_format invalid_duplicate_action : ConfigError
  missing_leader_election_namespace lease_duration_too_short : ConfigError
  renew_deadline_too_short missing_pod_namespace : ConfigError
  invalid_leader_proxy_timeout pprof_addr_conflict : ConfigError
  invalid_backend_registry_ttl invalid_remote_backend_timeout : ConfigError

pub record Config : Type 0 where
  pub listen_addr : GoString
  pub ingest_queue_size : ℤ
  pub worker_count : ℤ
  pub group_label : GoString
  pub idle_window : Duration
  pub max_wait : Duration
  pub combine_triggers : Bool
  pub session_ttl : Duration
  pub duplicate_action : GoString
  pub backend_registry_ttl : Duration
  pub remote_backend_request_timeout : Duration
  pub log_level : GoString
  pub log_format : GoString
  pub leader_election_enabled : Bool
  pub leader_election_namespace : GoString
  pub lease_name : GoString
  pub lease_duration : Duration
  pub renew_deadline : Duration
  pub retry_period : Duration
  pub pod_name : GoString
  pub pod_namespace : GoString
  pub leader_proxy_request_timeout : Duration
  pub pprof_enabled : Bool
  pub pprof_addr : GoString

-- `if bad { errs = append(errs, err) }`
unfoldable pub check : Bool → ConfigError → List ConfigError → List ConfigError
check bad err errs = if bad then errs ++ err ∷ [] else errs

-- a >= b
abbrev pub at_least : Duration → Duration → Bool
at_least a b = not (ltb_ℤ a b)

-- `switch strings.ToLower(s)` with two good cases
unfoldable pub is_neither : GoString → GoString → GoString → Bool
is_neither a b s = not ((to_lower s == a) || (to_lower s == b))

-- The checks of the times and of the two choices.
unfoldable pub check_windows : Config → List ConfigError → List ConfigError
unfolding check is_neither
check_windows c errs =
    let errs = check (at_least c.idle_window c.max_wait) idle_window_too_long errs in
    let errs = check (at_least c.max_wait c.session_ttl) max_wait_too_long errs in
    let errs =
      check (is_neither (bytes "json") (bytes "text") c.log_format) invalid_log_format errs in
    check (is_neither (bytes "drop") (bytes "thread") c.duplicate_action) invalid_duplicate_action
      errs

-- The checks behind `if c.LeaderElectionEnabled`.
unfoldable pub check_leader : Config → List ConfigError → List ConfigError
unfolding check
check_leader c errs =
    let errs =
      check (is_empty c.leader_election_namespace) missing_leader_election_namespace errs in
    let errs = check (at_least c.renew_deadline c.lease_duration) lease_duration_too_short errs in
    let errs = check (at_least c.retry_period c.renew_deadline) renew_deadline_too_short errs in
    check (is_empty c.pod_namespace) missing_pod_namespace errs

unfoldable pub check_rest : Config → List ConfigError → List ConfigError
unfolding check
check_rest c errs =
    let errs =
      check (at_least (pos 0) c.leader_proxy_request_timeout) invalid_leader_proxy_timeout errs in
    let errs =
      check (c.pprof_enabled && (c.pprof_addr == c.listen_addr)) pprof_addr_conflict errs in
    let errs = check (at_least (pos 0) c.backend_registry_ttl) invalid_backend_registry_ttl errs in
    check (at_least (pos 0) c.remote_backend_request_timeout) invalid_remote_backend_timeout errs

unfoldable pub validation_errors : Config → List ConfigError
unfolding check_windows check_leader check_rest
validation_errors c =
    let errs = check_windows c [] in
    check_rest c (if c.leader_election_enabled then check_leader c errs else errs)

unfoldable pub validate : Config → Option (List ConfigError)
unfolding join_errors validation_errors
validate c = join_errors (validation_errors c)

pub data Loaded : Type 0 where
  loaded : Config → Loaded
  not_processed : GoString → Loaded
  refused : List ConfigError → Loaded

-- The pod's name is the host's, if it is not set and the host has one.
unfoldable pub with_pod_name : Outcome GoString → Config → Config
with_pod_name (failure e) c = c
with_pod_name (success hostname) c =
    if is_empty c.pod_name then record c { pod_name = hostname } else c

unfoldable pub checked : Config → Option (List ConfigError) → Loaded
checked c none = loaded c
checked c (some errs) = refused errs

-- `Load`, behind what envconfig makes of the environment
unfoldable pub load : Outcome GoString → Outcome Config → Loaded
unfolding with_pod_name checked validate
load hostname (failure e) = not_processed e
load hostname (success c) = let c' = with_pod_name hostname c in checked c' (validate c')
