-- ===== src/Config/Valid.antt =====
-- What `Config.Validate` accepts.
use argocd_notifier.Prelude.{
  ◌≡◌, ◌≢◌, ◌↔◌, ◌⊎◌, inl, inr, refl, Bool, true, false, ◌&&◌, ap, Option, none, some, List, [],
  ◌∷◌, arith, ◌==◌, if◌then◌else◌,
}
use argocd_notifier.Prelude.Int.{pos, ltb_ℤ}
use argocd_notifier.Text.{GoString, text_eq, bytes, is_empty, is_empty_iff, str_eq_iff, to_lower}
use argocd_notifier.Event.{join_errors}
use argocd_notifier.Aggregator.Clock.{Duration}
use argocd_notifier.Aggregator.Backends.{Outcome, success}
use argocd_notifier.Config.{
  ConfigError, Config, check, at_least, is_neither, check_windows, check_leader, check_rest,
  validation_errors, validate, loaded, with_pod_name, checked, load,
}

-- One of two words, in any case.
abbrev pub IsOneOf : GoString → GoString → GoString → Type 0
IsOneOf a b s = (to_lower s ≡ a) ⊎ (to_lower s ≡ b)

pub record WindowsFit (c : Config) : Type 0 where
  pub idle_in_wait : ltb_ℤ c.idle_window c.max_wait ≡ true
  pub wait_in_session : ltb_ℤ c.max_wait c.session_ttl ≡ true
  pub log_format : IsOneOf (bytes "json") (bytes "text") c.log_format
  pub duplicate_action : IsOneOf (bytes "drop") (bytes "thread") c.duplicate_action

pub record LeaderFits (c : Config) : Type 0 where
  pub has_namespace : c.leader_election_namespace ≢ []
  pub deadline_in_lease : ltb_ℤ c.renew_deadline c.lease_duration ≡ true
  pub retry_in_deadline : ltb_ℤ c.retry_period c.renew_deadline ≡ true
  pub has_pod_namespace : c.pod_namespace ≢ []

pub record RestFits (c : Config) : Type 0 where
  pub proxy_timeout : ltb_ℤ (pos 0) c.leader_proxy_request_timeout ≡ true
  pub own_pprof : (c.pprof_enabled ≡ false) ⊎ (c.pprof_addr ≢ c.listen_addr)
  pub registry_ttl : ltb_ℤ (pos 0) c.backend_registry_ttl ≡ true
  pub backend_timeout : ltb_ℤ (pos 0) c.remote_backend_request_timeout ≡ true

check-nil :
    (bad : Bool) (err : ConfigError) (errs : List ConfigError)
    → (check bad err errs ≡ []) ↔ ((errs ≡ []) × (bad ≡ false))
unfolding check
check-nil bad err [] = ground arith
check-nil bad err (e ∷ errs) = ground arith

is_neither-IsOneOf : (a b s : GoString) → (is_neither a b s ≡ false) ↔ IsOneOf a b s
unfolding is_neither
is_neither-IsOneOf a b s = ground (arith, str_eq_iff (to_lower s) a, str_eq_iff (to_lower s) b)

-- Four checks in a row.
four-nil :
    (b1 b2 b3 b4 : Bool) (e1 e2 e3 e4 : ConfigError) (errs : List ConfigError)
    → (check b4 e4 (check b3 e3 (check b2 e2 (check b1 e1 errs))) ≡ [])
      ↔ ((errs ≡ []) × (b1 ≡ false) × (b2 ≡ false) × (b3 ≡ false) × (b4 ≡ false))
four-nil b1 b2 b3 b4 e1 e2 e3 e4 errs = ground (
  arith,
  check-nil b1 e1 errs,
  check-nil b2 e2 (check b1 e1 errs),
  check-nil b3 e3 (check b2 e2 (check b1 e1 errs)),
  check-nil b4 e4 (check b3 e3 (check b2 e2 (check b1 e1 errs))),
)

at_least-false : (a b : Duration) → (at_least a b ≡ false) ↔ (ltb_ℤ a b ≡ true)
at_least-false a b = ground arith

check_windows-nil :
    (c : Config) (errs : List ConfigError)
    → (check_windows c errs ≡ []) ↔ ((errs ≡ []) × WindowsFit c)
unfolding check_windows
check_windows-nil c errs =
    let four =
      four-nil (at_least c.idle_window c.max_wait) (at_least c.max_wait c.session_ttl)
        (is_neither (bytes "json") (bytes "text") c.log_format)
        (is_neither (bytes "drop") (bytes "thread") c.duplicate_action) _ _ _ _ errs in
    let w = at_least-false c.idle_window c.max_wait in
    let s = at_least-false c.max_wait c.session_ttl in
    let f = is_neither-IsOneOf (bytes "json") (bytes "text") c.log_format in
    let d = is_neither-IsOneOf (bytes "drop") (bytes "thread") c.duplicate_action in
    (
      λ h.
          let (nil, b1, b2, b3, b4) = four.0 h in
          (
            nil,
            record {
              idle_in_wait = w.0 b1;
              wait_in_session = s.0 b2;
              log_format = f.0 b3;
              duplicate_action = d.0 b4;
            },
          ),
      λ h. four.1 (
        h.0,
        w.1 h.1.idle_in_wait,
        s.1 h.1.wait_in_session,
        f.1 h.1.log_format,
        d.1 h.1.duplicate_action,
      ),
    )

is_empty-false : (s : GoString) → (is_empty s ≡ false) ↔ (s ≢ [])
is_empty-false s = ground (arith, is_empty_iff s)

check_leader-nil :
    (c : Config) (errs : List ConfigError)
    → (check_leader c errs ≡ []) ↔ ((errs ≡ []) × LeaderFits c)
unfolding check_leader
check_leader-nil c errs =
    let four =
      four-nil (is_empty c.leader_election_namespace) (at_least c.renew_deadline c.lease_duration)
        (at_least c.retry_period c.renew_deadline) (is_empty c.pod_namespace) _ _ _ _ errs in
    let n = is_empty-false c.leader_election_namespace in
    let l = at_least-false c.renew_deadline c.lease_duration in
    let r = at_least-false c.retry_period c.renew_deadline in
    let p = is_empty-false c.pod_namespace in
    (
      λ h.
          let (nil, b1, b2, b3, b4) = four.0 h in
          (
            nil,
            record {
              has_namespace = n.0 b1;
              deadline_in_lease = l.0 b2;
              retry_in_deadline = r.0 b3;
              has_pod_namespace = p.0 b4;
            },
          ),
      λ h. four.1 (
        h.0,
        n.1 h.1.has_namespace,
        l.1 h.1.deadline_in_lease,
        r.1 h.1.retry_in_deadline,
        p.1 h.1.has_pod_namespace,
      ),
    )

own_pprof_lem :
    (c : Config)
    → ((c.pprof_enabled && (c.pprof_addr == c.listen_addr)) ≡ false)
      ↔ ((c.pprof_enabled ≡ false) ⊎ (c.pprof_addr ≢ c.listen_addr))
own_pprof_lem c = ground (arith, str_eq_iff c.pprof_addr c.listen_addr)

check_rest-nil :
    (c : Config) (errs : List ConfigError) → (check_rest c errs ≡ []) ↔ ((errs ≡ []) × RestFits c)
unfolding check_rest
check_rest-nil c errs =
    let four =
      four-nil (at_least (pos 0) c.leader_proxy_request_timeout)
        (c.pprof_enabled && (c.pprof_addr == c.listen_addr))
        (at_least (pos 0) c.backend_registry_ttl)
        (at_least (pos 0) c.remote_backend_request_timeout) _ _ _ _ errs in
    let t = at_least-false (pos 0) c.leader_proxy_request_timeout in
    let o = own_pprof_lem c in
    let r = at_least-false (pos 0) c.backend_registry_ttl in
    let b = at_least-false (pos 0) c.remote_backend_request_timeout in
    (
      λ h.
          let (nil, b1, b2, b3, b4) = four.0 h in
          (
            nil,
            record {
              proxy_timeout = t.0 b1;
              own_pprof = o.0 b2;
              registry_ttl = r.0 b3;
              backend_timeout = b.0 b4;
            },
          ),
      λ h. four.1 (
        h.0,
        t.1 h.1.proxy_timeout,
        o.1 h.1.own_pprof,
        r.1 h.1.registry_ttl,
        b.1 h.1.backend_timeout,
      ),
    )

pub record IsValid (c : Config) : Type 0 where
  pub windows : WindowsFit c
  pub leader : (c.leader_election_enabled ≡ false) ⊎ LeaderFits c
  pub rest : RestFits c

join_errors-none : (errs : List ConfigError) → (join_errors errs ≡ none) ↔ (errs ≡ [])
unfolding join_errors
join_errors-none [] = ground arith
join_errors-none (e ∷ errs) = ground arith

optional-nil :
    {P : Type 0} (enabled : Bool) (checked errs : List ConfigError)
    → ((checked ≡ []) ↔ ((errs ≡ []) × P))
    → ((if enabled then checked else errs) ≡ []) ↔ ((errs ≡ []) × ((enabled ≡ false) ⊎ P))
optional-nil false checked errs k = (λ h. (h, inl refl), λ h. h.0)
optional-nil true checked errs k = (
  λ h. let r = k.0 h in (r.0, inr r.1),
  λ h. elim h.1 [ inl off ↦ absurd (ground (arith, off)) | inr fits ↦ k.1 (h.0, fits) ],
)

leader-nil :
    (c : Config) (errs : List ConfigError)
    → ((if c.leader_election_enabled then check_leader c errs else errs) ≡ [])
      ↔ ((errs ≡ []) × ((c.leader_election_enabled ≡ false) ⊎ LeaderFits c))
leader-nil c errs =
    optional-nil c.leader_election_enabled (check_leader c errs) errs (check_leader-nil c errs)

-- `Validate` returns no error exactly when the idle window is shorter than the longest wait, and that
-- shorter than the session's TTL; the log format and the action on duplicates are one of two words in
-- any case; the settings of leader election fit, if that is enabled; the timeouts and the registry's
-- TTL are positive; and the profiler, if it is enabled, has an address of its own.
pub validate_iff-IsValid : (c : Config) → (validate c ≡ none) ↔ IsValid c
unfolding validate validation_errors
validate_iff-IsValid c =
    let w : List ConfigError = check_windows c [] in
    let l : List ConfigError = if c.leader_election_enabled then check_leader c w else w in
    let j = join_errors-none (check_rest c l) in
    (
      λ h.
          let r = (check_rest-nil c l).0 (j.0 h) in
          let m = (leader-nil c w).0 r.0 in
          record { windows = ((check_windows-nil c []).0 m.0).1; leader = m.1; rest = r.1 },
      λ h. j.1 (
          (check_rest-nil c l).1
            ((leader-nil c w).1 ((check_windows-nil c []).1 (refl, h.windows), h.leader), h.rest)),
    )

checked-loaded :
    (c d : Config) (r : Option (List ConfigError))
    → (checked c r ≡ loaded d) ↔ ((c ≡ d) × (r ≡ none))
unfolding checked
checked-loaded c d none = (λ h. (cc h, refl), λ h. ap loaded h.0)
checked-loaded c d (some errs) = ground arith

-- `Load` succeeds, where the environment can be processed, exactly with the configuration that was read,
-- with the host's name for the pod's if that is not set and the host has one, and only if that is valid:
-- the idle window is shorter than the longest wait, and that shorter than the session's TTL; the log
-- format and the action on duplicates are one of two words in any case; the settings of leader election
-- fit, if that is enabled; the timeouts and the registry's TTL are positive; and the profiler, if it is
-- enabled, has an address of its own.
pub load_iff-IsValid :
    (hostname : Outcome GoString) (c d : Config)
    → (load hostname (success c) ≡ loaded d)
      ↔ ((with_pod_name hostname c ≡ d) × IsValid (with_pod_name hostname c))
unfolding load
load_iff-IsValid hostname c d =
    let e = checked-loaded (with_pod_name hostname c) d (validate (with_pod_name hostname c)) in
    let v = validate_iff-IsValid (with_pod_name hostname c) in
    (λ h. let k = e.0 h in (k.0, v.0 k.1), λ h. e.1 (h.0, v.1 h.1))
