-- ===== src/Registry/Handler.antt =====
-- internal/registry/handler.go: the endpoint where backends register.
use argocd_notifier.Prelude.{ℕ, ◌^◌, Bool, Option, none, some, List}
use argocd_notifier.Text.{GoString}
use argocd_notifier.Aggregator.Clock.{Time}
use argocd_notifier.Aggregator.Backends.{Outcome, success, failure}
use argocd_notifier.Registry.{RegisterError, Registry, register}

-- api/core: the request
pub record RegisterBackendRequest : Type 0 where
  pub base_url : GoString
  pub name : GoString
  pub supports_thread_reply : Bool

abbrev pub max_body_bytes : ℕ
max_body_bytes = 2 ^ 20

-- 204, and 400 for either of two reasons
pub data Answer : Type 0 where
  no_content : Answer
  invalid_payload : GoString → Answer
  invalid_registration : List RegisterError → Answer

unfoldable pub answer_register : (Bool × Option (List RegisterError)) × Registry → Answer × Registry
answer_register ((fresh, some errs), r) = (invalid_registration errs, r)
answer_register ((fresh, none), r) = (no_content, r)

unfoldable pub register_request :
    Time → Outcome RegisterBackendRequest → Registry → Answer × Registry
unfolding answer_register
register_request now (failure e) r = (invalid_payload e, r)
register_request now (success req) r =
    answer_register (register now req.name req.base_url req.supports_thread_reply r)

-- `RegisterBackend`, with the JSON decoder on the limited body
unfoldable pub register_backend :
    {Body : Type 0}
    → (ℕ → Body → Outcome RegisterBackendRequest)
    → Time
    → Body
    → Registry
    → Answer × Registry
unfolding register_request
register_backend decode now body r = register_request now (decode max_body_bytes body) r
