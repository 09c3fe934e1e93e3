-- ===== src/SlackBackend/Registrar.antt =====
-- internal/slackbackend/registrar.go: the heartbeat with which a backend registers in the core.
pub mod Heartbeat
pub mod OverHttp
use argocd_notifier.Prelude.{ℕ, Bool, true, false, List, [], ◌∷◌, ◌==◌, nat_eq, if◌then◌else◌}
use argocd_notifier.Text.{GoString}
use argocd_notifier.Aggregator.Backends.{Outcome, success, failure, Call}
use argocd_notifier.Registry.Handler.{RegisterBackendRequest}

-- The generated client of the core is a parameter: a request, and the status of the answer.
pub record Registrar : Type 0 where
  pub name : GoString
  pub base_url : GoString
  pub supports_thread_reply : Bool
  pub registered : Bool

unfoldable pub new_registrar : GoString → GoString → Bool → Registrar
new_registrar name base_url supports_thread_reply = record {
  name = name;
  base_url = base_url;
  supports_thread_reply = supports_thread_reply;
  registered = false;
}

-- `HasRegistered`
unfoldable pub has_registered : Registrar → Bool
has_registered r = r.registered

abbrev pub request_of : Registrar → RegisterBackendRequest
request_of r = record {
  name = r.name;
  base_url = r.base_url;
  supports_thread_reply = r.supports_thread_reply;
}

unfoldable pub note_status : Registrar → Outcome ℕ → Registrar
note_status r (failure e) = r
note_status r (success status) = if status == 204 then record r { registered = true } else r

-- `register`
unfoldable pub register :
    {W : Type 0} → (RegisterBackendRequest → Call W ℕ) → Registrar → W → Registrar × W
unfolding note_status
register post r w = let (out, w') = post (request_of r) w in (note_status r out, w')

-- `Run`: an attempt at first and one at each tick, up to the end of the context. What happens in the
-- world between two attempts is the function that goes with a tick.
unfoldable pub run :
    {W : Type 0}
    → (RegisterBackendRequest → Call W ℕ)
    → List (W → W)
    → Registrar × W
    → Registrar × W
unfolding register
run post [] (r, w) = register post r w
run post (between ∷ ticks) (r, w) =
    let (r', w') = register post r w in run post ticks (r', between w')
