-- ===== src/Api/CoreClient.antt =====
-- api/core/core.gen.go: the generated client with which a backend registers in the core. The code that
-- it shares with the client of the backends, line by line, is that of Api/Client.
use argocd_notifier.Prelude.{ℕ}
use argocd_notifier.Text.{GoString, bytes}
use argocd_notifier.Aggregator.Backends.{Outcome, success, Call}
use argocd_notifier.Registry.Handler.{RegisterBackendRequest}
use argocd_notifier.Api.Client.{
  ◌>>=◌, OutgoingRequest, Reply, Library, Client, new_request_with_body, apply_editors, send,
}

pub record RegisterBackendResponse : Type 0 where
  pub status_code : ℕ
  pub body : GoString

-- `ParseRegisterBackendResponse`
unfoldable pub parse_register_backend_response : Reply → Outcome RegisterBackendResponse
unfolding ◌>>=◌
parse_register_backend_response rsp =
    rsp.body >>= λ body. success (record { status_code = rsp.status_code; body = body })

module _ {Url : Type 0} (lib : Library Url)
    (marshal : RegisterBackendRequest → Outcome GoString) where
  unfoldable pub new_register_backend_request :
      GoString → RegisterBackendRequest → Outcome OutgoingRequest
  unfolding new_request_with_body ◌>>=◌
  new_register_backend_request server body =
      marshal body
      >>= new_request_with_body lib (bytes "/v1/backends/register") server
          (bytes "application/json")

  unfoldable pub register_backend_with_response :
      {W : Type 0} → Client W → RegisterBackendRequest → Call W RegisterBackendResponse
  unfolding send new_register_backend_request apply_editors parse_register_backend_response ◌>>=◌
  register_backend_with_response c body w =
      send lib parse_register_backend_response c.doer
        (new_register_backend_request c.server body >>= apply_editors c.request_editors) w
