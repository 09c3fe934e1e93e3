-- ===== src/SlackBackend/Registrar/OverHttp.antt =====
-- An attempt of the registrar, through the generated client and the core's server.
use argocd_notifier.Prelude.{ℕ, ◌≤◌, ◌≡◌, refl, true, false, some, [], nat_eq}
use argocd_notifier.Text.{GoString, str_eq, text_eq, bytes}
use argocd_notifier.Maps.{keys, Distinct}
use argocd_notifier.Aggregator.Clock.{Time, is_stale}
use argocd_notifier.Aggregator.Backends.{Outcome, success, failure, Call}
use argocd_notifier.Http.{
  new_writer, write_header, response_of, status_of, post, recovered, middleware, takes_method,
  serve_routes, serve_mux,
}
use argocd_notifier.Api.Routing.{wrap, operation, core_routes, core_handler, core_server}
use argocd_notifier.Api.Client.{
  ◌>>=◌, OutgoingRequest, Reply, Library, Client, new_request_with_body, checked_request,
  apply_editors, send, with_slash,
}
use argocd_notifier.Api.CoreClient.{
  RegisterBackendResponse, parse_register_backend_response, new_register_backend_request,
  register_backend_with_response,
}
use argocd_notifier.Api.Transport.{delivered, parsed, Reaches}
use argocd_notifier.Registry.{find}
use argocd_notifier.Registry.Handler.{
  RegisterBackendRequest, register_backend, max_body_bytes, no_content, register_request,
}
use argocd_notifier.Registry.History.{is_complete, backend_of}
use argocd_notifier.Core.{Core}
use argocd_notifier.Core.Server.{Codec, serve, registration_handler, write_registration_answer}
use argocd_notifier.SlackBackend.Registrar.{
  Registrar, request_of, note_status, register, has_registered,
}
use argocd_notifier.SlackBackend.Registrar.Heartbeat.{registration_at, heartbeat_found}

-- What the registrar reads of the client's response.
unfoldable pub status_code : {W : Type 0} → Outcome RegisterBackendResponse × W → Outcome ℕ × W
status_code (failure e, w) = (failure e, w)
status_code (success resp, w) = (success resp.status_code, w)

-- The client that NewRegistrar builds for the core's address.
abbrev pub core_client : {W : Type 0} → (OutgoingRequest → Call W Reply) → GoString → Client W
core_client doer core_url = record {
  server = with_slash core_url;
  doer = some doer;
  request_editors = [];
}

module _ {Net : Type 0} (codec : Codec) where
  serve-registration :
      (body : GoString) (c : Core Net)
      → serve codec
          (record { method = post; path = bytes "/v1/backends/register"; body = body })
          (new_writer, c)
        ≡ registration_handler codec
            (record { method = post; path = bytes "/v1/backends/register"; body = body })
            (new_writer, c)
  unfolding serve middleware core_handler core_server serve_mux serve_routes core_routes operation
      wrap takes_method str_eq registration_handler recovered
  serve-registration body c = refl

module _ {Net Url : Type 0} (lib : Library Url)
    (marshal : RegisterBackendRequest → Outcome GoString)
    (doer : OutgoingRequest → Call (Core Net) Reply) (codec : Codec) (core_url : GoString) where
  -- The answer of the core's endpoint, as the registrar gets it.
  abbrev pub post_registration : RegisterBackendRequest → Call (Core Net) ℕ
  post_registration req c =
      status_code (register_backend_with_response lib marshal (core_client doer core_url) req c)

  sent_registration :
      (req : RegisterBackendRequest) (body : GoString) (c : Core Net)
      → Reaches lib doer (serve codec) core_url (bytes "/v1/backends/register")
      → marshal req ≡ success body
      → register_backend_with_response lib marshal (core_client doer core_url) req c
        ≡ parsed parse_register_backend_response (
            delivered (
              serve codec
                (record { method = post; path = bytes "/v1/backends/register"; body = body })
                (new_writer, c)))
  unfolding register_backend_with_response send new_register_backend_request new_request_with_body
      checked_request apply_editors ◌>>=◌
  sent_registration req body c r m = rw (m, r.parses, r.refers, r.accepts, r.carries body c) refl

  -- An attempt, where the core answers 204 to it.
  registered_lem :
      (req : RegisterBackendRequest) (body : GoString) (c : Core Net)
      → Reaches lib doer (serve codec) core_url (bytes "/v1/backends/register")
      → marshal req ≡ success body
      → codec.decode_registration max_body_bytes body ≡ success req
      → (register_request c.engine.clock.now (success req) c.registry).0 ≡ no_content
      → post_registration req c ≡ (
        success 204,
        record c { registry = (register_request c.engine.clock.now (success req) c.registry).1 },
      )
  unfolding registration_handler write_registration_answer write_header response_of status_of
      parse_register_backend_response ◌>>=◌ register_backend status_code
  registered_lem req body c reaches written read done =
      rw (sent_registration req body c reaches written, serve-registration codec body c, read, done)
        refl

  -- An attempt of a registrar with a name and an address, through the generated client, the network, and
  -- the core's routes and endpoint, leaves the backend registered on its own side, and the core finds it
  -- under its name, with its address, from then on until the TTL of its registry runs out.
  pub heartbeat_over_http :
      (r : Registrar) (body : GoString) (c : Core Net) (later : Time)
      → Reaches lib doer (serve codec) core_url (bytes "/v1/backends/register")
      → marshal (request_of r) ≡ success body
      → codec.decode_registration max_body_bytes body ≡ success (request_of r)
      → is_complete (registration_at c.engine.clock.now r) ≡ true
      → Distinct (keys c.registry.backends)
      → c.engine.clock.now ≤ later
      → is_stale later c.engine.clock.now c.registry.ttl ≡ false
      → (has_registered (register post_registration r c).0 ≡ true)
        × (find later r.name (register post_registration r c).1.registry
            ≡ some (backend_of (registration_at c.engine.clock.now r)))
  unfolding register has_registered note_status
  heartbeat_over_http r body c later reaches written read ok d le fresh =
      let k = heartbeat_found r c.registry c.engine.clock.now later ok d le fresh in
      let sent = registered_lem (request_of r) body c reaches written read k.0 in
      rw sent (refl, k.1)
