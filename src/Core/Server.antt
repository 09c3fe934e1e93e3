-- ===== src/Core/Server.antt =====
-- cmd/argocd-notifier/main.go and server.go: the core behind its HTTP server, without leader election.
use argocd_notifier.Prelude.{
  ◌≡◌, refl, Bool, true, false, ◌&&◌, ◌||◌, Option, none, some, ℕ, List, ◌++◌, arith, ◌==◌,
  if◌then◌else◌,
}
use argocd_notifier.Text.{GoString, text_eq, bytes, str_eq, str_eq_iff}
use argocd_notifier.Event.{Event, ValidationError}
use argocd_notifier.Aggregator.Backends.{Outcome}
use argocd_notifier.Http.{
  Request, Writer, Ran, returned, Handler, get, post, set_content_type, write_header, write,
  http_error, recovered, middleware, takes_method, refuse, serve_routes, serve_mux, healthz_handler,
  readyz_handler,
}
use argocd_notifier.Api.Routing.{wrap, operation, core_routes, core_handler, core_server}
use argocd_notifier.Registry
use argocd_notifier.Registry.{RegisterError}
use argocd_notifier.Registry.Handler
use argocd_notifier.Registry.Handler.{RegisterBackendRequest, register_backend}
use argocd_notifier.Receiver
use argocd_notifier.Core
use argocd_notifier.Core.{World, Core, Program, perform}

-- What the bodies are read by, and the texts of the errors.
pub record Codec : Type 0 where
  pub decode_event : ℕ → GoString → Outcome Event
  pub decode_registration : ℕ → GoString → Outcome RegisterBackendRequest
  pub event_errors : List ValidationError → GoString
  pub registration_errors : List RegisterError → GoString

module _ (codec : Codec) where
  unfoldable pub write_event_answer : Receiver.Answer → Writer → Writer
  unfolding set_content_type write_header write http_error
  write_event_answer Receiver.accepted wr =
      write (bytes "{\"status\":\"accepted\"}")
        (write_header 202 (set_content_type (bytes "application/json") wr))
  write_event_answer (Receiver.invalid_payload e) wr =
      http_error (bytes "invalid payload: " ++ e) 400 wr
  write_event_answer (Receiver.invalid_event errs) wr =
      http_error (bytes "invalid event: " ++ codec.event_errors errs) 400 wr
  write_event_answer Receiver.queue_full wr = http_error (bytes "queue full") 503 wr

  unfoldable pub write_registration_answer : Registry.Handler.Answer → Writer → Writer
  unfolding write_header http_error
  write_registration_answer Registry.Handler.no_content wr = write_header 204 wr
  write_registration_answer (Registry.Handler.invalid_payload e) wr =
      http_error (bytes "invalid payload: " ++ e) 400 wr
  write_registration_answer (Registry.Handler.invalid_registration errs) wr =
      http_error (bytes "invalid registration: " ++ codec.registration_errors errs) 400 wr

  module _ {Net : Type 0} where
    unfoldable pub events_handler : Handler (Core Net)
    unfolding write_event_answer
    events_handler req (wr, c) =
        let (a, r) = Receiver.serve_http codec.decode_event req.body c.receiver in
        (returned, (write_event_answer a wr, record c { receiver = r }))

    unfoldable pub registration_handler : Handler (Core Net)
    unfolding write_registration_answer
    registration_handler req (wr, c) =
        let (a, r) =
          register_backend codec.decode_registration c.engine.clock.now req.body c.registry in
        (returned, (write_registration_answer a wr, record c { registry = r }))

    -- srv.Handler
    unfoldable pub serve : Handler (Core Net)
    unfolding events_handler registration_handler core_handler core_server middleware
    serve req s =
        middleware
          (λ r t.
            core_handler
              (core_server (record {
                events = λ q u. events_handler q u;
                register_backend = λ q u. registration_handler q u;
              }))
              r t)
          req s

-- The step of the core that a request is, if it is one.
abbrev pub request_step : Codec → Request → Option Core.Action
request_step codec req =
    if (bytes "/events" == req.path) && (post == req.method)
    then some (
        Core.receiver_step (Receiver.request (codec.decode_event Receiver.max_body_bytes req.body)))
    else if (bytes "/v1/backends/register" == req.path) && (post == req.method)
    then some
        (Core.register_backend (codec.decode_registration Registry.Handler.max_body_bytes req.body))
    else none

abbrev pub after_request : {Net : Type 0} → Program Net → Option Core.Action → Core Net → Core Net
after_request pr none c = c
after_request pr (some a) c = (perform pr a c).0

takes_method_post : (m : GoString) → takes_method (some post) m ≡ (post == m)
unfolding takes_method str_eq
takes_method_post m = ground arith

-- A chain of four tests, of which the second and the third do not matter.
chain :
    {A : Type 0} (P : A → Type 0) (p h r q : Bool) (a b c d f : A)
    → (p ≡ true → P a)
    → (p ≡ false → h ≡ true → P b)
    → (p ≡ false → r ≡ true → P c)
    → (p ≡ false → q ≡ true → P d)
    → (p ≡ false → q ≡ false → P f)
    → P (if p then a else if h then b else if r then c else if q then d else f)
chain P true h r q a b c d f pa pb pc pd pf = pa refl
chain P false true r q a b c d f pa pb pc pd pf = pb refl refl
chain P false false true q a b c d f pa pb pc pd pf = pc refl refl
chain P false false false true a b c d f pa pb pc pd pf = pd refl refl
chain P false false false false a b c d f pa pb pc pd pf = pf refl refl

-- A path that is one text is not another.
one_path :
    (s o path : GoString) (t m : Bool)
    → str_eq o s ≡ false
    → ((s == path) && t) ≡ true
    → ((o == path) && m) ≡ false
one_path s o path t m ne h = ground (arith, str_eq_iff s path, str_eq_iff o path, str_eq_iff o s)

module _ {Net : Type 0} (pr : Program Net) (codec : Codec) where
  -- A request to the core's server is one step of the core or none: a POST to /events is the webhook's
  -- step, a POST to the path for registrations the registry's, and any other request, to whatever path,
  -- leaves the core as it is. No request makes the handler panic.
  pub serve-after_request :
      (req : Request) (wr : Writer) (c : Core Net)
      → ((serve codec req (wr, c)).0 ≡ returned)
        × ((serve codec req (wr, c)).1.1 ≡ after_request pr (request_step codec req) c)
  unfolding serve middleware core_handler serve_mux core_routes operation wrap serve_routes
      core_server events_handler registration_handler healthz_handler readyz_handler
      Receiver.serve_http register_backend perform Core.after_receiver Core.ingest_all
      Receiver.perform recovered
  serve-after_request req wr c =
      let P = λ (x : Ran × (Writer × Core Net)).
        ((recovered x).0 ≡ returned)
        × ((recovered x).1.1 ≡ after_request pr (request_step codec req) c) in
      let at = λ (s : GoString). s == req.path in
      let register = bytes "/v1/backends/register" in
      let reads = takes_method (some get) req.method in
      rw (takes_method_post req.method) (
        chain P (at (bytes "/events") && (post == req.method)) (at (bytes "/healthz") && reads)
          (at (bytes "/readyz") && reads)
          (at (bytes "/v1/backends/register") && (post == req.method))
          (events_handler codec req (wr, c)) (healthz_handler req (wr, c))
          (readyz_handler none req (wr, c)) (registration_handler codec req (wr, c))
          (
            returned,
            (
              refuse
                  ((((false || at (bytes "/events")) || at (bytes "/healthz"))
                      || at (bytes "/readyz"))
                    || at (bytes "/v1/backends/register"))
                  wr,
              c,
            ),
          )
          (λ e. rw e (refl, refl))
          (λ e h.
            rw
              (
                e,
                one_path (bytes "/healthz") register req.path reads (post == req.method)
                    (unfold str_eq in refl) h,
              )
              (refl, refl))
          (λ e r.
            rw
              (
                e,
                one_path (bytes "/readyz") register req.path reads (post == req.method)
                    (unfold str_eq in refl) r,
              )
              (refl, refl))
          (λ e m. rw (e, m) (refl, refl)) (λ e m. rw (e, m) (refl, refl)))
