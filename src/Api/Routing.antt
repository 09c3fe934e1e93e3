-- ===== src/Api/Routing.antt =====
-- api/core/core.gen.go and api/backendapi/backendapi.gen.go: the routes of the two servers; and
-- cmd/argocd-notifier/server.go and cmd/slack-backend/main.go, which give them their handlers.
use argocd_notifier.Prelude.{Bool, none, some, List, [], ◌∷◌, ◌++◌}
use argocd_notifier.Text.{GoString, bytes}
use argocd_notifier.Http.{
  Handler, Route, get, post, serve_mux, middleware, healthz_handler, readyz_handler,
}

-- MiddlewareFunc
abbrev pub Middleware : Type 0 → Type 0
Middleware W = Handler W → Handler W

-- `for _, middleware := range siw.HandlerMiddlewares { handler = middleware(handler) }`
unfoldable pub wrap : {W : Type 0} → List (Middleware W) → Handler W → Handler W
wrap [] handler = handler
wrap (m ∷ ms) handler = wrap ms (m handler)

-- StdHTTPServerOptions, less the router, which is a list of routes here, and the handler of errors,
-- which no operation of the two servers calls.
pub record ServerOptions (W : Type 0) : Type 0 where
  pub base_url : GoString
  pub middlewares : List (Middleware W)

abbrev pub no_options : {W : Type 0} → ServerOptions W
no_options = record { base_url = []; middlewares = [] }

-- m.HandleFunc(method+" "+options.BaseURL+path, wrapper.Operation)
unfoldable pub operation :
    {W : Type 0} → ServerOptions W → GoString → GoString → Handler W → Route W
unfolding wrap
operation o method path handler = record {
  method = some method;
  path = o.base_url ++ path;
  handler = wrap o.middlewares handler;
}

-- core.ServerInterface
pub record CoreInterface (W : Type 0) : Type 0 where
  pub submit_event : Handler W
  pub healthz : Handler W
  pub readyz : Handler W
  pub register_backend : Handler W

-- core.HandlerWithOptions, behind the routes that the router has
unfoldable pub core_routes :
    {W : Type 0} → ServerOptions W → CoreInterface W → List (Route W) → List (Route W)
unfolding operation
core_routes o si m =
    m
    ++ operation o post (bytes "/events") si.submit_event
      ∷ operation o get (bytes "/healthz") si.healthz
      ∷ operation o get (bytes "/readyz") si.readyz
      ∷ operation o post (bytes "/v1/backends/register") si.register_backend
      ∷ []

-- core.Handler
unfoldable pub core_handler : {W : Type 0} → CoreInterface W → Handler W
unfolding core_routes serve_mux
core_handler si req s = serve_mux (core_routes no_options si []) req s

-- The type `server` of the core, with its methods
pub record Server (W : Type 0) : Type 0 where
  pub events : Handler W
  pub register_backend : Handler W

unfoldable pub core_server : {W : Type 0} → Server W → CoreInterface W
unfolding healthz_handler readyz_handler
core_server s = record {
  submit_event = s.events;
  healthz = λ req t. healthz_handler req t;
  readyz = λ req t. readyz_handler none req t;
  register_backend = s.register_backend;
}

-- backendapi.ServerInterface
pub record BackendInterface (W : Type 0) : Type 0 where
  pub notify : Handler W
  pub thread_reply : Handler W

-- backendapi.HandlerWithOptions
unfoldable pub backend_routes :
    {W : Type 0} → ServerOptions W → BackendInterface W → List (Route W) → List (Route W)
unfolding operation
backend_routes o si m =
    m
    ++ operation o post (bytes "/notify") si.notify
      ∷ operation o post (bytes "/thread-reply") si.thread_reply
      ∷ []

-- The multiplexer of the Slack backend, whose readiness is that of its registrar.
unfoldable pub slack_routes : {W : Type 0} → (W → Bool) → BackendInterface W → List (Route W)
unfolding backend_routes healthz_handler readyz_handler
slack_routes has_registered si = backend_routes no_options si (
    record { method = none; path = bytes "/healthz"; handler = λ req t. healthz_handler req t }
    ∷ record {
      method = none;
      path = bytes "/readyz";
      handler = λ req t. readyz_handler (some has_registered) req t;
    }
    ∷ [])

unfoldable pub slack_handler : {W : Type 0} → (W → Bool) → BackendInterface W → Handler W
unfolding slack_routes serve_mux middleware
slack_handler has_registered si req s =
    middleware (λ r t. serve_mux (slack_routes has_registered si) r t) req s
