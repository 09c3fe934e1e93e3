-- ===== src/Http.antt =====
-- The parts of net/http that the program uses: the response that a handler writes, panics of a handler,
-- and the request multiplexer for patterns without wildcards, at paths that are clean (others are
-- redirected first). And internal/httpx/middleware.go over them.
pub mod Recovery
use argocd_notifier.Prelude.{
  ℕ, Bool, true, false, ◌&&◌, ◌||◌, Option, none, some, List, [], ◌∷◌, ◌++◌, ◌==◌, if◌then◌else◌,
}
use argocd_notifier.Text.{GoString, text_eq, bytes}

pub record Request : Type 0 where
  pub method : GoString
  pub path : GoString
  pub body : GoString

-- A ResponseWriter. The header is sent with the status, and no change of it after that counts.
pub record Writer : Type 0 where
  pub status : Option ℕ
  pub content_type : GoString
  pub body : GoString

abbrev pub new_writer : Writer
new_writer = record { status = none; content_type = []; body = [] }

-- Header().Set("Content-Type", t)
unfoldable pub set_content_type : GoString → Writer → Writer
set_content_type t wr = elim wr.status [ none ↦ record wr { content_type = t } | some code ↦ wr ]

-- WriteHeader(code): a second call does nothing.
unfoldable pub write_header : ℕ → Writer → Writer
write_header code wr = elim wr.status [ none ↦ record wr { status = some code } | some c ↦ wr ]

-- Write: 200, if there is no status yet.
unfoldable pub write : GoString → Writer → Writer
unfolding write_header
write text wr = let wr' = write_header 200 wr in record wr' { body = wr'.body ++ text }

-- http.Error
unfoldable pub http_error : GoString → ℕ → Writer → Writer
unfolding set_content_type write_header write
http_error text code wr =
    write (text ++ bytes "\n")
      (write_header code (set_content_type (bytes "text/plain; charset=utf-8") wr))

-- What the client of the connection reads. A handler that writes nothing has answered 200.
pub record Response : Type 0 where
  pub status : ℕ
  pub content_type : GoString
  pub body : GoString

unfoldable pub status_of : Option ℕ → ℕ
status_of none = 200
status_of (some code) = code

unfoldable pub response_of : Writer → Response
unfolding status_of
response_of wr = record {
  status = status_of wr.status;
  content_type = wr.content_type;
  body = wr.body;
}

pub data Ran : Type 0 where
  returned : Ran
  panicked : GoString → Ran

abbrev pub Handler : Type 0 → Type 0
Handler W = Request → Writer × W → Ran × (Writer × W)

-- A handler that only writes.
abbrev pub answering : {W : Type 0} → (Writer → Writer) → Handler W
answering f req (wr, w) = (returned, (f wr, w))

-- `defer func() { if rec := recover(); … }()`
unfoldable pub recovered : {W : Type 0} → Ran × (Writer × W) → Ran × (Writer × W)
unfolding http_error
recovered (returned, s) = (returned, s)
recovered (panicked e, (wr, w)) = (returned, (http_error (bytes "internal error") 500 wr, w))

-- `Middleware`
unfoldable pub middleware : {W : Type 0} → Handler W → Handler W
unfolding recovered
middleware next req s = recovered (next req s)

unfoldable pub healthz_handler : {W : Type 0} → Handler W
unfolding write_header
healthz_handler req s = answering (write_header 200) req s

unfoldable pub ready_status : Bool → ℕ
ready_status ready = if ready then 200 else 503

-- `ReadyzHandler`: `ready` may be nil, and else looks at the process.
unfoldable pub readyz_handler : {W : Type 0} → Option (W → Bool) → Handler W
unfolding write_header ready_status
readyz_handler none req s = answering (write_header 200) req s
readyz_handler (some ready) req (wr, w) = (returned, (write_header (ready_status (ready w)) wr, w))

-- A pattern of the multiplexer, with or without a method, and its handler.
pub record Route (W : Type 0) : Type 0 where
  pub method : Option GoString
  pub path : GoString
  pub handler : Handler W

abbrev pub get : GoString
get = bytes "GET"

abbrev pub post : GoString
post = bytes "POST"

-- GET stands for HEAD too.
unfoldable pub takes_method : Option GoString → GoString → Bool
takes_method none m = true
takes_method (some p) m = (p == m) || ((p == get) && (m == bytes "HEAD"))

-- No pattern takes the request: 405 if one takes its path, else 404.
unfoldable pub refuse : Bool → Writer → Writer
unfolding http_error
refuse true wr = http_error (bytes "Method Not Allowed") 405 wr
refuse false wr = http_error (bytes "404 page not found") 404 wr

module _ {W : Type 0} where
  unfoldable pub serve_routes : List (Route W) → Bool → Handler W
  unfolding takes_method refuse
  serve_routes [] seen req (wr, w) = (returned, (refuse seen wr, w))
  serve_routes (r ∷ rs) seen req s =
      let rest = serve_routes rs (seen || (r.path == req.path)) req s in
      if (r.path == req.path) && takes_method r.method req.method then r.handler req s else rest

  -- ServeMux.ServeHTTP
  unfoldable pub serve_mux : List (Route W) → Handler W
  unfolding serve_routes
  serve_mux routes req s = serve_routes routes false req s
