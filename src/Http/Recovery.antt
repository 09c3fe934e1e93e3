-- ===== src/Http/Recovery.antt =====
-- The middleware that every request passes.
use argocd_notifier.Prelude.{◌≡◌, refl, ℕ, Option, none, some, ◌++◌}
use argocd_notifier.Text.{GoString, bytes}
use argocd_notifier.Http.{
  Request, Writer, set_content_type, write_header, write, http_error, Response, response_of,
  status_of, Ran, returned, panicked, Handler, recovered, middleware,
}

-- What a request is answered with, by what became of its handler and what the handler wrote.
abbrev pub answer_of : Ran → Writer → Response
answer_of returned wr = response_of wr
answer_of (panicked e) wr = elim wr.status [
  | none ↦ record {
    status = 500;
    content_type = bytes "text/plain; charset=utf-8";
    body = wr.body ++ bytes "internal error\n";
  }
  | some code ↦ record {
    status = code;
    content_type = wr.content_type;
    body = wr.body ++ bytes "internal error\n";
  }
]

response-internal_error :
    (status : Option ℕ) (t body e : GoString)
    → let wr : Writer = record { status = status; content_type = t; body = body } in
      response_of (http_error (bytes "internal error") 500 wr) ≡ answer_of (panicked e) wr
unfolding http_error set_content_type write write_header response_of status_of
response-internal_error none t body e = refl
response-internal_error (some code) t body e = refl

answer-recovered :
    {W : Type 0} (ran : Ran) (wr : Writer) (w : W)
    → ((recovered (ran, (wr, w))).0 ≡ returned)
      × (response_of (recovered (ran, (wr, w))).1.0 ≡ answer_of ran wr)
      × ((recovered (ran, (wr, w))).1.1 ≡ w)
unfolding recovered
answer-recovered returned wr w = (refl, refl, refl)
answer-recovered (panicked e) wr w =
    (refl, response-internal_error wr.status wr.content_type wr.body e, refl)

-- No panic of a handler gets past the middleware. A handler that returns is answered as it wrote; one
-- that panics before it has set a status is answered with 500, and one that panics later keeps its
-- status and its content type, with the text of the error behind what it had written. What the handler
-- did to the process stays.
pub middleware_lem :
    {W : Type 0} (next : Handler W) (req : Request) (wr : Writer) (w : W)
    → ((middleware next req (wr, w)).0 ≡ returned)
      × (response_of (middleware next req (wr, w)).1.0
          ≡ answer_of (next req (wr, w)).0 (next req (wr, w)).1.0)
      × ((middleware next req (wr, w)).1.1 ≡ (next req (wr, w)).1.1)
unfolding middleware
middleware_lem next req wr w =
    answer-recovered (next req (wr, w)).0 (next req (wr, w)).1.0 (next req (wr, w)).1.1
