-- ===== src/Api/Transport.antt =====
-- A request of a generated client at the server that it is for. The network is a parameter.
use argocd_notifier.Prelude.{◌≡◌, none, ◌++◌}
use argocd_notifier.Text.{GoString, bytes}
use argocd_notifier.Aggregator.Backends.{Outcome, success, failure, Call}
use argocd_notifier.Http.{Writer, new_writer, response_of, Ran, returned, panicked, Handler, post}
use argocd_notifier.Api.Client.{◌>>=◌, OutgoingRequest, Reply, Library, with_slash}

-- What arrives at the client. A handler that panics breaks the connection off.
abbrev pub delivered : {W : Type 0} → Ran × (Writer × W) → Outcome Reply × W
delivered (returned, (wr, w)) =
    let r = response_of wr in
    (
      success
          (record { status_code = r.status; content_type = r.content_type; body = success r.body }),
      w,
    )
delivered (panicked e, (wr, w)) = (failure e, w)

-- A response that is read, in the world behind the call.
abbrev pub parsed : {W A : Type 0} → (Reply → Outcome A) → Outcome Reply × W → Outcome A × W
parsed parse (o, w) = (o >>= parse, w)

-- A process at `base_url` can be called: the library takes the URL that the client makes of it and of a
-- path, and the network brings a POST there to the server's handler for that path.
pub record Reaches {W Url : Type 0} (lib : Library Url) (doer : OutgoingRequest → Call W Reply)
    (server : Handler W) (base_url path : GoString) : Type 0 where
  pub server_url : Url
  pub query_url : Url
  pub parses : lib.parse_url (with_slash base_url) ≡ success server_url
  pub refers : lib.parse_reference server_url (bytes "." ++ path) ≡ success query_url
  pub accepts : lib.request_error post (lib.url_string query_url) ≡ none
  pub carries :
      (body : GoString) (w : W)
      → doer
          (record {
            method = post;
            url = lib.url_string query_url;
            content_type = bytes "application/json";
            body = body;
          })
          w
        ≡ delivered (server (record { method = post; path = path; body = body }) (new_writer, w))
