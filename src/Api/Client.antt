-- ===== src/Api/Client.antt =====
-- api/backendapi/backendapi.gen.go: the generated client. url.Parse, URL.Parse, URL.String, the errors of
-- http.NewRequest, encoding/json and the transport are parameters.
use mathlib.Core.List.{reverse}
use argocd_notifier.Prelude.{
  ℕ, Bool, true, false, ◌&&◌, ◌||◌, Option, none, some, List, [], ◌∷◌, ◌++◌, ◌==◌, nat_eq,
  if◌then◌else◌,
}
use argocd_notifier.Text.{GoString, bytes, strip_prefix?}
use argocd_notifier.Aggregator.Backends.{Outcome, success, failure, Call}
use argocd_notifier.Http.{post}
use argocd_notifier.Wire.{NotifyRequest, ThreadReplyRequest, NotifyResponse, ThreadReplyResponse}
use argocd_notifier.RemoteBackend.{ApiClient}

-- `if err != nil { return nil, err }` behind a call
infixl 1 ◌>>=◌
unfoldable pub ◌>>=◌ : {A B : Type 0} → Outcome A → (A → Outcome B) → Outcome B
success a >>= f = f a
failure e >>= f = failure e

unfoldable pub has_prefix : GoString → GoString → Bool
unfolding strip_prefix?
has_prefix s p = elim (strip_prefix? p s) [ none ↦ false | some rest ↦ true ]

-- strings.HasSuffix
unfoldable pub has_suffix : GoString → GoString → Bool
unfolding has_prefix
has_suffix s p = has_prefix (reverse s) (reverse p)

-- strings.Contains
unfoldable pub contains : GoString → GoString → Bool
unfolding has_prefix
contains [] p = has_prefix [] p
contains (c ∷ s) p = let rest = contains s p in has_prefix (c ∷ s) p || rest

pub record OutgoingRequest : Type 0 where
  pub method : GoString
  pub url : GoString
  pub content_type : GoString
  pub body : GoString

-- The answer, with what reading its body to the end gives.
pub record Reply : Type 0 where
  pub status_code : ℕ
  pub content_type : GoString
  pub body : Outcome GoString

-- The libraries that the client stands on.
pub record Library (Url : Type 0) : Type 0 where
  pub parse_url : GoString → Outcome Url
  -- u.Parse(ref)
  pub parse_reference : Url → GoString → Outcome Url
  pub url_string : Url → GoString
  -- the error of http.NewRequest for a method and a URL
  pub request_error : GoString → GoString → Option GoString
  pub marshal_notify : NotifyRequest → Outcome GoString
  pub marshal_reply : ThreadReplyRequest → Outcome GoString
  -- the field `ref` of a NotifyResult
  pub unmarshal_result : GoString → Outcome GoString

-- A RequestEditorFn, on the request.
abbrev pub RequestEditor : Type 0
RequestEditor = OutgoingRequest → Outcome OutgoingRequest

pub record Client (W : Type 0) : Type 0 where
  pub server : GoString
  -- the Doer, nil at first
  pub doer : Option (OutgoingRequest → Call W Reply)
  pub request_editors : List RequestEditor

abbrev pub ClientOption : Type 0 → Type 0
ClientOption W = Client W → Outcome (Client W)

unfoldable pub with_http_client : {W : Type 0} → (OutgoingRequest → Call W Reply) → ClientOption W
with_http_client d c = success (record c { doer = some d })

unfoldable pub apply_options : {W : Type 0} → List (ClientOption W) → Client W → Outcome (Client W)
unfolding ◌>>=◌
apply_options [] c = success c
apply_options (o ∷ os) c = o c >>= apply_options os

unfoldable pub with_slash : GoString → GoString
unfolding has_suffix
with_slash server = if has_suffix server (bytes "/") then server else server ++ bytes "/"

-- `NewClient`, where `default_doer` is a new http.Client
unfoldable pub new_client :
    {W : Type 0}
    → (OutgoingRequest → Call W Reply)
    → GoString
    → List (ClientOption W)
    → Outcome (Client W)
unfolding apply_options with_slash ◌>>=◌
new_client default_doer server opts =
    apply_options opts (record { server = server; doer = none; request_editors = [] }) >>= λ c.
    success (record {
      server = with_slash c.server;
      doer = elim c.doer [ none ↦ some default_doer | some d ↦ some d ];
      request_editors = c.request_editors;
    })

unfoldable pub apply_editors : List RequestEditor → OutgoingRequest → Outcome OutgoingRequest
unfolding ◌>>=◌
apply_editors [] req = success req
apply_editors (ed ∷ eds) req = ed req >>= apply_editors eds

module _ {Url : Type 0} (lib : Library Url) where
  unfoldable pub checked_request : Option GoString → OutgoingRequest → Outcome OutgoingRequest
  checked_request none req = success req
  checked_request (some e) req = failure e

  -- `NewNotifyRequestWithBody` and `NewThreadReplyRequestWithBody`, which differ in their path
  unfoldable pub new_request_with_body :
      GoString → GoString → GoString → GoString → Outcome OutgoingRequest
  unfolding checked_request ◌>>=◌
  new_request_with_body path server content_type body = lib.parse_url server >>= λ server_url.
      lib.parse_reference server_url (bytes "." ++ path) >>= λ query_url.
      checked_request (lib.request_error post (lib.url_string query_url)) (record {
        method = post;
        url = lib.url_string query_url;
        content_type = content_type;
        body = body;
      })

  unfoldable pub new_notify_request : GoString → NotifyRequest → Outcome OutgoingRequest
  unfolding new_request_with_body ◌>>=◌
  new_notify_request server body =
      lib.marshal_notify body
      >>= new_request_with_body (bytes "/notify") server (bytes "application/json")

  unfoldable pub new_thread_reply_request : GoString → ThreadReplyRequest → Outcome OutgoingRequest
  unfolding new_request_with_body ◌>>=◌
  new_thread_reply_request server body =
      lib.marshal_reply body
      >>= new_request_with_body (bytes "/thread-reply") server (bytes "application/json")

  unfoldable pub json200_response : Reply → GoString → GoString → Outcome NotifyResponse
  json200_response rsp body ref =
      success (record { status_code = rsp.status_code; json200 = some ref; body = body })

  unfoldable pub parse_notify_body : Reply → GoString → Outcome NotifyResponse
  unfolding json200_response contains ◌>>=◌
  parse_notify_body rsp body =
      if contains rsp.content_type (bytes "json") && (rsp.status_code == 200)
      then lib.unmarshal_result body >>= json200_response rsp body
      else success (record { status_code = rsp.status_code; json200 = none; body = body })

  unfoldable pub parse_notify_response : Reply → Outcome NotifyResponse
  unfolding parse_notify_body ◌>>=◌
  parse_notify_response rsp = rsp.body >>= parse_notify_body rsp

  unfoldable pub parse_thread_reply_response : Reply → Outcome ThreadReplyResponse
  unfolding ◌>>=◌
  parse_thread_reply_response rsp =
      rsp.body >>= λ body. success (record { status_code = rsp.status_code; body = body })

  module _ {W : Type 0} where
    -- c.Client.Do(req), where there was no error before. `new_client` leaves no client without a Doer.
    unfoldable pub send :
        {A : Type 0}
        → (Reply → Outcome A)
        → Option (OutgoingRequest → Call W Reply)
        → Outcome OutgoingRequest
        → Call W A
    unfolding ◌>>=◌
    send parse none req w = (failure (bytes "nil Doer"), w)
    send parse (some d) (failure e) w = (failure e, w)
    send parse (some d) (success req) w = let (o, w') = d req w in (o >>= parse, w')

    -- `NotifyWithResponse`, without further editors
    unfoldable pub notify_with_response : Client W → NotifyRequest → Call W NotifyResponse
    unfolding send new_notify_request apply_editors parse_notify_response ◌>>=◌
    notify_with_response c body w =
        send parse_notify_response c.doer
          (new_notify_request c.server body >>= apply_editors c.request_editors) w

    unfoldable pub thread_reply_with_response :
        Client W → ThreadReplyRequest → Call W ThreadReplyResponse
    unfolding send new_thread_reply_request apply_editors parse_thread_reply_response ◌>>=◌
    thread_reply_with_response c body w =
        send parse_thread_reply_response c.doer
          (new_thread_reply_request c.server body >>= apply_editors c.request_editors) w

    unfoldable pub api_client : Client W → ApiClient W
    unfolding notify_with_response thread_reply_with_response
    api_client c = record {
      notify_with_response = λ body w. notify_with_response c body w;
      thread_reply_with_response = λ body w. thread_reply_with_response c body w;
    }

    -- `NewClientWithResponses`
    unfoldable pub new_client_with_responses :
        (OutgoingRequest → Call W Reply) → GoString → List (ClientOption W) → Outcome (ApiClient W)
    unfolding new_client api_client ◌>>=◌
    new_client_with_responses default_doer server opts =
        new_client default_doer server opts >>= λ c. success (api_client c)
