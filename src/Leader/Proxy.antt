-- ===== src/Leader/Proxy.antt =====
-- internal/leaderproxy/handler.go, and the function of cmd/argocd-notifier/main.go that gives it the
-- leader's address. `parse` stands for url.Parse.
pub mod Cluster
pub mod Answers
use argocd_notifier.Prelude.{
  ℕ, suc, Bool, true, false, Option, none, some, [], ◌++◌, ltb, if◌then◌else◌,
}
use argocd_notifier.Prelude.Int.{pos}
use argocd_notifier.Text.{GoString, bytes}
use argocd_notifier.Aggregator.Clock.{Duration}
use argocd_notifier.Aggregator.Backends.{Call}
use argocd_notifier.Leader.{Elector, is_leader, current_leader}
use argocd_notifier.Leader.Resolver.{PodAddressResolver, Resolved, address, unresolved, resolve}

-- fmt.Sprintf("http://%s%s", ip, cfg.ListenAddr), true
unfoldable pub base_url : GoString → Resolved → GoString × Bool
base_url listen_addr (unresolved e) = ([], false)
base_url listen_addr (address ip) = (bytes "http://" ++ (ip ++ listen_addr), true)

-- What becomes of a request: the local handler serves it, it is answered with 503, or the transport gets
-- it, with a URL or, where the address cannot be parsed, without one.
pub data Routed (Url : Type 0) : Type 0 where
  served : Routed Url
  no_leader_known : Routed Url
  forwarded : Url → Routed Url
  not_rewritten : Routed Url

module _ {Url : Type 0} (parse : GoString → Option Url) where
  unfoldable pub set_url : Option Url → Routed Url
  set_url none = not_rewritten
  set_url (some u) = forwarded u

  -- The proxy's Rewrite, which does not look at `ok`
  unfoldable pub rewrite : GoString × Bool → Routed Url
  unfolding set_url
  rewrite (addr, ok) = set_url (parse addr)

module _ {W : Type 0} (get_pod : GoString → Call W GoString) (listen_addr : GoString) where
  unfoldable pub resolve_leader :
      GoString × Bool → PodAddressResolver × W → (GoString × Bool) × (PodAddressResolver × W)
  unfolding base_url resolve
  resolve_leader (identity, false) s = (([], false), s)
  resolve_leader (identity, true) s =
      let (res, s') = resolve get_pod identity s in (base_url listen_addr res, s')

  -- leaderAddr
  unfoldable pub leader_addr :
      Elector → PodAddressResolver × W → (GoString × Bool) × (PodAddressResolver × W)
  unfolding resolve_leader current_leader
  leader_addr e s = resolve_leader (current_leader e) s

  module _ {Url : Type 0} (parse : GoString → Option Url) where
    -- The proxy asks for the address again.
    unfoldable pub proxy :
        Elector
        → (GoString × Bool) × (PodAddressResolver × W)
        → Routed Url × (PodAddressResolver × W)
    unfolding leader_addr rewrite
    proxy e ((addr, false), s) = (no_leader_known, s)
    proxy e ((addr, true), s) = let (again, s') = leader_addr e s in (rewrite parse again, s')

    unfoldable pub route :
        Bool → Elector → PodAddressResolver × W → Routed Url × (PodAddressResolver × W)
    unfolding proxy
    route true e s = (served, s)
    route false e s = proxy e (leader_addr e s)

    -- Where `ServeHTTP` takes the request. No callback of the elector comes between its reads.
    unfoldable pub direct : Elector → PodAddressResolver × W → Routed Url × (PodAddressResolver × W)
    unfolding route is_leader
    direct e s = route (is_leader e) e s

-- What comes back for a request: the headers of an answer, after some time and with a status, nothing
-- at all, or an error of the transport. Where the request is sent on, time counts from when it has been
-- written to the connection.
pub data Answer : Type 0 where
  headers : ℕ → ℕ → Answer
  silent : Answer
  dial_error : ℕ → Answer

-- http.Transport.ResponseHeaderTimeout, which is no limit unless it is positive, and the answer that
-- httputil.ReverseProxy gives to an error of its transport: 502, as the handler sets no `ErrorHandler`.
unfoldable pub await_headers : Duration → Answer → Answer
await_headers (pos (suc n)) (headers time status) =
    if ltb (suc n) time then headers (suc n) 502 else headers time status
await_headers (pos (suc n)) silent = headers (suc n) 502
await_headers timeout (headers time status) = headers time status
await_headers timeout silent = silent
await_headers timeout (dial_error time) = headers time 502

-- `local` is the handler behind the proxy, and `round_trip` what the transport brings back from the URL.
module _ {S Url : Type 0} (timeout : Duration) (local : S → Answer × S)
    (round_trip : Option Url → S → Answer × S) where
  unfoldable pub sent_on : Answer × S → Answer × S
  unfolding await_headers
  sent_on (a, s) = (await_headers timeout a, s)

  unfoldable pub respond : Routed Url → S → Answer × S
  unfolding sent_on
  respond served s = local s
  respond no_leader_known s = (headers 0 503, s)
  respond (forwarded u) s = sent_on (round_trip (some u) s)
  respond not_rewritten s = sent_on (round_trip none s)

module _ {W S Url : Type 0} (get_pod : GoString → Call W GoString) (listen_addr : GoString)
    (parse : GoString → Option Url) (timeout : Duration) (local : S → Answer × S)
    (round_trip : Option Url → S → Answer × S) where
  -- `ServeHTTP`. `settle` puts the cache back where the instance keeps it.
  unfoldable pub serve_http :
      (PodAddressResolver × W → S) → Elector → PodAddressResolver × W → Answer × S
  unfolding direct respond
  serve_http settle e s =
      let (routed, s') = direct get_pod listen_addr parse e s in
      respond timeout local round_trip routed (settle s')
