-- ===== src/Leader/Proxy/Answers.antt =====
-- What comes back for a request among the instances (internal/leaderproxy/handler.go), with the time that
-- each proxy waits for headers.
use argocd_notifier.Prelude.{
  ℕ, zero, suc, ◌+◌, ◌≡◌, ◌≢◌, refl, ap, ◌∙◌, true, Option, none, some, [], ◌++◌, arith, ltb,
  if◌then◌else◌,
}
use argocd_notifier.Prelude.Int.{pos}
use argocd_notifier.Text.{GoString, bytes}
use argocd_notifier.Aggregator.Clock.{Duration}
use argocd_notifier.Aggregator.Backends.{success, Call}
use argocd_notifier.Leader.Resolver.{PodAddressResolver}
use argocd_notifier.Leader.Proxy.{
  Answer, headers, silent, dial_error, await_headers, sent_on, respond, direct, serve_http,
}
use argocd_notifier.Leader.Proxy.Cluster.{
  Cluster, keep_resolver, Points, keep-Points, direct_known, direct_led,
}

-- The answer of another instance, as the proxy sees it: its times are later by the way there and back.
unfoldable pub later : ℕ → Answer → Answer
later latency (headers time status) = headers (latency + time) status
later latency silent = silent
later latency (dial_error time) = dial_error (latency + time)

module _ {W Url : Type 0} (get_pod : GoString → Call W GoString) (listen_addr : GoString)
    (parse : GoString → Option Url) (at : Url → Option ℕ) (timeout : Duration) (latency : ℕ)
    (local : ℕ → Cluster × W → Answer × (Cluster × W)) where
  unfoldable pub over_network :
      (ℕ → Cluster × W → Answer × (Cluster × W)) → Option ℕ → Cluster × W → Answer × (Cluster × W)
  unfolding later
  over_network next none s = (dial_error latency, s)
  over_network next (some j) s = let (a, s') = next j s in (later latency a, s')

  -- Where the address cannot be parsed the request has no host that the transport could dial.
  unfoldable pub round_trip :
      (ℕ → Cluster × W → Answer × (Cluster × W)) → Option Url → Cluster × W → Answer × (Cluster × W)
  unfolding over_network
  round_trip next none s = over_network next none s
  round_trip next (some u) s = over_network next (at u) s

  -- The answer to a request at instance `i`. Of a request that is sent on more often than the given
  -- number nothing comes back.
  unfoldable pub reply : ℕ → ℕ → Cluster × W → Answer × (Cluster × W)
  unfolding round_trip serve_http keep_resolver
  reply zero i s = (silent, s)
  reply (suc hops) i (cl, w) =
      serve_http get_pod listen_addr parse timeout (local i) (round_trip (reply hops))
        (λ s. (keep_resolver i s.0 cl, s.1)) (cl i).elector ((cl i).resolver, w)

-- What an instance sees of itself: silence, or the headers that its proxy gives up with.
own_answer :
    (t latency : ℕ)
    → await_headers (pos (suc t)) (later latency (headers (suc t) 502)) ≡ headers (suc t) 502
unfolding await_headers later
own_answer t latency = ground arith

module _ {W Url : Type 0} (get_pod : GoString → Call W GoString) (identity ip : GoString)
    (told : (w : W) → (get_pod identity w).0 ≡ success ip) (has_ip : ip ≢ [])
    (listen_addr : GoString) (parse : GoString → Option Url) (at : Url → Option ℕ) (u : Url)
    (self : ℕ) (parses : parse (bytes "http://" ++ (ip ++ listen_addr)) ≡ some u)
    (listens : at u ≡ some self) (t latency : ℕ)
    (local : ℕ → Cluster × W → Answer × (Cluster × W)) where
  -- The instance waits for its own answer to the request.
  reply-reply :
      (hops : ℕ) (cl : Cluster) (w : W)
      → Points identity ip (cl self)
      → (cl' : Cluster) × (w' : W) × Points identity ip (cl' self)
        × ((reply get_pod listen_addr parse at
              (pos (suc t))
              latency
              local
              (suc hops)
              self
              (cl, w)).0
            ≡ await_headers (pos (suc t)) (
                later latency
                  (reply get_pod listen_addr parse at
                    (pos (suc t))
                    latency
                    local
                    hops
                    self
                    (cl', w')).0))
  unfolding reply serve_http respond sent_on round_trip over_network
  reply-reply hops cl w p =
      let k =
        direct_known get_pod identity ip told has_ip listen_addr (cl self).elector p.sees parse u
          (cl self).resolver w p.idle parses p.cache in
      let sent = direct get_pod listen_addr parse (cl self).elector ((cl self).resolver, w) in
      (
        keep_resolver self sent.1.0 cl,
        sent.1.1,
        keep-Points get_pod identity ip told has_ip listen_addr parse at u self parses listens self
            sent.1.0 cl k.1 p,
        rw (k.0, listens) refl,
      )

  -- An instance that does not lead and has seen no leader but itself, whose address it has or resolves,
  -- sends each request to itself, and so again, and answers it with 502 when its proxy has waited for
  -- headers as long as it may, however many times the request is sent on by then.
  pub stranded :
      (hops : ℕ) (cl : Cluster) (w : W)
      → Points identity ip (cl self)
      → (reply get_pod listen_addr parse at (pos (suc t)) latency local (suc hops) self (cl, w)).0
        ≡ headers (suc t) 502
  stranded zero cl w p =
      let (cl', w', p', eq) = reply-reply zero cl w p in
      rw eq (unfold reply later await_headers in refl)
  stranded (suc hops) cl w p =
      let (cl', w', p', eq) = reply-reply (suc hops) cl w p in
      rw (eq, stranded hops cl' w' p') (own_answer t latency)

keep_resolver-elector :
    (i j : ℕ) (r : PodAddressResolver) (cl : Cluster)
    → (keep_resolver i r cl j).elector ≡ (cl j).elector
unfolding keep_resolver
keep_resolver-elector i j r cl = ground arith

-- What the proxy makes of an answer that comes back after some time.
in_time :
    (t latency time status : ℕ)
    → await_headers (pos (suc t)) (later latency (headers time status)) ≡ (
        if ltb (suc t) (latency + time)
        then headers (suc t) 502
        else headers (latency + time) status)
unfolding await_headers later
in_time t latency time status = refl

module _ {W Url : Type 0} (get_pod : GoString → Call W GoString) (identity ip : GoString)
    (told : (w : W) → (get_pod identity w).0 ≡ success ip) (has_ip : ip ≢ [])
    (listen_addr : GoString) (parse : GoString → Option Url) (at : Url → Option ℕ) (u : Url)
    (leader : ℕ) (parses : parse (bytes "http://" ++ (ip ++ listen_addr)) ≡ some u)
    (listens : at u ≡ some leader) (t latency : ℕ)
    (local : ℕ → Cluster × W → Answer × (Cluster × W)) where
  reply_led :
      (timeout : Duration) (hops : ℕ) (s : Cluster × W)
      → (s.0 leader).elector.leading ≡ true
      → reply get_pod listen_addr parse at timeout latency local (suc hops) leader s
        ≡ local leader (keep_resolver leader (s.0 leader).resolver s.0, s.1)
  unfolding reply serve_http respond
  reply_led timeout hops s leads =
      rw
        (direct_led get_pod listen_addr parse (s.0 leader).elector ((s.0 leader).resolver, s.1)
          leads)
        refl

  -- Where one instance leads and its handler answers, a request at another, that sends requests to its
  -- address, goes once through that handler, in the state that the readings of the address leave, and
  -- what the handler does stays. The request is answered as the leader answers, if the headers come back
  -- within the proxy's timeout, and else with 502 at the timeout.
  pub answered_by_leader :
      (hops i : ℕ) (cl : Cluster) (w : W) (time status : Cluster × W → ℕ)
      → ((s : Cluster × W) → (local leader s).0 ≡ headers (time s) (status s))
      → (cl leader).elector.leading ≡ true
      → Points identity ip (cl i)
      → (s : Cluster × W) × ((j : ℕ) → (s.0 j).elector ≡ (cl j).elector)
        × (s.1 ≡ (direct get_pod listen_addr parse (cl i).elector ((cl i).resolver, w)).1.1)
        × (reply get_pod listen_addr parse at (pos (suc t)) latency local (suc (suc hops)) i (cl, w)
            ≡ (
              (if ltb (suc t) (latency + time s)
                  then headers (suc t) 502
                  else headers (latency + time s) (status s)),
              (local leader s).1,
            ))
  answered_by_leader hops i cl w time status answers leads p =
      let k =
        direct_known get_pod identity ip told has_ip listen_addr (cl i).elector p.sees parse u
          (cl i).resolver w p.idle parses p.cache in
      let sent = direct get_pod listen_addr parse (cl i).elector ((cl i).resolver, w) in
      let cl' = keep_resolver i sent.1.0 cl in
      let s : Cluster × W = (keep_resolver leader (cl' leader).resolver cl', sent.1.1) in
      (
        s,
        (λ j.
            keep_resolver-elector leader j (cl' leader).resolver cl'
            ∙ keep_resolver-elector i j sent.1.0 cl),
        refl,
        unfold reply serve_http respond sent_on round_trip over_network in
            rw
              (
                k.0,
                listens,
                reply_led (pos (suc t)) hops (cl', sent.1.1)
                    (ap (λ e. e.leading) (keep_resolver-elector i leader sent.1.0 cl) ∙ leads),
                answers s,
              )
              (ap (λ a. (a, (local leader s).1)) (in_time t latency (time s) (status s))),
      )
