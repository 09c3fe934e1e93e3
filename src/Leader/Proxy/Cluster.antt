-- ===== src/Leader/Proxy/Cluster.antt =====
-- Requests among the instances: a request that an instance sends on arrives at the instance that
-- listens at the URL, by the same handler. `at` stands for the network. This is where a request takes
-- effect; what comes back for it, and when, is in Answers.
use argocd_notifier.Prelude.{
  ◌≡◌, ◌≢◌, refl, sym, ap, ◌∙◌, ◌⊎◌, inl, inr, Bool, true, false, Option, none, some, ℕ, zero, suc,
  [], ◌++◌, arith, ◌==◌, nat_eq, if◌then◌else◌, Bool-cases, Option-cases, eq_of_==, ne_of_==,
  ==-refl,
}
use argocd_notifier.Text.{GoString, text_eq, bytes, is_empty_iff}
use argocd_notifier.Aggregator.Backends.{Outcome, success, Call}
use argocd_notifier.Leader.{Elector, is_leader, current_leader, identity_of}
use argocd_notifier.Leader.Resolver.{
  PodAddressResolver, address, cached, store, after_get, fetch, resolve_cached, resolve,
}
use argocd_notifier.Leader.Cached.{cached-some}
use argocd_notifier.Leader.Proxy.{
  base_url, Routed, served, no_leader_known, forwarded, not_rewritten, set_url, rewrite,
  resolve_leader, leader_addr, proxy, route, direct,
}

pub record Instance : Type 0 where
  pub elector : Elector
  pub resolver : PodAddressResolver

abbrev pub Cluster : Type 0
Cluster = ℕ → Instance

-- What became of a request: an instance served it, one answered 503, it was sent to where no instance
-- is, or it is on its way to an instance still.
pub data Fate : Type 0 where
  served_by : ℕ → Fate
  refused_by : ℕ → Fate
  lost : Fate
  under_way : ℕ → Fate

-- The instance has another state of its cache behind a request.
unfoldable pub keep_resolver : ℕ → PodAddressResolver → Cluster → Cluster
keep_resolver i r cl = λ j. if i == j then record (cl j) { resolver = r } else cl j

module _ {W Url : Type 0} (get_pod : GoString → Call W GoString) (listen_addr : GoString)
    (parse : GoString → Option Url) (at : Url → Option ℕ) where
  unfoldable pub arrive :
      (ℕ → Cluster × W → Fate × (Cluster × W)) → Option ℕ → Cluster × W → Fate × (Cluster × W)
  arrive next none s = (lost, s)
  arrive next (some j) s = next j s

  unfoldable pub follow :
      (ℕ → Cluster × W → Fate × (Cluster × W)) → ℕ → Routed Url → Cluster × W → Fate × (Cluster × W)
  unfolding arrive
  follow next i served s = (served_by i, s)
  follow next i no_leader_known s = (refused_by i, s)
  follow next i not_rewritten s = (lost, s)
  follow next i (forwarded u) s = arrive next (at u) s

  -- A request at instance `i`, over the given number of handlers at most.
  unfoldable pub request : ℕ → ℕ → Cluster × W → Fate × (Cluster × W)
  unfolding follow keep_resolver direct
  request zero i s = (under_way i, s)
  request (suc n) i (cl, w) =
      let (routed, (r, w')) =
        direct get_pod listen_addr parse (cl i).elector ((cl i).resolver, w) in
      follow (request n) i routed (keep_resolver i r cl, w')

pub direct_led :
    {W Url : Type 0} (get_pod : GoString → Call W GoString) (listen_addr : GoString)
    (parse : GoString → Option Url) (e : Elector) (s : PodAddressResolver × W)
    → e.leading ≡ true
    → direct get_pod listen_addr parse e s ≡ (served, s)
unfolding direct is_leader route
direct_led get_pod listen_addr parse e s leads =
    ap (λ b. route get_pod listen_addr parse b e s) leads

-- A cache that knows no other address for the identity.
abbrev pub KnowsIp : GoString → GoString → PodAddressResolver → Type 0
KnowsIp identity ip r = r.identity ≡ identity → (r.addr ≡ []) ⊎ (r.addr ≡ ip)

-- The API has an address for an identity, always the same.
module _ {W : Type 0} (get_pod : GoString → Call W GoString) (identity ip : GoString)
    (told : (w : W) → (get_pod identity w).0 ≡ success ip) (has_ip : ip ≢ []) where
  after_get_ip :
      (o : Outcome GoString) (r : PodAddressResolver)
      → o ≡ success ip
      → after_get identity o r ≡ (address ip, store identity ip r)
  unfolding after_get
  after_get_ip o r e = rw e (ground (arith, is_empty_iff ip))

  resolve_known :
      (r : PodAddressResolver) (w : W)
      → KnowsIp identity ip r
      → ((resolve get_pod identity (r, w)).0 ≡ address ip)
        × KnowsIp identity ip (resolve get_pod identity (r, w)).1.0
  unfolding resolve resolve_cached fetch store
  resolve_known r w h = elim (Option-cases (cached identity r)) [
    | inl q ↦ rw (q, after_get_ip _ r (told w)) (refl, λ _. inr refl)
    | inr (a, q) ↦
        let known = cached-some identity a r q in
        let same : a ≡ ip = elim (h known.0) [
          | inl nothing ↦ absurd (known.2 (sym known.1 ∙ nothing))
          | inr e ↦ sym known.1 ∙ e
        ] in
        rw q (ap address same, h)
  ]

  module _ (listen_addr : GoString) (e : Elector) (seen : e.current_leader ≡ some identity) where
    leader_addr_known :
        (r : PodAddressResolver) (w : W)
        → KnowsIp identity ip r
        → ((leader_addr get_pod listen_addr e (r, w)).0
            ≡ (bytes "http://" ++ (ip ++ listen_addr), true))
          × KnowsIp identity ip (leader_addr get_pod listen_addr e (r, w)).1.0
    unfolding leader_addr current_leader identity_of resolve_leader base_url
    leader_addr_known r w h =
        rw seen (let k = resolve_known r w h in (ap (base_url listen_addr) k.0, k.1))

    module _ {Url : Type 0} (parse : GoString → Option Url) where
      proxy_known :
          (a : (GoString × Bool) × (PodAddressResolver × W)) (addr : GoString)
          → a.0 ≡ (addr, true)
          → proxy get_pod listen_addr parse e a ≡ (
            rewrite parse (leader_addr get_pod listen_addr e a.1).0,
            (leader_addr get_pod listen_addr e a.1).1,
          )
      unfolding proxy
      proxy_known a addr q = rw q

      direct_idle :
          (s : PodAddressResolver × W)
          → e.leading ≡ false
          → direct get_pod listen_addr parse e s
            ≡ proxy get_pod listen_addr parse e (leader_addr get_pod listen_addr e s)
      unfolding direct is_leader route
      direct_idle s idle = ap (λ b. route get_pod listen_addr parse b e s) idle

      -- An instance that does not lead and knows who does sends the request there.
      pub direct_known :
          (u : Url) (r : PodAddressResolver) (w : W)
          → e.leading ≡ false
          → parse (bytes "http://" ++ (ip ++ listen_addr)) ≡ some u
          → KnowsIp identity ip r
          → ((direct get_pod listen_addr parse e (r, w)).0 ≡ forwarded u)
            × KnowsIp identity ip (direct get_pod listen_addr parse e (r, w)).1.0
      direct_known u r w idle p h =
          let first = leader_addr get_pod listen_addr e (r, w) in
          let k = leader_addr_known r w h in
          let again = leader_addr_known first.1.0 first.1.1 k.1 in
          let sent = direct_idle (r, w) idle ∙ proxy_known first _ k.0 in
          rw (sent, again.0) (unfold rewrite set_url in rw p refl, again.1)

-- An instance that does not lead, and sends requests to the address of `identity`.
pub record Points (identity ip : GoString) (x : Instance) : Type 0 where
  pub idle : x.elector.leading ≡ false
  pub sees : x.elector.current_leader ≡ some identity
  pub cache : KnowsIp identity ip x.resolver

module _ {W Url : Type 0} (get_pod : GoString → Call W GoString) (identity ip : GoString)
    (told : (w : W) → (get_pod identity w).0 ≡ success ip) (has_ip : ip ≢ [])
    (listen_addr : GoString) (parse : GoString → Option Url) (at : Url → Option ℕ) (u : Url)
    (leader : ℕ) (parses : parse (bytes "http://" ++ (ip ++ listen_addr)) ≡ some u)
    (listens : at u ≡ some leader) where
  -- The request goes from such an instance to the one that listens, and the first stays such a one.
  request_forwarded :
      (n i : ℕ) (cl : Cluster) (w : W)
      → Points identity ip (cl i)
      → (r : PodAddressResolver) × (w' : W) × (request get_pod listen_addr parse at
            (suc n)
            i
            (cl, w)
          ≡ request get_pod listen_addr parse at n leader (keep_resolver i r cl, w'))
        × KnowsIp identity ip r
  unfolding request follow arrive
  request_forwarded n i cl w p =
      let k =
        direct_known get_pod identity ip told has_ip listen_addr (cl i).elector p.sees parse u
          (cl i).resolver w p.idle parses p.cache in
      let sent = direct get_pod listen_addr parse (cl i).elector ((cl i).resolver, w) in
      (sent.1.0, sent.1.1, rw (k.0, listens) refl, k.1)

  request_led :
      (n i : ℕ) (cl : Cluster) (w : W)
      → (cl i).elector.leading ≡ true
      → (request get_pod listen_addr parse at (suc n) i (cl, w)).0 ≡ served_by i
  unfolding request follow
  request_led n i cl w leads =
      rw (direct_led get_pod listen_addr parse (cl i).elector ((cl i).resolver, w) leads) refl

  pub keep-Points :
      (i : ℕ) (r : PodAddressResolver) (cl : Cluster)
      → KnowsIp identity ip r
      → Points identity ip (cl i)
      → Points identity ip (keep_resolver i r cl i)
  unfolding keep_resolver
  keep-Points i r cl k p = rw (==-refl i) (record { idle = p.idle; sees = p.sees; cache = k })

  -- Where one instance leads, the API knows its address, and every other instance has seen it as the
  -- leader and can reach it, a request is served by the leader, at whichever instance it arrives, and
  -- over one hop at most.
  pub served_by_leader :
      (n i : ℕ) (cl : Cluster) (w : W)
      → (cl leader).elector.leading ≡ true
      → ((j : ℕ) → j ≢ leader → Points identity ip (cl j))
      → (request get_pod listen_addr parse at (suc (suc n)) i (cl, w)).0 ≡ served_by leader
  served_by_leader n i cl w leads others = elim (Bool-cases (i == leader)) [
    | inl here ↦
        let e : i ≡ leader = eq_of_== i leader here in rw e (request_led (suc n) leader cl w leads)
    | inr away ↦
        let (r, w', eq, k) = request_forwarded (suc n) i cl w (others i (ne_of_== i leader away)) in
        rw eq
          (request_led n leader (keep_resolver i r cl) w' (unfold keep_resolver in rw away leads))
  ]
