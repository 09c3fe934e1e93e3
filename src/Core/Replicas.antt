-- ===== src/Core/Replicas.antt =====
-- cmd/argocd-notifier/main.go: several instances of the core with leader election, each with the proxy in
-- front of the two handlers that act on its state.
use argocd_notifier.Prelude.{
  ℕ, suc, ◌≡◌, ◌≢◌, refl, sym, ap, ◌∙◌, Bool, true, false, Option, none, some, [], ◌++◌, ◌==◌,
  nat_eq, if◌then◌else◌, inl, inr, Option-cases,
}
use argocd_notifier.Text.{GoString, text_eq, bytes}
use argocd_notifier.Aggregator.Backends.{success, Call}
use argocd_notifier.Http.{Request, new_writer}
use argocd_notifier.Leader.Proxy.Cluster.{
  Instance, Cluster, Fate, served_by, refused_by, lost, under_way, request, Points,
  served_by_leader,
}
use argocd_notifier.Core
use argocd_notifier.Core.{Core, Program}
use argocd_notifier.Core.Server.{Codec, serve, request_step, after_request, serve-after_request}

pub record Replica (Net : Type 0) : Type 0 where
  pub instance_of : Instance
  pub core : Core Net

abbrev pub Replicas : Type 0 → Type 0
Replicas Net = ℕ → Replica Net

abbrev pub instances : {Net : Type 0} → Replicas Net → Cluster
instances rs i = (rs i).instance_of

-- The instance that serves a request takes it through its own handler.
unfoldable pub serve_at : {Net : Type 0} → Codec → Request → Fate → ℕ → Core Net → Core Net
unfolding serve
serve_at codec req (served_by i) j c = if i == j then (serve codec req (new_writer, c)).1.1 else c
serve_at codec req (refused_by i) j c = c
serve_at codec req lost j c = c
serve_at codec req (under_way i) j c = c

-- The instances behind a request that was served or not, with the caches that it left.
unfoldable pub after_fate :
    {Net : Type 0} → Codec → Request → Fate → Cluster → Replicas Net → Replicas Net
unfolding serve_at
after_fate codec req fate cl rs j = record {
  instance_of = cl j;
  core = serve_at codec req fate j (rs j).core;
}

module _ {W Url Net : Type 0} (get_pod : GoString → Call W GoString) (listen_addr : GoString)
    (parse : GoString → Option Url) (at : Url → Option ℕ) (codec : Codec) where
  -- The two paths behind the proxy; the others are served where they arrive.
  unfoldable pub routed :
      ℕ → ℕ → Request → Option Core.Action → Replicas Net × W → Fate × (Replicas Net × W)
  unfolding after_fate request
  routed hops i req none (rs, w) =
      (served_by i, (after_fate codec req (served_by i) (instances rs) rs, w))
  routed hops i req (some a) (rs, w) =
      let (fate, (cl, w')) = request get_pod listen_addr parse at hops i (instances rs, w) in
      (fate, (after_fate codec req fate cl rs, w'))

  -- A request that arrives at instance `i`.
  unfoldable pub submit : ℕ → ℕ → Request → Replicas Net × W → Fate × (Replicas Net × W)
  unfolding routed
  submit hops i req s = routed hops i req (request_step codec req) s

module _ {W Url Net : Type 0} (pr : Program Net) (codec : Codec)
    (get_pod : GoString → Call W GoString) (identity ip : GoString)
    (told : (w : W) → (get_pod identity w).0 ≡ success ip) (has_ip : ip ≢ [])
    (listen_addr : GoString) (parse : GoString → Option Url) (at : Url → Option ℕ) (u : Url)
    (leader : ℕ) (parses : parse (bytes "http://" ++ (ip ++ listen_addr)) ≡ some u)
    (listens : at u ≡ some leader) where
  same_branches : (b : Bool) (c : Core Net) → (if b then c else c) ≡ c
  same_branches true c = refl
  same_branches false c = refl

  core-served :
      (req : Request) (i j : ℕ) (c : Core Net)
      → serve_at codec req (served_by i) j c
        ≡ (if i == j then after_request pr (request_step codec req) c else c)
  unfolding serve_at
  core-served req i j c =
      ap (λ (x : Core Net). if i == j then x else c)
        (serve-after_request pr codec req new_writer c).1

  core-unrouted :
      (req : Request) (i j : ℕ) (c : Core Net)
      → request_step codec req ≡ none
      → serve_at codec req (served_by i) j c ≡ c
  core-unrouted req i j c q = core-served req i j c ∙ rw q (same_branches (i == j) c)

  -- Where one instance leads and the others can reach it, a request takes effect at the leader and
  -- nowhere else, at whichever instance it arrives: the leader's core takes the step that the request is,
  -- if it is one, and every other core stays as it is.
  pub leader_takes_step :
      (hops i j : ℕ) (req : Request) (rs : Replicas Net) (w : W)
      → (rs leader).instance_of.elector.leading ≡ true
      → ((k : ℕ) → k ≢ leader → Points identity ip (rs k).instance_of)
      → ((submit get_pod listen_addr parse at codec (suc (suc hops)) i req (rs, w)).1.0 j).core ≡ (
          if leader == j
          then after_request pr (request_step codec req) (rs j).core
          else (rs j).core)
  unfolding submit routed after_fate
  leader_takes_step hops i j req rs w leads others = elim (Option-cases (request_step codec req)) [
    | inl q ↦
        let c = (rs j).core in
        rw q (core-unrouted req i j c q ∙ sym (same_branches (leader == j) c))
    | inr (a, q) ↦
        let fate =
          served_by_leader get_pod identity ip told has_ip listen_addr parse at u leader parses
            listens hops i (instances rs) w leads others in
        rw q (
          ap (λ f. serve_at codec req f j (rs j).core) fate
          ∙ (core-served req leader j (rs j).core ∙ rw q refl))
  ]
