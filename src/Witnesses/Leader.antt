-- ===== src/Witnesses/Leader.antt =====
-- The theorems on leader election at three instances.
use argocd_notifier.Prelude.{
  ℕ, ◌+◌, ◌≡◌, ◌≢◌, refl, pick, Bool-cases, eq_of_==, inr, true, false, Option, some, [], ◌∷◌, ◌++◌,
  List, ◌==◌, nat_eq, All, if◌then◌else◌, inl,
}
use argocd_notifier.Text.{GoString, text_eq, bytes, is_empty, str_eq}
use argocd_notifier.Aggregator.Backends.{success, Call}
use argocd_notifier.Leader.Resolver.{
  new_resolver, cached, after_get, store, Calls, CallStep, begin, answer, call_steps, call_step,
  begin_call, end_call,
}
use argocd_notifier.Leader.Cached.{Fits, CacheFits, Truthful, returned-Fits}
use argocd_notifier.Core.Server.{request_step, after_request}
use argocd_notifier.Core.Replicas.{Replicas, submit, leader_takes_step}
use argocd_notifier.Witnesses.Core.{new_core, program, codec, event_request}
use argocd_notifier.Prelude.Int.{pos}
use argocd_notifier.Leader.Proxy.{Answer, headers, direct}
use argocd_notifier.Leader.Proxy.Cluster.{Instance, Cluster, Points}
use argocd_notifier.Leader.Proxy.Answers.{reply, stranded, answered_by_leader}

-- The address that is right for a pod.
abbrev pod_ip : GoString → GoString
pod_ip identity = bytes "10.0.0." ++ identity

abbrev IsRight : GoString → GoString → Type 0
IsRight identity addr = pod_ip identity ≡ addr

abbrev calls : Calls
calls = record { resolver = new_resolver; asking = [] }

-- Two calls for different leaders, whose answers come in the other order.
abbrev steps : List CallStep
steps =
    begin (bytes "1")
    ∷ begin (bytes "2")
    ∷ answer 1 (success (pod_ip (bytes "2")))
    ∷ answer 0 (success (pod_ip (bytes "1")))
    ∷ []

truthful : Truthful IsRight steps calls
unfolding call_step begin_call end_call cached after_get store is_empty str_eq pick
truthful = (refl, (refl, tt))

returned-Fits_example :
    All (Fits IsRight) (call_steps steps calls).1
    × CacheFits IsRight (call_steps steps calls).0.resolver
returned-Fits_example = returned-Fits IsRight steps calls (λ ne. absurd (ne refl)) truthful

-- The API; the world counts its calls.
abbrev get_pod : GoString → Call ℕ GoString
get_pod identity w = (success (pod_ip identity), w + 1)

abbrev follower : Instance
follower = record {
  elector = record { leading = false; current_leader = some (bytes "1") };
  resolver = new_resolver;
}

abbrev leader : Instance
leader = record {
  elector = record { leading = true; current_leader = some (bytes "1") };
  resolver = new_resolver;
}

abbrev cluster : Cluster
cluster i = if i == 1 then leader else follower

follower-Points : Points (bytes "1") (pod_ip (bytes "1")) follower
follower-Points = record { idle = refl; sees = refl; cache = λ e. inl refl }

abbrev url : GoString
url = bytes "http://" ++ (pod_ip (bytes "1") ++ bytes ":8080")

abbrev parse : GoString → Option GoString
parse s = some s

-- The network: every address is instance 1.
abbrev listener : GoString → Option ℕ
listener u = some 1

others_point : (j : ℕ) → j ≢ 1 → Points (bytes "1") (pod_ip (bytes "1")) (cluster j)
others_point j ne = elim (Bool-cases (j == 1)) [
  | inl e ↦ absurd (ne (eq_of_== j 1 e))
  | inr e ↦ rw e follower-Points
]

-- Each instance answers at once, and counts what it served.
abbrev at_once : ℕ → Cluster × ℕ → Answer × (Cluster × ℕ)
at_once i s = (headers 7 202, (s.0, s.1 + 100))

-- Where each instance is a follower that took instance 1 for the leader, 1 itself too.
stranded_example :
    (reply get_pod (bytes ":8080") parse listener (pos 5000) 3 at_once 50 1 ((λ i. follower), 0)).0
    ≡ headers 5000 502
stranded_example =
    stranded get_pod (bytes "1") (pod_ip (bytes "1")) (λ w. refl) (λ e. cc e) (bytes ":8080") parse
      listener url 1 refl refl 4999 3 at_once 49 (λ i. follower) 0 follower-Points

answered_by_leader_example :
    (s : Cluster × ℕ) × ((j : ℕ) → (s.0 j).elector ≡ (cluster j).elector)
    × (s.1 ≡ (direct get_pod (bytes ":8080") parse follower.elector (new_resolver, 0)).1.1)
    × (reply get_pod (bytes ":8080") parse listener (pos 5000) 3 at_once 2 2 (cluster, 0)
        ≡ (headers 10 202, (at_once 1 s).1))
answered_by_leader_example =
    answered_by_leader get_pod (bytes "1") (pod_ip (bytes "1")) (λ w. refl) (λ e. cc e)
      (bytes ":8080") parse listener url 1 refl refl 4999 3 at_once 0 2 cluster 0 (λ s. 7)
      (λ s. 202) (λ s. refl) refl follower-Points

abbrev first : ℕ
first = 1

abbrev replicas : Replicas ℕ
replicas i = record { instance_of = cluster i; core = new_core }

leader_takes_step_example :
    ((submit get_pod (bytes ":8080") parse listener codec 2 2 event_request (replicas, 0)).1.0
      first).core
    ≡ (if first == first
        then after_request program (request_step codec event_request) new_core
        else new_core)
leader_takes_step_example =
    leader_takes_step program codec get_pod (bytes "1") (pod_ip (bytes "1")) (λ w. refl) (λ e. cc e)
      (bytes ":8080") parse listener url 1 refl refl 0 2 1 event_request replicas 0 refl
      others_point
