-- ===== src/Leader/Resolver.antt =====
-- internal/leader/pod_resolver.go: the address of the leader's pod. The Kubernetes API is a parameter:
-- `get_pod` gives the pod's IP, empty where it has none yet, and acts on the world outside.
use argocd_notifier.Prelude.{
  pick, ◌&&◌, not, Option, none, some, ℕ, List, [], ◌∷◌, ◌++◌, ◌==◌, if◌then◌else◌,
}
use argocd_notifier.Text.{GoString, text_eq, is_empty}
use argocd_notifier.Aggregator.Backends.{Outcome, success, failure, Call}

pub data ResolveError : Type 0 where
  get_pod_failed : GoString → GoString → ResolveError
  no_ip_yet : GoString → ResolveError

pub data Resolved : Type 0 where
  address : GoString → Resolved
  unresolved : ResolveError → Resolved

-- What the lock guards.
pub record PodAddressResolver : Type 0 where
  pub identity : GoString
  pub addr : GoString

-- NewPodAddressResolver. (The client and the namespace are in `get_pod`.)
abbrev pub new_resolver : PodAddressResolver
new_resolver = record { identity = []; addr = [] }

-- The first critical section: the address, if it is known.
unfoldable pub cached : GoString → PodAddressResolver → Option GoString
cached identity r = if (identity == r.identity) && not (is_empty r.addr) then some r.addr else none

-- The second critical section.
unfoldable pub store : GoString → GoString → PodAddressResolver → PodAddressResolver
store identity ip r = record { identity = identity; addr = ip }

-- Behind the answer of the API.
unfoldable pub after_get :
    GoString → Outcome GoString → PodAddressResolver → Resolved × PodAddressResolver
unfolding store
after_get identity (failure e) r = (unresolved (get_pod_failed identity e), r)
after_get identity (success ip) r =
    if is_empty ip then (unresolved (no_ip_yet identity), r) else (address ip, store identity ip r)

module _ {W : Type 0} where
  unfoldable pub fetch :
      GoString → Outcome GoString × W → PodAddressResolver → Resolved × (PodAddressResolver × W)
  unfolding after_get
  fetch identity (o, w) r = let (res, r') = after_get identity o r in (res, (r', w))

  unfoldable pub resolve_cached :
      (GoString → Call W GoString)
      → GoString
      → Option GoString
      → PodAddressResolver × W
      → Resolved × (PodAddressResolver × W)
  unfolding fetch
  resolve_cached get_pod identity (some addr) s = (address addr, s)
  resolve_cached get_pod identity none (r, w) = fetch identity (get_pod identity w) r

  -- A call of `Resolve` that no other call of it interrupts.
  unfoldable pub resolve :
      (GoString → Call W GoString)
      → GoString
      → PodAddressResolver × W
      → Resolved × (PodAddressResolver × W)
  unfolding resolve_cached cached
  resolve get_pod identity (r, w) = resolve_cached get_pod identity (cached identity r) (r, w)

-- Calls that overlap: a call that found nothing waits for the API, with its identity.
pub record Calls : Type 0 where
  pub resolver : PodAddressResolver
  pub asking : List GoString

pub data CallStep : Type 0 where
  begin : GoString → CallStep
  -- the API answers one of the calls that wait
  answer : ℕ → Outcome GoString → CallStep

-- What a step returns to a caller: the identity that was asked for, with the result.
abbrev pub Returned : Type 0
Returned = List (GoString × Resolved)

unfoldable pub begin_call : GoString → Option GoString → Calls → Calls × Returned
begin_call identity (some addr) c = (c, (identity, address addr) ∷ [])
begin_call identity none c = (record c { asking = c.asking ++ identity ∷ [] }, [])

unfoldable pub end_call :
    Outcome GoString → Option (GoString × List GoString) → Calls → Calls × Returned
unfolding after_get
end_call o none c = (c, [])
end_call o (some (identity, rest)) c =
    let (res, r) = after_get identity o c.resolver in
    (record { resolver = r; asking = rest }, (identity, res) ∷ [])

unfoldable pub call_step : CallStep → Calls → Calls × Returned
unfolding begin_call end_call cached pick
call_step (begin identity) c = begin_call identity (cached identity c.resolver) c
call_step (answer n o) c = end_call o (pick n c.asking) c

unfoldable pub call_steps : List CallStep → Calls → Calls × Returned
unfolding call_step
call_steps [] c = (c, [])
call_steps (s ∷ rest) c =
    let (c', out) = call_step s c in let (c'', out') = call_steps rest c' in (c'', out ++ out')
