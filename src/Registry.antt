-- ===== src/Registry.antt =====
-- internal/registry/registry.go: the backends that registered themselves. Each operation reads the
-- clock once, under the lock.
pub mod Prune
pub mod History
pub mod Handler
use argocd_notifier.Prelude.{
  ℕ, Bool, true, false, ◌||◌, Option, none, some, List, [], ◌∷◌, ◌++◌, ◌==◌, if◌then◌else◌, length,
}
use argocd_notifier.Text.{GoString, text_eq, is_empty, trim_suffix, bytes}
use argocd_notifier.Maps.{GoMap, lookup, insert}
use argocd_notifier.Event.{join_errors}
use argocd_notifier.Aggregator.Clock.{Time, Duration, is_stale}

pub data RegisterError : Type 0 where
  missing_name missing_base_url : RegisterError

pub record Backend : Type 0 where
  pub name : GoString
  pub base_url : GoString
  pub supports_thread_reply : Bool
  pub last_seen : Time

pub record Registry : Type 0 where
  pub ttl : Duration
  pub backends : GoMap GoString Backend

unfoldable pub new_registry : Duration → Registry
new_registry ttl = record { ttl = ttl; backends = [] }

-- The loop of `pruneLocked`. Go allows `delete` in a `range` over the same map.
unfoldable pub prune : Duration → Time → GoString → GoMap GoString Backend → GoMap GoString Backend
prune ttl now skip [] = []
prune ttl now skip ((name, b) ∷ m) =
    if name == skip
    then (name, b) ∷ prune ttl now skip m
    else if is_stale now b.last_seen ttl
    then prune ttl now skip m
    else (name, b) ∷ prune ttl now skip m

-- !existed || now.Sub(prior.LastSeen) > r.ttl
unfoldable pub is_new : Duration → Time → Option Backend → Bool
is_new ttl now none = true
is_new ttl now (some prior) = is_stale now prior.last_seen ttl

unfoldable pub register_errors : GoString → GoString → List RegisterError
register_errors name base_url =
    let errs = if is_empty name then missing_name ∷ [] else [] in
    if is_empty base_url then errs ++ missing_base_url ∷ [] else errs

-- What `Register` does when its arguments are complete.
unfoldable pub register_valid : Time → GoString → GoString → Bool → Registry → Bool × Registry
unfolding is_new prune
register_valid now name base_url supports_thread_reply r =
    let b : Backend = record {
      name = name;
      base_url = trim_suffix base_url (bytes "/");
      supports_thread_reply = supports_thread_reply;
      last_seen = now;
    } in
    (
      is_new r.ttl now (lookup name r.backends),
      record r { backends = prune r.ttl now name (insert name b r.backends) },
    )

-- (isNew, err), and the registry behind the call
unfoldable pub register :
    Time → GoString → GoString → Bool → Registry → (Bool × Option (List RegisterError)) × Registry
unfolding register_errors join_errors register_valid
register now name base_url supports_thread_reply r =
    elim (join_errors (register_errors name base_url)) [
      | some errs ↦ ((false, some errs), r)
      | none ↦
          let (fresh, r') = register_valid now name base_url supports_thread_reply r in
          ((fresh, none), r')
    ]

unfoldable pub fresh_backend : Duration → Time → Option Backend → Option Backend
fresh_backend ttl now none = none
fresh_backend ttl now (some b) = if is_stale now b.last_seen ttl then none else some b

-- `Lookup`
unfoldable pub find : Time → GoString → Registry → Option Backend
unfolding fresh_backend
find now name r = fresh_backend r.ttl now (lookup name r.backends)

-- `Len`
unfoldable pub len : Registry → ℕ
len r = length r.backends
