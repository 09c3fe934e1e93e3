-- ===== src/Registry/History.antt =====
-- The registry against a specification: the list of the registrations that were made.
use argocd_notifier.Prelude.{
  ◌≤◌, ◌≡◌, refl, ap, ◌∙◌, Bool, true, false, Option, none, some, List, [], ◌∷◌, arith, ◌==◌,
  eq_of_==, ne_of_==, if◌then◌else◌, Bool-cases, inl, inr, All, ◌⊎◌, subst,
}
use argocd_notifier.Text.{GoString, text_eq, trim_suffix, bytes, is_empty}
use argocd_notifier.Maps.{
  GoMap, lookup, insert, keys, Distinct, insert-Distinct, lookup-insert_self, lookup-insert_ne,
}
use argocd_notifier.Event.{join_errors}
use argocd_notifier.Aggregator.Clock.{Time, Duration, is_stale}
use argocd_notifier.Registry.{
  Backend, Registry, new_registry, prune, is_new, register_errors, register_valid, register,
  fresh_backend, find,
}
use argocd_notifier.Registry.Prune.{prune-Distinct, lookup-prune_skip, fresh-prune, prune-fresh}

-- A call of `Register`.
pub record Registration : Type 0 where
  pub at : Time
  pub name : GoString
  pub base_url : GoString
  pub supports_thread_reply : Bool

-- The calls of a history, the latest first, at times that do not go back, the last of them not behind
-- `now`.
abbrev pub InOrder : Time → List Registration → Type 0
InOrder now [] = Unit
InOrder now (c ∷ cs) = (c.at ≤ now) × InOrder c.at cs

-- Whether the registry takes the arguments.
abbrev pub is_complete : Registration → Bool
is_complete c = if is_empty c.name then false else if is_empty c.base_url then false else true

abbrev pub backend_of : Registration → Backend
backend_of c = record {
  name = c.name;
  base_url = trim_suffix c.base_url (bytes "/");
  supports_thread_reply = c.supports_thread_reply;
  last_seen = c.at;
}

-- The latest complete registration under a name.
abbrev pub latest : GoString → List Registration → Option Backend
latest k [] = none
latest k (c ∷ cs) =
    let rest = latest k cs in
    if is_complete c then if c.name == k then some (backend_of c) else rest else rest

abbrev pub registry_after : Duration → List Registration → Registry
registry_after ttl [] = new_registry ttl
registry_after ttl (c ∷ cs) =
    (register c.at c.name c.base_url c.supports_thread_reply (registry_after ttl cs)).1

pub register_complete :
    (c : Registration) (r : Registry)
    → is_complete c ≡ true
    → register c.at c.name c.base_url c.supports_thread_reply r ≡ (
      (is_new r.ttl c.at (lookup c.name r.backends), none),
      record r { backends = prune r.ttl c.at c.name (insert c.name (backend_of c) r.backends) },
    )
unfolding register register_errors register_valid join_errors
register_complete c r h = ground arith

register_incomplete :
    (c : Registration) (r : Registry)
    → is_complete c ≡ false
    → (register c.at c.name c.base_url c.supports_thread_reply r).1 ≡ r
unfolding register register_errors join_errors
register_incomplete c r h = ground arith

-- What `Lookup` says behind a registration: for its own name the new entry while that is fresh, for
-- any other name what it said before, although stale entries have been pruned. A registration that
-- lacks its name or its address changes nothing.
pub find-register :
    (c : Registration) (r : Registry) (later : Time) (k : GoString)
    → c.at ≤ later
    → Distinct (keys r.backends)
    → find later k (register c.at c.name c.base_url c.supports_thread_reply r).1 ≡ (
        if is_complete c
        then if c.name == k
          then if is_stale later c.at r.ttl then none else some (backend_of c)
          else find later k r
        else find later k r)
unfolding find fresh_backend
find-register c r later k le d = elim (Bool-cases (is_complete c)) [
  | inr bad ↦ rw bad (rw (register_incomplete c r bad) refl)
  | inl ok ↦
      let m : GoMap GoString Backend = insert c.name (backend_of c) r.backends in
      elim (Bool-cases (c.name == k)) [
        | inl same ↦
            rw (ok, same, register_complete c r ok)
              (subst
                (λ j.
                  fresh_backend r.ttl later (lookup j (prune r.ttl c.at c.name m))
                  ≡ fresh_backend r.ttl later (some (backend_of c)))
                (eq_of_== c.name k same)
                (ap (fresh_backend r.ttl later) (
                  lookup-prune_skip r.ttl c.at c.name m
                  ∙ lookup-insert_self c.name (backend_of c) r.backends)))
        | inr other ↦
            rw (ok, other, register_complete c r ok)
              (fresh-prune r.ttl c.at c.name later k m le
                  (insert-Distinct c.name (backend_of c) r.backends d)
                ∙ ap (fresh_backend r.ttl later)
                    (lookup-insert_ne c.name k (backend_of c) r.backends (ne_of_== c.name k other)))
      ]
]

-- `Register` reports a new backend exactly when `Lookup` of the name would have found none at that
-- moment.
pub is_new-find :
    (c : Registration) (r : Registry)
    → is_complete c ≡ true
    → (register c.at c.name c.base_url c.supports_thread_reply r).0
      ≡ ((elim (find c.at c.name r) [ none ↦ true | some _ ↦ false ]), none)
unfolding find fresh_backend is_new
is_new-find c r ok = rw (register_complete c r ok) (ground arith)

-- The entries that a registration leaves are its own and fresh ones.
pub register-fresh :
    (c : Registration) (r : Registry)
    → is_complete c ≡ true
    → All
        (λ e. (e.0 ≡ c.name) ⊎ (is_stale c.at e.1.last_seen r.ttl ≡ false))
        (register c.at c.name c.base_url c.supports_thread_reply r).1.backends
register-fresh c r ok =
    rw (register_complete c r ok)
      (prune-fresh r.ttl c.at c.name (insert c.name (backend_of c) r.backends))

register-Distinct :
    (c : Registration) (r : Registry)
    → Distinct (keys r.backends)
    → Distinct (keys (register c.at c.name c.base_url c.supports_thread_reply r).1.backends)
register-Distinct c r d = elim (Bool-cases (is_complete c)) [
  | inl ok ↦
      rw (register_complete c r ok)
        (prune-Distinct r.ttl c.at c.name _ (insert-Distinct c.name (backend_of c) r.backends d))
  | inr bad ↦ rw (register_incomplete c r bad) d
]

pub registry_after-Distinct :
    (ttl : Duration) (cs : List Registration) → Distinct (keys (registry_after ttl cs).backends)
unfolding new_registry
registry_after-Distinct ttl [] = tt
registry_after-Distinct ttl (c ∷ cs) =
    register-Distinct c (registry_after ttl cs) (registry_after-Distinct ttl cs)

registry_after-ttl : (ttl : Duration) (cs : List Registration) → (registry_after ttl cs).ttl ≡ ttl
unfolding new_registry
registry_after-ttl ttl [] = refl
registry_after-ttl ttl (c ∷ cs) = elim (Bool-cases (is_complete c)) [
  | inl ok ↦
      ap (λ x. x.1.ttl) (register_complete c (registry_after ttl cs) ok) ∙ registry_after-ttl ttl cs
  | inr bad ↦
      ap (λ x. x.ttl) (register_incomplete c (registry_after ttl cs) bad)
      ∙ registry_after-ttl ttl cs
]

InOrder-later :
    (now later : Time) (cs : List Registration) → now ≤ later → InOrder now cs → InOrder later cs
InOrder-later now later [] le h = tt
InOrder-later now later (c ∷ cs) le h = (omega (arith, h.0), h.1)

find-new : (ttl : Duration) (now : Time) (k : GoString) → find now k (new_registry ttl) ≡ none
unfolding find new_registry lookup fresh_backend
find-new ttl now k = refl

-- After any history of registrations, `Lookup` finds the latest complete one under the name, if it is
-- not older than the TTL, and nothing otherwise.
pub find-latest :
    (ttl : Duration) (now : Time) (k : GoString) (cs : List Registration)
    → InOrder now cs
    → find now k (registry_after ttl cs) ≡ elim (latest k cs) [
      | none ↦ none
      | some b ↦ if is_stale now b.last_seen ttl then none else some b
    ]
find-latest ttl now k [] h = find-new ttl now k
find-latest ttl now k (c ∷ cs) h =
    let ih = find-latest ttl now k cs (InOrder-later c.at now cs h.0 h.1) in
    find-register c (registry_after ttl cs) now k h.0 (registry_after-Distinct ttl cs)
    ∙ rw (ih, registry_after-ttl ttl cs)
        (elim (Bool-cases (is_complete c)) [
          | inr bad ↦ rw bad refl
          | inl ok ↦ elim (Bool-cases (c.name == k)) [
            | inl same ↦ rw (ok, same) refl
            | inr other ↦ rw (ok, other) refl
          ]
        ])
