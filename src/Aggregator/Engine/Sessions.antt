-- ===== src/Aggregator/Engine/Sessions.antt =====
-- A flush splits the events of a group among sessions.
use mathlib.Core.List.{append-nil, append_assoc}
use argocd_notifier.Prelude.{
  refl, ℕ, ◌+◌, ◌≡◌, sym, ◌∙◌, Bool, List, [], ◌∷◌, ◌++◌, arith, keep, length, ◌==◌, if◌then◌else◌,
  keep-append, length-append,
}
use argocd_notifier.Text.{GoString}
use argocd_notifier.Maps.{
  lookup, get_or, keys, Distinct, insert-Distinct, get_or-insert, total, total-insert,
  weight-get_or,
}
use argocd_notifier.Event.{Event}
use argocd_notifier.Aggregator.Keys.{SessionKey, session_key_eq, session_key_beq_iff}
use argocd_notifier.Aggregator.Engine.{
  Config, Buckets, Batch, session_key, add_to_session, flush_bucket, flush_buckets, flush,
}

-- The events of the buckets whose session is `k`, in the order of the buckets.
unfoldable pub events_of : Config → GoString → SessionKey → Buckets → List Event
events_of cfg gk k [] = []
events_of cfg gk k ((trigger, evs) ∷ rest) =
    keep (λ ev. session_key cfg gk trigger ev == k) evs ++ events_of cfg gk k rest

get_or-add_to_session :
    (k j : SessionKey) (ev : Event) (s : List Batch)
    → get_or k [] (add_to_session j ev s)
      ≡ (if j == k then get_or k [] s ++ ev ∷ [] else get_or k [] s)
unfolding add_to_session
get_or-add_to_session k j ev s =
    ground (arith, get_or-insert j k [] (get_or j [] s ++ ev ∷ []) s, session_key_beq_iff j k)

get_or-flush_bucket :
    (cfg : Config) (gk trigger : GoString) (k : SessionKey) (evs : List Event) (s : List Batch)
    → get_or k [] (flush_bucket cfg gk trigger evs s)
      ≡ get_or k [] s ++ keep (λ ev. session_key cfg gk trigger ev == k) evs
unfolding flush_bucket
get_or-flush_bucket cfg gk trigger k [] s = sym (append-nil (get_or k [] s))
get_or-flush_bucket cfg gk trigger k (ev ∷ evs) s =
    let j : SessionKey = session_key cfg gk trigger ev in
    ground (
      arith,
      get_or-flush_bucket cfg gk trigger k evs (add_to_session j ev s),
      get_or-add_to_session k j ev s,
      append_assoc (get_or k [] s) (ev ∷ []) (keep (λ x. session_key cfg gk trigger x == k) evs),
    )

get_or-flush_buckets :
    (cfg : Config) (gk : GoString) (k : SessionKey) (b : Buckets) (s : List Batch)
    → get_or k [] (flush_buckets cfg gk b s) ≡ get_or k [] s ++ events_of cfg gk k b
unfolding flush_buckets events_of
get_or-flush_buckets cfg gk k [] s = sym (append-nil (get_or k [] s))
get_or-flush_buckets cfg gk k ((trigger, evs) ∷ rest) s =
    get_or-flush_buckets cfg gk k rest (flush_bucket cfg gk trigger evs s)
    ∙ rw (get_or-flush_bucket cfg gk trigger k evs s) (append_assoc (get_or k [] s) _ _)

add_to_session-Distinct :
    (k : SessionKey) (ev : Event) (s : List Batch)
    → Distinct (keys s)
    → Distinct (keys (add_to_session k ev s))
unfolding add_to_session
add_to_session-Distinct k ev s d = insert-Distinct k _ s d

flush_bucket-Distinct :
    (cfg : Config) (gk trigger : GoString) (evs : List Event) (s : List Batch)
    → Distinct (keys s)
    → Distinct (keys (flush_bucket cfg gk trigger evs s))
unfolding flush_bucket
flush_bucket-Distinct cfg gk trigger [] s d = d
flush_bucket-Distinct cfg gk trigger (ev ∷ evs) s d =
    flush_bucket-Distinct cfg gk trigger evs (add_to_session (session_key cfg gk trigger ev) ev s)
      (add_to_session-Distinct _ ev s d)

flush_buckets-Distinct :
    (cfg : Config) (gk : GoString) (b : Buckets) (s : List Batch)
    → Distinct (keys s)
    → Distinct (keys (flush_buckets cfg gk b s))
unfolding flush_buckets
flush_buckets-Distinct cfg gk [] s d = d
flush_buckets-Distinct cfg gk ((trigger, evs) ∷ rest) s d =
    flush_buckets-Distinct cfg gk rest (flush_bucket cfg gk trigger evs s)
      (flush_bucket-Distinct cfg gk trigger evs s d)

-- `Upsert` is called once for each session, with exactly the events of that session, in the order in
-- which the buckets hold them.
pub flush_lem :
    (cfg : Config) (gk : GoString) (b : Buckets) (k : SessionKey)
    → Distinct (keys (flush cfg gk b)) × (get_or k [] (flush cfg gk b) ≡ events_of cfg gk k b)
unfolding flush get_or lookup
flush_lem cfg gk b k = (flush_buckets-Distinct cfg gk b [] tt, get_or-flush_buckets cfg gk k b [])

-- How many events of a list pass a test.
abbrev pub tally : (Event → Bool) → List Event → ℕ
tally p evs = length (keep p evs)

abbrev pub tally_batches : (Event → Bool) → List Batch → ℕ
tally_batches p = total (tally p)

abbrev pub tally_buckets : (Event → Bool) → Buckets → ℕ
tally_buckets p = total (tally p)

pub tally-append :
    (p : Event → Bool) (xs ys : List Event) → tally p (xs ++ ys) ≡ tally p xs + tally p ys
tally-append p xs ys = rw (keep-append p xs ys) (length-append (keep p xs) (keep p ys))

tally_batches-add_to_session :
    (p : Event → Bool) (k : SessionKey) (ev : Event) (s : List Batch)
    → tally_batches p (add_to_session k ev s) ≡ tally_batches p s + tally p (ev ∷ [])
unfolding add_to_session
tally_batches-add_to_session p k ev s = omega (
  arith,
  total-insert (tally p) k (get_or k [] s ++ ev ∷ []) s,
  tally-append p (get_or k [] s) (ev ∷ []),
  weight-get_or (tally p) k [] s refl,
)

tally_batches-flush_bucket :
    (p : Event → Bool) (cfg : Config) (gk trigger : GoString) (evs : List Event) (s : List Batch)
    → tally_batches p (flush_bucket cfg gk trigger evs s) ≡ tally_batches p s + tally p evs
unfolding flush_bucket
tally_batches-flush_bucket p cfg gk trigger [] s = omega arith
tally_batches-flush_bucket p cfg gk trigger (ev ∷ evs) s =
    let k : SessionKey = session_key cfg gk trigger ev in
    omega (
      arith,
      tally_batches-flush_bucket p cfg gk trigger evs (add_to_session k ev s),
      tally_batches-add_to_session p k ev s,
      tally-append p (ev ∷ []) evs,
    )

tally_batches-flush_buckets :
    (p : Event → Bool) (cfg : Config) (gk : GoString) (b : Buckets) (s : List Batch)
    → tally_batches p (flush_buckets cfg gk b s) ≡ tally_batches p s + tally_buckets p b
unfolding flush_buckets total
tally_batches-flush_buckets p cfg gk [] s = omega arith
tally_batches-flush_buckets p cfg gk ((trigger, evs) ∷ rest) s = omega (
  arith,
  tally_batches-flush_buckets p cfg gk rest (flush_bucket cfg gk trigger evs s),
  tally_batches-flush_bucket p cfg gk trigger evs s,
)

-- A flush hands over what the buckets held, each event once.
pub tally-flush :
    (p : Event → Bool) (cfg : Config) (gk : GoString) (b : Buckets)
    → tally_batches p (flush cfg gk b) ≡ tally_buckets p b
unfolding flush total
tally-flush p cfg gk b = omega (arith, tally_batches-flush_buckets p cfg gk b [])
