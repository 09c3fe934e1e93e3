-- ===== src/Registry/Prune.antt =====
-- What a pruned registry keeps.
use argocd_notifier.Prelude.{
  ℕ, ◌≤◌, ◌≡◌, ◌≢◌, refl, true, false, none, some, [], ◌∷◌, arith, ◌==◌, eq_of_==, if◌then◌else◌,
  Bool-cases, inl, inr, All, ◌⊎◌, subst,
}
use argocd_notifier.Prelude.Int.{ℤ, ltb_ℤ, sub_ℕ, ◌≤ℤ◌}
use argocd_notifier.Text.{GoString, text_eq}
use argocd_notifier.Maps.{GoMap, lookup, keys, Distinct, lookup-none_of_All-ne}
use argocd_notifier.Aggregator.Clock.{
  Time, Duration, is_stale, time_sub, max_duration, min_duration,
}
use argocd_notifier.Registry.{Backend, prune, fresh_backend}

clamp_mono :
    (lo hi a b ttl : ℤ)
    → a ≤ℤ b
    → lo ≤ℤ hi
    → ltb_ℤ ttl (if ltb_ℤ hi a then hi else if ltb_ℤ a lo then lo else a) ≡ true
    → ltb_ℤ ttl (if ltb_ℤ hi b then hi else if ltb_ℤ b lo then lo else b) ≡ true
clamp_mono lo hi a b ttl h k s = ground arith

sub_ℕ_mono : (a b c : ℕ) → a ≤ b → sub_ℕ a c ≤ℤ sub_ℕ b c
sub_ℕ_mono a b c h = ground arith

-- What is stale stays stale.
pub is_stale_mono :
    (now later last : Time) (ttl : Duration)
    → now ≤ later
    → is_stale now last ttl ≡ true
    → is_stale later last ttl ≡ true
unfolding is_stale time_sub
is_stale_mono now later last ttl le s =
    clamp_mono min_duration max_duration (sub_ℕ now last) (sub_ℕ later last) ttl
      (sub_ℕ_mono now later last le) (omega arith) s

module _ (ttl : Duration) (now : Time) (skip : GoString) where
  All-ne-prune :
      (k : GoString) (m : GoMap GoString Backend)
      → All (λ j. j ≢ k) (keys m)
      → All (λ j. j ≢ k) (keys (prune ttl now skip m))
  unfolding prune
  All-ne-prune k [] h = h
  All-ne-prune k ((j, b) ∷ m) h = elim (Bool-cases (j == skip)) [
    | inl p ↦ rw p (h.0, All-ne-prune k m h.1)
    | inr p ↦ elim (Bool-cases (is_stale now b.last_seen ttl)) [
      | inl q ↦ rw (p, q) (All-ne-prune k m h.1)
      | inr q ↦ rw (p, q) (h.0, All-ne-prune k m h.1)
    ]
  ]

  pub prune-Distinct :
      (m : GoMap GoString Backend) → Distinct (keys m) → Distinct (keys (prune ttl now skip m))
  unfolding prune
  prune-Distinct [] d = d
  prune-Distinct ((j, b) ∷ m) d = elim (Bool-cases (j == skip)) [
    | inl p ↦ rw p (All-ne-prune j m d.0, prune-Distinct m d.1)
    | inr p ↦ elim (Bool-cases (is_stale now b.last_seen ttl)) [
      | inl q ↦ rw (p, q) (prune-Distinct m d.1)
      | inr q ↦ rw (p, q) (All-ne-prune j m d.0, prune-Distinct m d.1)
    ]
  ]

  pub lookup-prune_skip :
      (m : GoMap GoString Backend) → lookup skip (prune ttl now skip m) ≡ lookup skip m
  unfolding prune lookup
  lookup-prune_skip [] = refl
  lookup-prune_skip ((j, b) ∷ m) = ground (arith, lookup-prune_skip m)

  stale-fresh :
      (later : Time) (b : Backend)
      → now ≤ later
      → is_stale now b.last_seen ttl ≡ true
      → fresh_backend ttl later none ≡ fresh_backend ttl later (some b)
  unfolding fresh_backend
  stale-fresh later b le s = rw (is_stale_mono now later b.last_seen ttl le s) refl

  -- Nobody who looks later can tell that the stale entries are gone.
  pub fresh-prune :
      (later : Time) (k : GoString) (m : GoMap GoString Backend)
      → now ≤ later
      → Distinct (keys m)
      → fresh_backend ttl later (lookup k (prune ttl now skip m))
        ≡ fresh_backend ttl later (lookup k m)
  unfolding prune lookup
  fresh-prune later k [] le d = refl
  fresh-prune later k ((j, b) ∷ m) le d = elim (Bool-cases (j == skip)) [
    | inl p ↦ elim (Bool-cases (j == k)) [
      | inl q ↦ rw (p, q) refl
      | inr q ↦ rw (p, q) (fresh-prune later k m le d.1)
    ]
    | inr p ↦ elim (Bool-cases (is_stale now b.last_seen ttl)) [
      | inr s ↦ elim (Bool-cases (j == k)) [
        | inl q ↦ rw (p, s, q) refl
        | inr q ↦ rw (p, s, q) (fresh-prune later k m le d.1)
      ]
      | inl s ↦ elim (Bool-cases (j == k)) [
        | inr q ↦ rw (p, s, q) (fresh-prune later k m le d.1)
        | inl q ↦
            let gone : lookup k (prune ttl now skip m) ≡ none =
              lookup-none_of_All-ne k (prune ttl now skip m)
                (All-ne-prune k m (subst (λ i. All (λ x. x ≢ i) (keys m)) (eq_of_== j k q) d.0)) in
            rw (p, s, q) (rw gone (stale-fresh later b le s))
      ]
    ]
  ]

  -- What is left is fresh, but for the entry that was skipped.
  pub prune-fresh :
      (m : GoMap GoString Backend)
      → All (λ e. (e.0 ≡ skip) ⊎ (is_stale now e.1.last_seen ttl ≡ false)) (prune ttl now skip m)
  unfolding prune
  prune-fresh [] = tt
  prune-fresh ((j, b) ∷ m) = elim (Bool-cases (j == skip)) [
    | inl p ↦ rw p (inl (eq_of_== j skip p), prune-fresh m)
    | inr p ↦ elim (Bool-cases (is_stale now b.last_seen ttl)) [
      | inl q ↦ rw (p, q) (prune-fresh m)
      | inr q ↦ rw (p, q) (inr q, prune-fresh m)
    ]
  ]
