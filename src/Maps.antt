-- ===== src/Maps.antt =====
-- Go maps, as lists of entries with distinct keys. A `range` over a map visits its entries in an order
-- that Go leaves open: here that of the list. `Reorders` relates two such orders.
use argocd_notifier.Prelude.{
  ℕ, ◌+◌, ◌≡◌, ◌≢◌, refl, sym, subst, Option, none, some, List, [], ◌∷◌, map, arith, Eq, ◌==◌,
  eq_of_==, ne_of_==, Bool-cases, Option-cases, inl, inr, if◌then◌else◌, All, Reorders, same, skip,
  swap, chain, Reorders-map, All-Reorders, ◌∙◌, ◌++◌,
}

abbrev pub GoMap : Type 0 → Type 0 → Type 0
GoMap K V = List (K × V)

module _ {K V : Type 0} where
  abbrev pub keys : GoMap K V → List K
  keys m = map (λ e. e.0) m

  abbrev pub values : GoMap K V → List V
  values m = map (λ e. e.1) m

module _ {K V : Type 0} ⦃e : Eq K⦄ where
  -- v, ok := m[k]
  unfoldable pub lookup : K → GoMap K V → Option V
  lookup k [] = none
  lookup key ((k, v) ∷ rest) = if k == key then some v else lookup key rest

  -- m[k] = v
  unfoldable pub insert : K → V → GoMap K V → GoMap K V
  insert k v [] = (k, v) ∷ []
  insert key v ((k, old) ∷ rest) =
      if k == key then (key, v) ∷ rest else (k, old) ∷ insert key v rest

  -- maps.Copy(dst, src)
  unfoldable pub copy : GoMap K V → GoMap K V → GoMap K V
  unfolding insert
  copy dst [] = dst
  copy dst ((k, v) ∷ src) = copy (insert k v dst) src

  -- m[k], the zero value for a missing key
  unfoldable pub get_or : K → V → GoMap K V → V
  unfolding lookup
  get_or k zero_value m = elim (lookup k m) [ none ↦ zero_value | some v ↦ v ]

  -- What is found behind an assignment.
  pub lookup-insert :
      (key j : K) (v : V) (m : GoMap K V)
      → lookup j (insert key v m) ≡ (if key == j then some v else lookup j m)
  unfolding lookup insert
  lookup-insert key j v [] = refl
  lookup-insert key j v ((k, old) ∷ rest) =
      ground (arith, e.beq_iff key j, e.beq_iff k key, e.beq_iff k j, lookup-insert key j v rest)

  pub lookup-insert_self : (k : K) (v : V) (m : GoMap K V) → lookup k (insert k v m) ≡ some v
  lookup-insert_self k v m = ground (arith, lookup-insert k k v m, e.beq_iff k k)

  pub lookup-insert_ne :
      (k j : K) (v : V) (m : GoMap K V) → k ≢ j → lookup j (insert k v m) ≡ lookup j m
  lookup-insert_ne k j v m h = ground (arith, lookup-insert k j v m, e.beq_iff k j)

-- The keys are distinct.
module _ {K : Type 0} where
  abbrev pub Distinct : List K → Type 0
  Distinct [] = Unit
  Distinct (k ∷ ks) = All (λ j. j ≢ k) ks × Distinct ks

module _ {K V : Type 0} ⦃e : Eq K⦄ where
  insert-All-ne :
      (k i : K) (v : V) (m : GoMap K V)
      → k ≢ i
      → All (λ j. j ≢ i) (keys m)
      → All (λ j. j ≢ i) (keys (insert k v m))
  unfolding insert
  insert-All-ne k i v [] h a = (h, tt)
  insert-All-ne k i v ((j, w) ∷ m) h a = ground (arith, insert-All-ne k i v m h a.1, e.beq_iff j k)

  pub insert-Distinct :
      (k : K) (v : V) (m : GoMap K V) → Distinct (keys m) → Distinct (keys (insert k v m))
  unfolding insert
  insert-Distinct k v [] d = (tt, tt)
  insert-Distinct k v ((j, w) ∷ m) d = elim (Bool-cases (j == k)) [
    | inl p ↦ rw p (subst (λ i. Distinct (i ∷ keys m)) (eq_of_== j k p) d)
    | inr p ↦
        rw p (insert-All-ne k j v m (λ q. ne_of_== j k p (sym q)) d.0, insert-Distinct k v m d.1)
  ]

-- The keys of a map do not depend on the order of a `range`, nor does a lookup.
pub Distinct-Reorders : {A : Type 0} {xs ys : List A} → Reorders xs ys → Distinct xs → Distinct ys
Distinct-Reorders same d = d
Distinct-Reorders (skip {x} {xs} {ys} r) d =
    (All-Reorders (λ j. j ≢ x) r d.0, Distinct-Reorders r d.1)
Distinct-Reorders swap d = (((λ e. d.0.0 (sym e)), d.1.0), (d.0.1, d.1.1))
Distinct-Reorders (chain r t) d = Distinct-Reorders t (Distinct-Reorders r d)

module _ {K V : Type 0} ⦃e : Eq K⦄ where
  pub lookup-Reorders :
      (k : K) {m m' : GoMap K V} → Reorders m m' → Distinct (keys m) → lookup k m ≡ lookup k m'
  unfolding lookup
  lookup-Reorders k same d = refl
  lookup-Reorders k (skip {x} r) d = rw (lookup-Reorders k r d.1)
  lookup-Reorders k (swap {x} {y}) d = ground (arith, e.beq_iff x.0 k, e.beq_iff y.0 k, d.0.0)
  lookup-Reorders k (chain r t) d =
      lookup-Reorders k r d ∙ lookup-Reorders k t (Distinct-Reorders (Reorders-map (λ x. x.0) r) d)

  pub keys-insert :
      (k : K) (v : V) (m : GoMap K V)
      → keys (insert k v m) ≡ elim (lookup k m) [ none ↦ keys m ++ k ∷ [] | some _ ↦ keys m ]
  unfolding lookup insert
  keys-insert k v [] = refl
  keys-insert k v ((j, w) ∷ m) = ground (arith, e.beq_iff j k, keys-insert k v m)

abbrev pub weight_of {ℓ} : {V : Type ℓ} → (V → ℕ) → Option V → ℕ
weight_of w none = 0
weight_of w (some v) = w v

-- The sum of a weight of the values.
module _ {K V : Type 0} where
  unfoldable pub total : (V → ℕ) → GoMap K V → ℕ
  total w [] = 0
  total w ((k, v) ∷ m) = w v + total w m

module _ {K V : Type 0} ⦃e : Eq K⦄ where
  pub total-insert :
      (w : V → ℕ) (k : K) (v : V) (m : GoMap K V)
      → total w (insert k v m) + weight_of w (lookup k m) ≡ total w m + w v
  unfolding total insert lookup
  total-insert w k v [] = omega arith
  total-insert w k v ((j, u) ∷ m) = ground (arith, total-insert w k v m)

  pub weight-get_or :
      (w : V → ℕ) (k : K) (d : V) (m : GoMap K V)
      → w d ≡ 0
      → w (get_or k d m) ≡ weight_of w (lookup k m)
  unfolding get_or
  weight-get_or w k d m h = elim (Option-cases (lookup k m)) [
    | inl p ↦ rw (p, get_or) h
    | inr (v, p) ↦ rw (p, get_or)
  ]

  pub get_or-some : (k : K) (d v : V) (m : GoMap K V) → lookup k m ≡ some v → get_or k d m ≡ v
  unfolding get_or
  get_or-some k d v m h = rw (h, get_or) refl

  pub get_or-insert :
      (k j : K) (d v : V) (m : GoMap K V)
      → get_or j d (insert k v m) ≡ (if k == j then v else get_or j d m)
  unfolding get_or
  get_or-insert k j d v m = ground (arith, lookup-insert k j v m)

module _ {K V : Type 0} where
  pub total-append : (w : V → ℕ) (m m' : GoMap K V) → total w (m ++ m') ≡ total w m + total w m'
  unfolding total
  total-append w [] m' = omega arith
  total-append w ((k, v) ∷ m) m' = omega (arith, total-append w m m')

module _ {K V : Type 0} ⦃e : Eq K⦄ where
  pub get_or-insert_self : (k : K) (d v : V) (m : GoMap K V) → get_or k d (insert k v m) ≡ v
  get_or-insert_self k d v m = ground (arith, get_or-insert k k d v m, e.beq_iff k k)

  pub get_or-insert_ne :
      (k j : K) (d v : V) (m : GoMap K V) → k ≢ j → get_or j d (insert k v m) ≡ get_or j d m
  get_or-insert_ne k j d v m h = ground (arith, get_or-insert k j d v m, e.beq_iff k j)

module _ {K V : Type 0} ⦃e : Eq K⦄ where
  pub lookup-none_of_All-ne :
      (k : K) (m : GoMap K V) → All (λ j. j ≢ k) (keys m) → lookup k m ≡ none
  unfolding lookup
  lookup-none_of_All-ne k [] h = refl
  lookup-none_of_All-ne k ((j, v) ∷ m) h =
      ground (arith, e.beq_iff j k, lookup-none_of_All-ne k m h.1)

  -- A property of the entries' values.
  pub All-insert :
      (P : V → Type 0) (k : K) (v : V) (m : GoMap K V)
      → All P (values m)
      → P v
      → All P (values (insert k v m))
  unfolding insert
  All-insert P k v [] h p = (p, tt)
  All-insert P k v ((j, w) ∷ m) h p = elim (Bool-cases (j == k)) [
    | inl q ↦ rw q (p, h.1)
    | inr q ↦ rw q (h.0, All-insert P k v m h.1 p)
  ]

  pub insert-ne-nil : (k : K) (v : V) (m : GoMap K V) → insert k v m ≢ []
  unfolding insert
  insert-ne-nil k v [] = ground arith
  insert-ne-nil k v ((j, w) ∷ m) = elim (Bool-cases (j == k)) [
    | inl q ↦ rw q (λ p. cc)
    | inr q ↦ rw q (λ p. cc)
  ]

-- The value of the first option that has one.
abbrev pub or_else {ℓ} : {A : Type ℓ} → Option A → Option A → Option A
or_else none b = b
or_else (some a) b = some a

module _ {K V : Type 0} ⦃e : Eq K⦄ where
  pub lookup-copy :
      (k : K) (dst src : GoMap K V)
      → Distinct (keys src)
      → lookup k (copy dst src) ≡ or_else (lookup k src) (lookup k dst)
  unfolding copy lookup
  lookup-copy k dst [] d = refl
  lookup-copy k dst ((j, v) ∷ src) d = ground (
    arith,
    lookup-copy k (insert j v dst) src d.1,
    lookup-insert j k v dst,
    e.beq_iff j k,
    lookup-none_of_All-ne j src d.0,
  )

module _ {K V : Type 0} ⦃e : Eq K⦄ where
  -- A property of the entries.
  pub All-insert-entry :
      (P : K × V → Type 0) (k : K) (v : V) (m : GoMap K V)
      → All P m
      → P (k, v)
      → All P (insert k v m)
  unfolding insert
  All-insert-entry P k v [] h p = (p, tt)
  All-insert-entry P k v ((j, w) ∷ m) h p = elim (Bool-cases (j == k)) [
    | inl q ↦ rw q (p, h.1)
    | inr q ↦ rw q (h.0, All-insert-entry P k v m h.1 p)
  ]

module _ {K V : Type 0} ⦃e : Eq K⦄ where
  -- An entry that is found has what all entries have.
  pub All-lookup :
      (P : K × V → Type 0) (k : K) (v : V) (m : GoMap K V)
      → All P m
      → lookup k m ≡ some v
      → P (k, v)
  unfolding lookup
  All-lookup P k v [] h q = absurd (ground arith)
  All-lookup P k v ((j, w) ∷ m) h q = elim (Bool-cases (j == k)) [
    | inl p ↦
        let same : w ≡ v = ground arith in
        subst (λ (x : V). P (k, x)) same (subst (λ (i : K). P (i, w)) (eq_of_== j k p) h.0)
    | inr p ↦ All-lookup P k v m h.1 (ground arith)
  ]

  pub All-get_or :
      (P : K × V → Type 0) (k : K) (d : V) (m : GoMap K V)
      → All P m
      → P (k, d)
      → P (k, get_or k d m)
  unfolding get_or
  All-get_or P k d m h p = elim (Option-cases (lookup k m)) [
    | inl q ↦ rw (q, get_or) p
    | inr (v, q) ↦ rw (q, get_or) (All-lookup P k v m h q)
  ]
