-- ===== src/Notification/Build/Deterministic/Counts.antt =====
-- The counts of triggers in two orders.
use argocd_notifier.Prelude.{
  ℕ, ◌+◌, ◌≡◌, refl, ◌∙◌, Option, none, some, List, [], ◌∷◌, arith, Reorders, same, skip, swap,
  chain, fun_ext, ◌==◌, ==-comm, eq_of_==, Bool-cases, inl, inr, subst, false, if◌then◌else◌,
}
use argocd_notifier.Text.{GoString, str_eq_iff, text_eq, sort_strings}
use argocd_notifier.Text.Order.{insert_sorted, insert_sorted_comm, sort_strings-append}
use argocd_notifier.Maps.{GoMap, lookup, get_or, keys, lookup-insert, keys-insert}
use argocd_notifier.Notification.Build.{increment, count_part, summary}

-- Two maps of counts that cannot be told apart but by the order of a `range`.
pub record SameCounts (c c' : GoMap GoString ℕ) : Type 0 where
  pub sorted : sort_strings (keys c) ≡ sort_strings (keys c')
  pub at : (t : GoString) → lookup t c ≡ lookup t c'

pub SameCounts-refl : (c : GoMap GoString ℕ) → SameCounts c c
SameCounts-refl c = record { sorted = refl; at = λ t. refl }

SameCounts-trans : {a b c : GoMap GoString ℕ} → SameCounts a b → SameCounts b c → SameCounts a c
SameCounts-trans h k = record { sorted = h.sorted ∙ k.sorted; at = λ t. h.at t ∙ k.at t }

sorted_after : GoString → Option ℕ → List GoString → List GoString
sorted_after t none ks = insert_sorted t ks
sorted_after t (some _) ks = ks

sorted_keys-increment :
    (t : GoString) (c : GoMap GoString ℕ)
    → sort_strings (keys (increment t c)) ≡ sorted_after t (lookup t c) (sort_strings (keys c))
unfolding increment sorted_after
sorted_keys-increment t c =
    rw (keys-insert t (get_or t 0 c + 1) c) (ground (arith, sort_strings-append (keys c) t))

lookup-increment :
    (t u : GoString) (c : GoMap GoString ℕ)
    → lookup u (increment t c) ≡ (if t == u then some (get_or t 0 c + 1) else lookup u c)
unfolding increment
lookup-increment t u c = lookup-insert t u (get_or t 0 c + 1) c

get_or-congr :
    (t : GoString) (c c' : GoMap GoString ℕ)
    → lookup t c ≡ lookup t c'
    → get_or t 0 c ≡ get_or t 0 c'
unfolding get_or
get_or-congr t c c' p = rw (p, get_or)

SameCounts-increment :
    (t : GoString) {c c' : GoMap GoString ℕ}
    → SameCounts c c'
    → SameCounts (increment t c) (increment t c')
SameCounts-increment t {c} {c'} h = record {
  sorted = simp (sorted_keys-increment, h.at t, h.sorted);
  at = λ u. simp (lookup-increment, h.at u, get_or-congr t c c' (h.at t));
}

increment_ne_comm :
    (t u : GoString) (c : GoMap GoString ℕ)
    → (t == u) ≡ false
    → SameCounts (increment t (increment u c)) (increment u (increment t c))
unfolding get_or sorted_after
increment_ne_comm t u c ne = record {
  sorted =
      simp (sorted_keys-increment, lookup-increment)
        (ground (arith, ==-comm t u, insert_sorted_comm t u (sort_strings (keys c))));
  at = λ v. simp lookup-increment (
      ground (
        arith,
        ==-comm t u,
        str_eq_iff t v,
        str_eq_iff u v,
        str_eq_iff t u,
        lookup-increment u t c,
        lookup-increment t u c,
      ));
}

increment_comm :
    (t u : GoString) (c : GoMap GoString ℕ)
    → SameCounts (increment t (increment u c)) (increment u (increment t c))
increment_comm t u c = elim (Bool-cases (t == u)) [
  | inl p ↦
      subst (λ v. SameCounts (increment t (increment v c)) (increment v (increment t c)))
        (eq_of_== t u p) (SameCounts-refl _)
  | inr p ↦ increment_ne_comm t u c p
]

-- The first loop of `Build`, at the triggers alone.
unfoldable pub count_all : GoMap GoString ℕ → List GoString → GoMap GoString ℕ
count_all c [] = c
count_all c (t ∷ ts) = count_all (increment t c) ts

count_all-congr :
    (c c' : GoMap GoString ℕ) (ts : List GoString)
    → SameCounts c c'
    → SameCounts (count_all c ts) (count_all c' ts)
unfolding count_all
count_all-congr c c' [] h = h
count_all-congr c c' (t ∷ ts) h =
    count_all-congr (increment t c) (increment t c') ts (SameCounts-increment t h)

pub SameCounts-count_all :
    {ts ts' : List GoString} (c : GoMap GoString ℕ)
    → Reorders ts ts'
    → SameCounts (count_all c ts) (count_all c ts')
unfolding count_all
SameCounts-count_all c same = SameCounts-refl _
SameCounts-count_all c (skip {x} r) = SameCounts-count_all (increment x c) r
SameCounts-count_all c (swap {x} {y} {xs}) = count_all-congr _ _ xs (increment_comm y x c)
SameCounts-count_all c (chain r t) =
    SameCounts-trans (SameCounts-count_all c r) (SameCounts-count_all c t)

count_part-SameCounts :
    {c c' : GoMap GoString ℕ} → SameCounts c c' → (t : GoString) → count_part c t ≡ count_part c' t
unfolding count_part
count_part-SameCounts {c} {c'} h t = rw (get_or-congr t c c' (h.at t))

-- The summary shows no more than that.
pub summary-SameCounts :
    (g : GoString) {c c' : GoMap GoString ℕ} → SameCounts c c' → summary g c ≡ summary g c'
unfolding summary
summary-SameCounts g h = rw (h.sorted, fun_ext (count_part-SameCounts h))
