-- ===== src/Text/Split.antt =====
-- `strings.Split` with a separator of one byte.
use argocd_notifier.Prelude.{
  ℕ, ◌≡◌, ◌≢◌, refl, List, [], ◌∷◌, ◌++◌, arith, ◌==◌, nat_eq, nat_beq_iff, if◌then◌else◌, All,
}
use argocd_notifier.Text.Core.{GoString, join}

-- Puts a byte in front of the first part. (`split` always gives a part.)
unfoldable pub on_first : ℕ → List GoString → List GoString
on_first c [] = (c ∷ []) ∷ []
on_first c (p ∷ ps) = (c ∷ p) ∷ ps

unfoldable pub split : GoString → ℕ → List GoString
unfolding on_first
split [] sep = [] ∷ []
split (c ∷ s) sep = let rest = split s sep in if c == sep then [] ∷ rest else on_first c rest

-- No part holds the separator.
pub split-All-ne : (s : GoString) (sep : ℕ) → All (All (λ c. c ≢ sep)) (split s sep)
unfolding split
split-All-ne [] sep = (tt, tt)
split-All-ne (c ∷ s) sep = ground (arith, nat_beq_iff c sep, split-All-ne s sep)

join-empty-cons :
    (sep : ℕ) (p : GoString) (ps : List GoString)
    → ps ≢ []
    → join (sep ∷ []) (p ∷ ps) ≡ p ++ sep ∷ join (sep ∷ []) ps
unfolding join
join-empty-cons sep p [] h = absurd (h refl)
join-empty-cons sep p (q ∷ ps) h = refl

join-on_first :
    (sep c : ℕ) (ps : List GoString) → join (sep ∷ []) (on_first c ps) ≡ c ∷ join (sep ∷ []) ps
unfolding join on_first
join-on_first sep c [] = refl
join-on_first sep c (p ∷ []) = refl
join-on_first sep c (p ∷ q ∷ ps) = refl

split-ne-nil : (s : GoString) (sep : ℕ) → split s sep ≢ []
unfolding split
split-ne-nil [] sep = ground arith
split-ne-nil (c ∷ s) sep = ground (arith, split-ne-nil s sep)

-- The parts, joined again, are the text.
pub join-split : (s : GoString) (sep : ℕ) → join (sep ∷ []) (split s sep) ≡ s
unfolding split join
join-split [] sep = refl
join-split (c ∷ s) sep = ground (
  arith,
  nat_beq_iff c sep,
  join-empty-cons sep [] (split s sep) (split-ne-nil s sep),
  join-on_first sep c (split s sep),
  join-split s sep,
)
