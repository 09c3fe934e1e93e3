-- ===== src/Prelude/Pick.antt =====
-- One element of a list by its position, and the others in their order.
use Prim.Native.Nat.{ℕ, zero, suc}
use mathlib.Core.Option.{Option, none, some}
use mathlib.Core.List.{List, [], ◌∷◌}
use mathlib.Core.Logic.{inl, inr}
use argocd_notifier.Prelude.Tests.{Option-cases}
use argocd_notifier.Prelude.Lists.{All}

module _ {ℓ} {A : Type ℓ} where
  unfoldable pub pick : ℕ → List A → Option (A × List A)
  pick n [] = none
  pick zero (x ∷ xs) = some (x, xs)
  pick (suc n) (x ∷ xs) =
      let rest = pick n xs in elim rest [ none ↦ none | some (y, ys) ↦ some (y, x ∷ ys) ]

module _ {ℓ κ} {A : Type ℓ} (P : A → Type κ) where
  -- A predicate of the picked element and of the others.
  abbrev pub AllPicked : Option (A × List A) → Type κ
  AllPicked none = Unit
  AllPicked (some (x, xs)) = All P (x ∷ xs)

  pub pick-AllPicked : (n : ℕ) (xs : List A) → All P xs → AllPicked (pick n xs)
  unfolding pick
  pick-AllPicked n [] h = tt
  pick-AllPicked zero (x ∷ xs) h = h
  pick-AllPicked (suc n) (x ∷ xs) h =
      let ih = pick-AllPicked n xs h.1 in
      elim (Option-cases (pick n xs)) [
        | inl q ↦ rw q tt
        | inr ((y, ys), q) ↦ let both : All P (y ∷ ys) = rw q at ih in rw q (both.0, (h.0, both.1))
      ]
