-- ===== src/Aggregator/Engine/Drain.antt =====
-- From wherever the engine is, passing time and callbacks can empty all groups.
pub mod Busy
pub mod Progress
use argocd_notifier.Prelude.{
  ℕ, zero, suc, ◌≤◌, ◌≡◌, refl, inl, inr, Bool, some, [], arith, ◌==◌, nat_eq, Bool-cases,
  if◌then◌else◌, eq_of_==, ne_of_==,
}
use argocd_notifier.Text.{text_eq}
use argocd_notifier.Maps.{get_or, get_or-some, keys, Distinct}
use argocd_notifier.Aggregator.Engine.{Config, Engine, new_group}
use argocd_notifier.Aggregator.Engine.Steps.{perform, perform_all, arrivals}
use argocd_notifier.Aggregator.Engine.Armed.{IsArmed}
use argocd_notifier.Aggregator.Engine.Armed.Always.{perform_all-IsArmed}
use argocd_notifier.Aggregator.Engine.Drain.Busy.{busy, busy_group, full-ne, perform_all-Distinct}
use argocd_notifier.Aggregator.Engine.Drain.Progress.{Leads, leads-behind, progress}

module _ (cfg : Config) where
  -- So many groups as hold events can be emptied, one by one.
  pub drains :
      (k : ℕ) (e : Engine)
      → busy e ≤ k
      → IsArmed e
      → Distinct (keys e.groups)
      → Leads cfg e (λ e'. busy e' ≡ 0)
  unfolding arrivals perform_all
  drains zero e le h d = record { steps = []; no_arrivals = refl; reached = omega (arith, le) }
  drains (suc k) e le h d = elim (Bool-cases (busy e == 0)) [
    | inl z ↦ record { steps = []; no_arrivals = refl; reached = eq_of_== (busy e) 0 z }
    | inr nz ↦
        let (gk, gs, found, full) = busy_group e.groups d (ne_of_== (busy e) 0 nz) in
        let l =
          progress cfg e gk h
            (rw (get_or-some gk new_group gs e.groups found) (full-ne gs.buckets full)) in
        let less = l.reached in
        leads-behind cfg l.steps e _ l.no_arrivals (
          drains k (perform_all cfg l.steps e).0 (omega (arith, le, less))
            (perform_all-IsArmed cfg l.steps e h) (perform_all-Distinct cfg l.steps e d))
  ]
