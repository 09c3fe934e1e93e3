-- ===== src/Aggregator/Engine/Drain/Progress.antt =====
-- Where a group holds events there are steps behind which one group fewer does.
use argocd_notifier.Prelude.{
  ℕ, zero, suc, ◌+◌, ◌<◌, ◌≡◌, ◌≢◌, refl, sym, ap, ◌∙◌, inl, inr, true, false, some, List, [], ◌∷◌,
  ◌++◌, length, arith, In, ◌==◌, nat_eq, Bool-cases, subst, ==-refl, ne_of_==,
}
use argocd_notifier.Text.{GoString, text_eq}
use argocd_notifier.Event.{Event}
use argocd_notifier.Aggregator.Clock.{Callback, Timer}
use argocd_notifier.Prelude.Int.{ℤ, pos, negsuc, ltb_ℤ}
use argocd_notifier.Aggregator.Clock.Outstanding.{In-append_right, In-keep}
use argocd_notifier.Aggregator.Engine.{Config, Engine, on_timer_fire}
use argocd_notifier.Aggregator.Engine.Steps.{
  Action, arrive, wait, expire, run, perform, perform_all, arrivals, run_callback, take_started,
  expire_timer, is_due,
}
use argocd_notifier.Aggregator.Engine.Armed.{state_of, IsArmed}
use argocd_notifier.Aggregator.Engine.Armed.Always.{In-take_started, current_flushes}
use argocd_notifier.Aggregator.Engine.Drain.Busy.{busy, busy-on_timer_fire}

-- A started timer can be taken off, and the list has one less then.
take_started-some :
    (t : Timer) (ts : List Timer)
    → In t ts
    → (f : Callback) × (us : List Timer) × (take_started t.id ts ≡ some (f, us))
      × (length ts ≡ suc (length us))
unfolding take_started
take_started-some t [] m = absurd m
take_started-some t (x ∷ ts) m = elim (Bool-cases (x.id == t.id)) [
  | inl q ↦ (x.callback, ts, rw q refl, refl)
  | inr q ↦ elim m [
    | inl here ↦ absurd (ne_of_== x.id t.id q (ap (λ (u : Timer). u.id) here))
    | inr there ↦
        let (f, us, found, len) = take_started-some t ts there in
        (f, x ∷ us, rw (q, found) refl, ap suc len)
  ]
]

pub perform_all-append :
    (cfg : Config) (xs ys : List Action) (e : Engine)
    → (perform_all cfg (xs ++ ys) e).0 ≡ (perform_all cfg ys (perform_all cfg xs e).0).0
unfolding perform_all
perform_all-append cfg [] ys e = refl
perform_all-append cfg (x ∷ xs) ys e = perform_all-append cfg xs ys (perform cfg x e).0

pub arrivals-append : (xs ys : List Action) → arrivals (xs ++ ys) ≡ arrivals xs ++ arrivals ys
unfolding arrivals
arrivals-append [] ys = refl
arrivals-append (arrive ev ∷ xs) ys = ap (λ (evs : List Event). ev ∷ evs) (arrivals-append xs ys)
arrivals-append (wait n ∷ xs) ys = arrivals-append xs ys
arrivals-append (expire id ∷ xs) ys = arrivals-append xs ys
arrivals-append (run id ∷ xs) ys = arrivals-append xs ys

-- Steps without arrivals that lead from one engine to another.
pub record Leads (cfg : Config) (e : Engine) (P : Engine → Type 0) : Type 0 where
  pub steps : List Action
  pub no_arrivals : arrivals steps ≡ []
  pub reached : P (perform_all cfg steps e).0

-- The callback that a group waits for.
abbrev current : Engine → GoString → Callback
current e gk = record { group_key = gk; generation = (state_of e gk).generation }

-- Once enough time has passed, the deadline of a timer has come.
due_by : (now : ℕ) (d : ℤ) → (n : ℕ) × (ltb_ℤ (pos (now + n)) d ≡ false)
due_by now (pos d) = (d, ground arith)
due_by now (negsuc d) = (0, ground arith)

due_then : (t : Timer) (now : ℕ) → (n : ℕ) × (is_due t.id (now + n) t ≡ true)
unfolding is_due
due_then t now = let (n, q) = due_by now t.deadline in (n, rw (==-refl t.id, q) refl)

module _ (cfg : Config) where
  -- The engine behind a started callback.
  run-started :
      (id : ℕ) (e : Engine) (f : Callback) (ts : List Timer)
      → take_started id e.clock.started ≡ some (f, ts)
      → (perform cfg (run id) e).0
        ≡ (on_timer_fire cfg f (record e { clock = record e.clock { started = ts } })).0
  unfolding perform
  run-started id e f ts q = rw (q, run_callback) refl

  -- A timer of the group that has started: running the timers with its id, of which it is one, flushes a
  -- group in the end.
  runs :
      (n : ℕ) (e : Engine) (t : Timer) (gk : GoString)
      → length e.clock.started ≡ n
      → In t e.clock.started
      → t.callback ≡ current e gk
      → (state_of e gk).buckets ≢ []
      → Leads cfg e (λ e'. busy e' < busy e)
  unfolding perform_all arrivals
  runs zero e t gk len m same full =
      absurd (omega (arith, len, (take_started-some t e.clock.started m).3))
  runs (suc n) e t gk len m same full =
      let (f, ts, found, less) = take_started-some t e.clock.started m in
      let e1 : Engine = record e { clock = record e.clock { started = ts } } in
      elim (busy-on_timer_fire cfg f e1) [
        | inr less ↦ record {
          steps = run t.id ∷ [];
          no_arrivals = refl;
          reached = rw (run-started t.id e f ts found) less;
        }
        | inl idle ↦ elim (In-take_started t.id t e.clock.started f ts found m) [
          | inl it ↦
              let empty = (current_flushes cfg gk e1 full).1 in
              absurd (
                full (
                  ap (λ (x : Engine). (state_of x gk).buckets) (sym idle)
                  ∙ ap (λ (g : Callback). (state_of (on_timer_fire cfg g e1).0 gk).buckets)
                      (sym it ∙ same)
                  ∙ empty))
          | inr there ↦
              let k = runs n e1 t gk (omega (arith, len, less)) there same full in
              record {
                steps = run t.id ∷ k.steps;
                no_arrivals = k.no_arrivals;
                reached = rw (run-started t.id e f ts found ∙ idle) k.reached;
              }
        ]
      ]

  -- A pending timer has started when its deadline has come and it has expired.
  starts :
      (t : Timer) (e : Engine)
      → In t e.clock.pending
      → (n : ℕ) × In t (perform_all cfg (wait n ∷ expire t.id ∷ []) e).0.clock.started
  unfolding perform_all perform expire_timer
  starts t e m =
      let (n, due) = due_then t e.clock.now in
      (
        n,
        In-append_right t e.clock.started _
            (In-keep (is_due t.id (e.clock.now + n)) t e.clock.pending due m),
      )

  pub leads-behind :
      (xs : List Action) (e : Engine) (P : Engine → Type 0)
      → arrivals xs ≡ []
      → Leads cfg (perform_all cfg xs e).0 P
      → Leads cfg e P
  leads-behind xs e P quiet l = record {
    steps = xs ++ l.steps;
    no_arrivals = arrivals-append xs l.steps ∙ rw (quiet, l.no_arrivals) refl;
    reached = subst P (sym (perform_all-append cfg xs l.steps e)) l.reached;
  }

  -- A group that holds events: one group fewer does, after some steps.
  pub progress :
      (e : Engine) (gk : GoString)
      → IsArmed e
      → (state_of e gk).buckets ≢ []
      → Leads cfg e (λ e'. busy e' < busy e)
  unfolding arrivals perform_all perform expire_timer
  progress e gk h full =
      let o = (h.armed gk full).outstanding in
      elim o.there [
        | inr m ↦ runs (length e.clock.started) e o.timer gk refl m o.same_callback full
        | inl m ↦
            let (n, started) = starts o.timer e m in
            leads-behind (wait n ∷ expire o.timer.id ∷ []) e _ refl (
              runs _ (perform_all cfg (wait n ∷ expire o.timer.id ∷ []) e).0 o.timer gk refl started
                o.same_callback full)
      ]
