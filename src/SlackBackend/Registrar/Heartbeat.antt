-- ===== src/SlackBackend/Registrar/Heartbeat.antt =====
-- The heartbeat and the registry of the core.
use argocd_notifier.Prelude.{
  ℕ, ◌≤◌, ◌≡◌, refl, sym, ap, ◌∙◌, true, false, some, List, [], ◌∷◌, ◌==◌, nat_eq, Bool-cases,
  ==-refl, inl, inr,
}
use argocd_notifier.Text.{text_eq}
use argocd_notifier.Maps.{keys, Distinct}
use argocd_notifier.Aggregator.Clock.{Time, is_stale}
use argocd_notifier.Aggregator.Backends.{Outcome, success, failure, Call}
use argocd_notifier.Registry.{Registry, find}
use argocd_notifier.Registry.Handler.{
  RegisterBackendRequest, no_content, answer_register, register_request,
}
use argocd_notifier.Registry.History.{
  Registration, is_complete, backend_of, register_complete, find-register,
}
use argocd_notifier.SlackBackend.Registrar.{
  Registrar, request_of, note_status, register, run, has_registered,
}

-- An attempt, as the core's registry sees it.
abbrev pub registration_at : Time → Registrar → Registration
registration_at now r = record {
  at = now;
  name = r.name;
  base_url = r.base_url;
  supports_thread_reply = r.supports_thread_reply;
}

note_status-registered :
    (r : Registrar) (out : Outcome ℕ) → r.registered ≡ true → (note_status r out).registered ≡ true
unfolding note_status
note_status-registered r (failure e) h = h
note_status-registered r (success status) h = elim (Bool-cases (status == 204)) [
  | inl q ↦ rw q refl
  | inr q ↦ rw q h
]

-- Once an attempt has succeeded, the backend counts as registered for good, whatever later attempts
-- come to.
pub run-registered :
    {W : Type 0} (post : RegisterBackendRequest → Call W ℕ) (ticks : List (W → W)) (r : Registrar)
    (w : W)
    → has_registered r ≡ true
    → has_registered (run post ticks (r, w)).0 ≡ true
unfolding run register has_registered
run-registered post [] r w h = note_status-registered r (post (request_of r) w).0 h
run-registered post (between ∷ ticks) r w h =
    run-registered post ticks (note_status r (post (request_of r) w).0)
      (between (post (request_of r) w).1) (note_status-registered r (post (request_of r) w).0 h)

-- An attempt that reaches the core's endpoint, with a name and an address, is answered with 204, and
-- from then on until its TTL runs out the core finds the backend under its name, with its address.
pub heartbeat_found :
    (r : Registrar) (core : Registry) (now later : Time)
    → is_complete (registration_at now r) ≡ true
    → Distinct (keys core.backends)
    → now ≤ later
    → is_stale later now core.ttl ≡ false
    → ((register_request now (success (request_of r)) core).0 ≡ no_content)
      × (find later r.name (register_request now (success (request_of r)) core).1
          ≡ some (backend_of (registration_at now r)))
unfolding register_request answer_register
heartbeat_found r core now later ok d le fresh =
    let c : Registration = registration_at now r in
    let found = find-register c core later r.name le d in
    let done = register_complete c core ok in
    (
      rw done refl,
      rw done (
          ap (λ x. find later r.name x.1) (sym done)
          ∙ (found ∙ rw (ok, ==-refl r.name, fresh) refl)),
    )
